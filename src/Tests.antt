-- ===== src/Tests.antt =====
-- The theorems at concrete inputs: two small servers and their clients, a pool, and a few runs of
-- the io_uring programs.
mod PageRings
mod Pages
mod Pools
mod Rings
mod Settings
mod Batches
mod Programs
mod Totals
mod Answers
