-- ===== src/SimpleServer/Leak.antt =====
-- What the end of a connection leaves allocated.
