-- ===== src/Memory.antt =====
-- memory_block.hpp: the pages that a server keeps, and the test by which a client knows them.
pub mod Filling
pub mod Verify
use Prim.Native.Nat.{zero, suc}
use fast_net.Base.{
  ℕ, ◌+◌, ◌*◌, ◌%◌, ◌^◌, Bool, true, false, List, [], ◌∷◌, Option, none, some, ltb, leb, ◌==◌,
  if◌then◌else◌, set, replicate,
}
use fast_net.Base.Result.{Result, ok, throw, runtime_error, length_error}

-- IFillingStrategy and its two implementations.
pub data FillingStrategy : Type 0 where
  alphabetical : FillingStrategy
  pseudo_random : (seed : ℕ) → FillingStrategy

abbrev pub pseudo_random_seed : ℕ
pseudo_random_seed = 42

abbrev pub size_t_mod : ℕ
size_t_mod = 2 ^ 64

unfoldable pub get_value_at : FillingStrategy → ℕ → ℕ
get_value_at alphabetical index = (b'a' + index % 26) % 256
get_value_at (pseudo_random seed) index = 0xAA

pub record MemoryBlock : Type 0 where
  pub bytes : List ℕ
  pub strategy : FillingStrategy

-- The loop of `fill` from index `i`, with `n` rounds left.
unfoldable pub fill_loop : FillingStrategy → ℕ → ℕ → List ℕ → List ℕ
fill_loop s zero i bytes = bytes
fill_loop s (suc n) i bytes = fill_loop s n (i + 1) (set bytes i (get_value_at s i))

-- The constructor, with `n` for the number of bytes of the vector.
unfoldable pub build_block : ℕ → Option FillingStrategy → Result MemoryBlock
unfolding fill_loop
build_block n none = throw runtime_error
build_block n (some s) = ok (record { bytes = fill_loop s n 0 (replicate n 0); strategy = s })

-- A vector holds fewer than 2^63 bytes: the request for more throws.
unfoldable pub memory_block : ℕ → ℕ → Option FillingStrategy → Result MemoryBlock
unfolding build_block
memory_block page_size page_count strategy =
    let n = page_size * page_count % size_t_mod in
    if ltb n (2 ^ 63) then build_block n strategy else throw length_error

pub record MemoryBlockVerifier : Type 0 where
  pub page_count : ℕ
  pub strategy : FillingStrategy

unfoldable pub memory_block_verifier : ℕ → Option FillingStrategy → Result MemoryBlockVerifier
memory_block_verifier page_count none = throw runtime_error
memory_block_verifier page_count (some s) = ok (record { page_count = page_count; strategy = s })

-- The loop of `verify` over the array from index `i`; it leaves at the first byte that differs.
unfoldable pub verify_loop : FillingStrategy → ℕ → ℕ → List ℕ → Bool
verify_loop s base i [] = true
verify_loop s base i (c ∷ cs) =
    let rest = verify_loop s base (i + 1) cs in
    if c == get_value_at s ((base + i) % size_t_mod) then rest else false

unfoldable pub verify : ℕ → MemoryBlockVerifier → List ℕ → ℕ → Bool
unfolding verify_loop
verify page_size v page_content page_number =
    if leb v.page_count page_number
    then false
    else verify_loop v.strategy (page_number * page_size % size_t_mod) 0 page_content
