-- ===== src/Utils.antt =====
-- src/utils.hpp, and the function of the same name in simple_iou_client.cpp: which elements
-- `debug_print_array` reads. What it prints is left out.
pub mod Printing
use fast_net.Base.{
  ℕ, zero, suc, ◌+◌, ◌-◌, ◌%◌, ◌^◌, Bool, true, false, ◌&&◌, List, [], ◌∷◌, ltb, if◌then◌else◌, map,
}

pub data ℤ : Type 0 where
  pos negsuc : ℕ → ℤ

-- The int with these 32 bits.
abbrev pub int_of_bits : ℕ → ℤ
int_of_bits w = if ltb w (2 ^ 31) then pos w else negsuc (2 ^ 32 - w - 1)

-- A loop over `j`, an int, given by its bits: the indices at which it reads, as long as the test on
-- the bits holds. In `j < size` the int is converted to uint32_t, which keeps the bits.
unfoldable pub indices : ℕ → (ℕ → Bool) → ℕ → List ℤ
indices zero test j = []
indices (suc fuel) test j =
    let rest = indices fuel test ((j + 1) % 2 ^ 32) in if test j then int_of_bits j ∷ rest else []

-- What the two loops read.
pub record Reads : Type 0 where
  pub first : List ℤ
  pub last : List ℤ

-- The fuel is more than any of the tests lets a loop have rounds, for an array of fewer than 2^31
-- elements.
unfoldable pub debug_print_array : Bool → ℕ → Reads
unfolding indices
debug_print_array is_debug size =
    if is_debug
    then record {
      first = indices (size + 30 + 1) (λ j. ltb j 30 && ltb j size) 0;
      last = indices (size + 30 + 1) (λ j. ltb j size) ((size + 2 ^ 32 - 30) % 2 ^ 32);
    }
    else record { first = []; last = [] }

-- That of simple_iou_client.cpp.
unfoldable pub debug_print_words : ℕ → Reads
unfolding indices
debug_print_words size = record {
  first = indices (size + 24 + 1) (λ j. ltb j 24 && ltb j size) 0;
  last =
      if ltb 24 size
      then indices (size + 24 + 1) (λ j. ltb j size) ((size + 2 ^ 32 - 24) % 2 ^ 32)
      else [];
}
