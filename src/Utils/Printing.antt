-- ===== src/Utils/Printing.antt =====
-- The debug prints stay within their arrays.
use fast_net.Base.{
  ℕ, zero, suc, ◌+◌, ◌-◌, ◌%◌, ◌^◌, ◌≤◌, ◌<◌, ◌≡◌, refl, ap, ap₂, inl, inr, Bool, true, false, ◌&&◌,
  List, [], ◌∷◌, ltb, if◌then◌else◌, min, arith, Bool-cases,
}
use fast_net.Utils.{ℤ, pos, int_of_bits, indices, Reads, debug_print_array, debug_print_words}

-- The numbers from `j` on, `n` of them.
unfoldable pub upto : ℕ → ℕ → List ℤ
upto zero j = []
upto (suc n) j = pos j ∷ upto n (j + 1)

-- A loop that stops at `stop` reads what lies before it.
indices-upto :
    (fuel : ℕ) (test : ℕ → Bool) (j n stop : ℕ)
    → j + n ≡ stop
    → n ≤ fuel
    → stop < 2 ^ 31
    → ((k : ℕ) → k < stop → test k ≡ true)
    → test stop ≡ false
    → indices fuel test j ≡ upto n j
unfolding indices upto
indices-upto zero test j zero stop e enough small goes ends = refl
indices-upto zero test j (suc n) stop e enough small goes ends = absurd (omega arith)
indices-upto (suc fuel) test j zero stop e enough small goes ends =
    let here : j ≡ stop = omega arith in rw (ap test here) (rw ends refl)
indices-upto (suc fuel) test j (suc n) stop e enough small goes ends =
    let next : (j + 1) % 2 ^ 32 ≡ j + 1 = omega arith in
    let positive : int_of_bits j ≡ pos j = ground arith in
    rw (goes j (omega arith), next, positive)
      (ap (◌∷◌ (pos j))
        (indices-upto fuel test (j + 1) n stop (omega arith) (omega arith) small goes ends))

indices_first :
    (m size : ℕ)
    → size < 2 ^ 31
    → indices (size + m + 1) (λ j. ltb j m && ltb j size) 0 ≡ upto (min m size) 0
indices_first m size small =
    indices-upto (size + m + 1) (λ j. ltb j m && ltb j size) 0 (min m size) (min m size)
      (omega arith) (omega arith) (omega arith) (λ k below. ground arith) (ground arith)

indices_last :
    (m size : ℕ)
    → 0 < m
    → m ≤ size
    → size < 2 ^ 31
    → indices (size + m + 1) (λ j. ltb j size) ((size + 2 ^ 32 - m) % 2 ^ 32) ≡ upto m (size - m)
indices_last m size some_wanted le small =
    let from : (size + 2 ^ 32 - m) % 2 ^ 32 ≡ size - m = omega arith in
    rw from (
      indices-upto (size + m + 1) (λ j. ltb j size) (size - m) m size (omega arith) (omega arith)
        small (λ k below. ground arith) (ground arith))

-- A loop whose test fails at once reads nothing.
indices_over : (fuel : ℕ) (test : ℕ → Bool) (j : ℕ) → test j ≡ false → indices fuel test j ≡ []
unfolding indices
indices_over zero test j over = refl
indices_over (suc fuel) test j over = rw over refl

-- The start of the loop is beyond the array.
indices_none :
    (m size : ℕ)
    → size < m
    → m < 2 ^ 31
    → indices (size + m + 1) (λ j. ltb j size) ((size + 2 ^ 32 - m) % 2 ^ 32) ≡ []
indices_none m size below small =
    indices_over (size + m + 1) (λ j. ltb j size) ((size + 2 ^ 32 - m) % 2 ^ 32) (ground arith)

-- An array of fewer than 2^31 elements. At the level debug, `debug_print_array` reads its first 30
-- elements, or all if it has fewer, and then its last 30, or none if it has fewer; at other levels
-- it reads nothing. That of simple_iou_client.cpp reads the first 24, or all if there are fewer,
-- and the last 24, or none if there are no more than 24.
pub debug_print_bounds :
    (size : ℕ)
    → size < 2 ^ 31
    → (debug_print_array true size ≡ record {
      first = upto (min 30 size) 0;
      last = if ltb size 30 then [] else upto 30 (size - 30);
    })
      × (debug_print_array false size ≡ record { first = []; last = [] })
      × (debug_print_words size ≡ record {
        first = upto (min 24 size) 0;
        last = if ltb 24 size then upto 24 (size - 24) else [];
      })
unfolding debug_print_array debug_print_words
debug_print_bounds size small = (
  ap₂ reads (indices_first 30 size small) (elim (Bool-cases (ltb size 30)) [
    | inl less ↦ rw less (indices_none 30 size (ground arith) (omega arith))
    | inr enough ↦ rw enough (indices_last 30 size (omega arith) (ground arith) small)
  ]),
  refl,
  ap₂ reads (indices_first 24 size small) (elim (Bool-cases (ltb 24 size)) [
    | inl more ↦ rw more (indices_last 24 size (omega arith) (ground arith) small)
    | inr few ↦ rw few refl
  ]),
)
  where
    reads : List ℤ → List ℤ → Reads
    reads f l = record { first = f; last = l }
