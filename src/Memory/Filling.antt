-- ===== src/Memory/Filling.antt =====
-- What `fill` leaves in a block: the strategy's value at every index.
use Prim.Native.Nat.{zero, suc}
use mathlib.Core.List.{append_assoc}
use fast_net.Base.{
  ℕ, ◌+◌, ◌*◌, ◌%◌, ◌^◌, ◌≤◌, ◌<◌, ◌≡◌, refl, ap, List, [], ◌∷◌, ◌++◌, some, arith, lt→ltb, length,
  set, replicate, take, drop, length-replicate, length-append,
}
use fast_net.Base.Result.{ok}
use fast_net.Memory.{
  FillingStrategy, get_value_at, fill_loop, build_block, memory_block, size_t_mod,
}

-- The bytes of the strategy at `n` indices from `i` on.
abbrev pub values_from : FillingStrategy → ℕ → ℕ → List ℕ
values_from s i zero = []
values_from s i (suc n) = get_value_at s i ∷ values_from s (i + 1) n

pub length-values_from : (s : FillingStrategy) (i n : ℕ) → length (values_from s i n) ≡ n
length-values_from s i zero = refl
length-values_from s i (suc n) = ap suc (length-values_from s (i + 1) n)

set-append {ℓ} :
    {A : Type ℓ} (pre bs : List A) (b v : A) {i : ℕ}
    → length pre ≡ i
    → set (pre ++ (b ∷ bs)) i v ≡ pre ++ (v ∷ bs)
set-append [] bs b v {i = zero} h = refl
set-append [] bs b v {i = suc i} h = absurd (omega arith)
set-append (x ∷ pre) bs b v {i = zero} h = absurd (omega arith)
set-append (x ∷ pre) bs b v {i = suc i} h = ap (◌∷◌ x) (set-append pre bs b v (omega arith))

fill_loop-append :
    (s : FillingStrategy) (bs : List ℕ) (i : ℕ) (pre : List ℕ)
    → length pre ≡ i
    → fill_loop s (length bs) i (pre ++ bs) ≡ pre ++ values_from s i (length bs)
unfolding fill_loop
fill_loop-append s [] i pre h = refl
fill_loop-append s (b ∷ bs) i pre h =
    rw
      (
        fill_loop,
        set-append pre bs b (get_value_at s i) h,
        ← append_assoc pre (get_value_at s i ∷ []) bs,
        fill_loop-append s bs (i + 1) (pre ++ get_value_at s i ∷ [])
            (omega (arith, length-append pre (get_value_at s i ∷ []))),
      )
      (append_assoc pre (get_value_at s i ∷ []) (values_from s (i + 1) (length bs)))

-- The loop over a fresh vector of `n` zeros leaves exactly the strategy's values.
pub fill_loop-values_from :
    (s : FillingStrategy) (n : ℕ) → fill_loop s n 0 (replicate n 0) ≡ values_from s 0 n
fill_loop-values_from s n =
    let filled = fill_loop-append s (replicate n 0) 0 [] refl in
    rw (length-replicate {A = ℕ} n 0) at filled

-- A page of values is a run of values.
pub take-drop-values_from :
    (s : FillingStrategy) (i n k m : ℕ)
    → k + m ≤ n
    → take m (drop k (values_from s i n)) ≡ values_from s (i + k) m
take-drop-values_from s i n zero zero h = refl
take-drop-values_from s i zero zero (suc m) h = absurd (omega arith)
take-drop-values_from s i (suc n) zero (suc m) h =
    let here : i + 0 ≡ i = omega arith in
    let there : i + 1 ≡ i + 1 + 0 = omega arith in
    rw (here, take-drop-values_from s (i + 1) n zero m (omega arith), ← there) refl
take-drop-values_from s i zero (suc k) m h =
    let none_left : m ≡ 0 = omega arith in rw none_left refl
take-drop-values_from s i (suc n) (suc k) m h =
    let shift : i + suc k ≡ i + 1 + k = omega arith in
    rw shift (take-drop-values_from s (i + 1) n k m (omega arith))

-- If a strategy is given and the pages have fewer than 2^63 bytes in all, the constructor returns
-- a block that holds, for each byte of each page, the strategy's value at that index.
pub memory_block-values_from :
    (page_size page_count : ℕ) (s : FillingStrategy)
    → page_size * page_count < 2 ^ 63
    → memory_block page_size page_count (some s)
      ≡ ok (record { bytes = values_from s 0 (page_size * page_count); strategy = s })
unfolding memory_block build_block
memory_block-values_from page_size page_count s h =
    let exact : page_size * page_count % size_t_mod ≡ page_size * page_count = omega arith in
    rw (exact, lt→ltb _ _ h, fill_loop-values_from s (page_size * page_count)) refl
