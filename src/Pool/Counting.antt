-- ===== src/Pool/Counting.antt =====
-- How often an address occurs among the live blocks, in a vector, in all vectors.
use fast_net.Base.{
  ℕ, ◌+◌, ◌<◌, ◌≡◌, refl, ap, inl, inr, List, [], ◌∷◌, ◌++◌, none, some, arith, ◌==◌, if◌then◌else◌,
  Bool-cases, ==_iff,
}
use fast_net.Pool.{Vector, Pools, find, assign, remove}

abbrev pub count : ℕ → List ℕ → ℕ
count a [] = 0
count a (b ∷ bs) = (if a == b then 1 else 0) + count a bs

-- All buffers that wait in the pools.
abbrev pub pooled : Pools → List ℕ
pooled [] = []
pooled ((n, v) ∷ ps) = v.items ++ pooled ps

pub count-append : (b : ℕ) (us vs : List ℕ) → count b (us ++ vs) ≡ count b vs + count b us
count-append b [] vs = omega arith
count-append b (u ∷ us) vs = omega (arith, count-append b us vs)

-- A list that holds `b` loses one `b` and nothing else.
pub remove-count :
    (b : ℕ) (xs : List ℕ)
    → 0 < count b xs
    → (ys : List ℕ) × (remove b xs ≡ some ys)
      × ((a : ℕ) → count a xs ≡ (if a == b then 1 else 0) + count a ys)
unfolding remove
remove-count b [] h = absurd (omega arith)
remove-count b (x ∷ xs) h = elim (Bool-cases (b == x)) [
  | inl here ↦ let e : b ≡ x = (==_iff b x).0 here in rw (here, remove) (xs, refl, λ a. rw e refl)
  | inr later ↦
      let rest = rw later at h in
      let (ys, removed, counted) = remove-count b xs (omega arith) in
      rw (later, remove) (rw (removed, remove) (x ∷ ys, refl, λ a. omega (arith, counted a)))
]

-- Putting another vector in the place of one that is there.
pub count-assign :
    (a size : ℕ) (v w : Vector) (ps : Pools)
    → find size ps ≡ some v
    → count a (pooled (assign size w ps)) + count a v.items ≡ count a (pooled ps) + count a w.items
unfolding find assign
count-assign a size v w [] e = cc
count-assign a size v w ((n, u) ∷ ps) e = elim (Bool-cases (size == n)) [
  | inl here ↦
      let same : u ≡ v = ground (arith) in
      rw (here, assign)
        (omega (
          arith,
          count-append a w.items (pooled ps),
          count-append a u.items (pooled ps),
          ap (λ (x : Vector). count a x.items) same,
        ))
  | inr later ↦
      let deeper = rw (later, find) at e in
      rw (later, assign)
        (omega (
          arith,
          count-append a u.items (pooled (assign size w ps)),
          count-append a u.items (pooled ps),
          count-assign a size v w ps deeper,
        ))
]

pub count-assign_new :
    (a size : ℕ) (w : Vector) (ps : Pools)
    → find size ps ≡ none
    → count a (pooled (assign size w ps)) ≡ count a (pooled ps) + count a w.items
unfolding find assign
count-assign_new a size w [] e = omega (arith, count-append a w.items [])
count-assign_new a size w ((n, u) ∷ ps) e = elim (Bool-cases (size == n)) [
  | inl here ↦ cc (rw (here, find) at e)
  | inr later ↦
      let deeper = rw (later, find) at e in
      rw (later, assign)
        (omega (
          arith,
          count-append a u.items (pooled (assign size w ps)),
          count-append a u.items (pooled ps),
          count-assign_new a size w ps deeper,
        ))
]
