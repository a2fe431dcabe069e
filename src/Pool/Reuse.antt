-- ===== src/Pool/Reuse.antt =====
-- A buffer that was given back is the next one given out.
use fast_net.Base.{
  ℕ, ◌<◌, ◌≡◌, refl, ap, inl, inr, false, [], ◌∷◌, some, arith, lt→ltb, ◌==◌, Bool-cases, length,
}
use fast_net.Pool.{Vector, Pools, find, assign, World, take_back, allocate, deallocate}

find-assign :
    (size : ℕ) (v w : Vector) (ps : Pools)
    → find size ps ≡ some v
    → find size (assign size w ps) ≡ some w
unfolding find assign
find-assign size v w [] e = cc
find-assign size v w ((n, u) ∷ ps) e = elim (Bool-cases (size == n)) [
  | inl here ↦ rw (here, assign) (rw (here, find) refl)
  | inr later ↦
      let deeper = rw (later, find) at e in
      rw (later, assign) (rw (later, find) (find-assign size v w ps deeper))
]

-- Putting a vector away and the old one back changes nothing.
assign-assign :
    (size : ℕ) (v w : Vector) (ps : Pools)
    → find size ps ≡ some v
    → assign size v (assign size w ps) ≡ ps
unfolding find assign
assign-assign size v w [] e = cc
assign-assign size v w ((n, u) ∷ ps) e = elim (Bool-cases (size == n)) [
  | inl here ↦ let same : u ≡ v = ground arith in rw (here, assign) (rw (here, assign, same) refl)
  | inr later ↦
      let deeper = rw (later, find) at e in
      rw (later, assign) (rw (later, assign) (ap (◌∷◌ (n, u)) (assign-assign size v w ps deeper)))
]

-- Where the pools are in use and the vector of a size has room, giving back a buffer of that size
-- and asking for one gives the same buffer out again, with no call of `malloc`, and leaves the
-- pool and the heap as they were.
pub allocate-deallocate :
    (b size : ℕ) (v : Vector) (w : World)
    → find size w.pools ≡ some v
    → length v.items < v.capacity
    → (w' : World) × (deallocate false b size w ≡ some w') × (allocate false size w' ≡ (b, w))
unfolding allocate deallocate take_back
allocate-deallocate b size v w found room =
    let pushed : Vector = record { items = b ∷ v.items; capacity = v.capacity } in
    rw (found, deallocate)
      (rw (lt→ltb _ _ room) (
        _,
        refl,
        rw (find-assign size v pushed w.pools found, allocate)
            (rw (assign-assign size v pushed w.pools found) refl),
      ))
