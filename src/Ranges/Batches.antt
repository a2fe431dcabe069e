-- ===== src/Ranges/Batches.antt =====
-- The batches of a thread's range.
use fast_net.Base.{
  ℕ, zero, suc, ◌+◌, ◌≤◌, ◌<◌, ◌≡◌, refl, inl, inr, List, [], ◌∷◌, arith, ltb, ltb→lt, not_ltb→le,
  le→not_ltb, Bool-cases, min,
}
use fast_net.Ranges.{Range, batch_size, batches}

-- Ranges that lie one behind the other from `start` up to `end`, none empty or longer than a batch.
abbrev pub Covers : ℕ → ℕ → List Range → Type 0
Covers start end [] = start ≡ end
Covers start end ((a, b) ∷ rs) = (a ≡ start) × (a < b) × (b ≤ a + batch_size) × Covers b end rs

pub Covers-le : (start end : ℕ) (rs : List Range) → Covers start end rs → start ≤ end
Covers-le start end [] e = omega arith
Covers-le start end ((a, b) ∷ rs) (e, less, short, rest) = omega (arith, Covers-le b end rs rest)

batches_done : (fuel i end : ℕ) → end ≤ i → batches fuel i end ≡ []
unfolding batches
batches_done zero i end h = refl
batches_done (suc fuel) i end h = rw (le→not_ltb i end h) refl

-- With fuel for one round for each request, the loop cuts the range of a thread into batches that
-- follow on each other without gap or overlap, each of 1 to 64 requests.
pub batches-Covers : (fuel i end : ℕ) → i ≤ end → end < i + fuel → Covers i end (batches fuel i end)
unfolding batches
batches-Covers zero i end le enough = absurd (omega arith)
batches-Covers (suc fuel) i end le enough = elim (Bool-cases (ltb i end)) [
  | inl more ↦
      let below = ltb→lt _ _ more in
      rw more (elim (Bool-cases (ltb (i + batch_size) end)) [
        | inl whole ↦
            let inside = ltb→lt _ _ whole in
            let cut : min end (i + batch_size) ≡ i + batch_size = omega arith in
            rw cut (
              refl,
              omega arith,
              omega arith,
              batches-Covers fuel (i + batch_size) end (omega arith) (omega arith),
            )
        | inr last ↦
            let outside = not_ltb→le _ _ last in
            let cut : min end (i + batch_size) ≡ end = omega arith in
            rw (cut, batches_done fuel (i + batch_size) end outside)
              (refl, below, omega arith, refl)
      ])
  | inr done ↦ rw done (omega (arith, not_ltb→le _ _ done))
]
