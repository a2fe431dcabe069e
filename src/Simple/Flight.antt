-- ===== src/Simple/Flight.antt =====
-- Counting over the requests in flight.
use fast_net.Base.{
  ℕ, zero, suc, ◌+◌, ◌≡◌, refl, subst, inl, inr, Bool, List, [], ◌∷◌, ◌++◌, length, some, arith,
  if◌then◌else◌, All, Option-cases,
}
use fast_net.Pool.Counting.{count}
use fast_net.Simple.{RequestData, take_out}

-- The blocks of the requests in flight.
abbrev pub blocks : List RequestData → List ℕ
blocks [] = []
blocks (r ∷ rs) = r.address ∷ blocks rs

pub count-blocks :
    (a : ℕ) (rs : List RequestData) (r : RequestData)
    → count a (blocks (rs ++ (r ∷ []))) ≡ count a (blocks rs) + count a (r.address ∷ [])
count-blocks a [] r = omega arith
count-blocks a (q ∷ rs) r = omega (arith, count-blocks a rs r)

-- How many of them satisfy a test.
abbrev pub number : (RequestData → Bool) → List RequestData → ℕ
number p [] = 0
number p (r ∷ rs) = (if p r then 1 else 0) + number p rs

-- What is taken out is gone, and the rest is as before.
pub record Taken (rs : List RequestData) (q : RequestData) (qs : List RequestData) : Type 1 where
  pub counted : (a : ℕ) → count a (blocks rs) ≡ count a (q.address ∷ blocks qs)
  pub numbered : (p : RequestData → Bool) → number p rs ≡ (if p q then 1 else 0) + number p qs
  pub shorter : length rs ≡ length qs + 1
  pub split_all : (P : RequestData → Type 0) → All P rs → P q × All P qs

Taken-here : (r : RequestData) (rs : List RequestData) → Taken (r ∷ rs) r rs
Taken-here r rs = record {
  counted = λ a. refl;
  numbered = λ p. refl;
  shorter = omega arith;
  split_all = λ P h. h;
}

Taken-later :
    (r : RequestData) (rs : List RequestData) (q : RequestData) (qs : List RequestData)
    → Taken rs q qs
    → Taken (r ∷ rs) q (r ∷ qs)
Taken-later r rs q qs t = record {
  counted = λ a. omega (arith, t.counted a);
  numbered = λ p. omega (arith, t.numbered p);
  shorter = omega (arith, t.shorter);
  split_all = λ P h. let (hq, hs) = t.split_all P h.1 in (hq, (h.0, hs));
}

abbrev Pair : Type 0
Pair = RequestData × List RequestData

Taken-eq :
    (rs : List RequestData) (x y : Pair) → some x ≡ some y → Taken rs x.0 x.1 → Taken rs y.0 y.1
Taken-eq rs x y e t = let same : x ≡ y = cc in subst (λ (z : Pair). Taken rs z.0 z.1) same t

pub take_out-Taken :
    (i : ℕ) (rs : List RequestData) (q : RequestData) (qs : List RequestData)
    → take_out i rs ≡ some (q, qs)
    → Taken rs q qs
unfolding take_out
take_out-Taken i [] q qs e = cc
take_out-Taken zero (r ∷ rs) q qs e = Taken-eq (r ∷ rs) (r, rs) (q, qs) e (Taken-here r rs)
take_out-Taken (suc i) (r ∷ rs) q qs e = elim (Option-cases (take_out i rs)) [
  | inl gone ↦ cc (rw (gone, take_out) at e)
  | inr ((q', qs'), found) ↦
      Taken-eq (r ∷ rs) (q', r ∷ qs') (q, qs) (rw (found, take_out) at e)
        (Taken-later r rs q' qs' (take_out-Taken i rs q' qs' found))
]
