-- ===== src/Config/Parsing.antt =====
-- What `trim` leaves of a text.
use mathlib.Core.List.{append-nil}
use fast_net.Base.{
  ℕ, zero, suc, ◌+◌, ◌-◌, ◌≡◌, refl, sym, ap, ◌∙◌, ◌⊎◌, inl, inr, false, [], ◌∷◌, ◌++◌, none, some,
  ◌==◌, ==_iff, arith, Bool-cases, Option-cases, length, take, replicate, drop-append,
  length-replicate,
}
use fast_net.Config.Strings.{Text, find_first_not_of, find_last_not_of}
use fast_net.Config.{trim}

abbrev pub NoBlankFirst : Text → Type 0
NoBlankFirst [] = Unit
NoBlankFirst (c ∷ cs) = (c == b' ') ≡ false

abbrev pub NoBlankLast : Text → Type 0
NoBlankLast [] = Unit
NoBlankLast (c ∷ []) = (c == b' ') ≡ false
NoBlankLast (c ∷ d ∷ cs) = NoBlankLast (d ∷ cs)

abbrev pub blanks : ℕ → Text
blanks n = replicate n b' '

-- `inner` is `str` without the blanks at its ends.
pub record Trimmed (str inner : Text) : Type 0 where
  pub before : ℕ
  pub after : ℕ
  pub cut : str ≡ blanks before ++ (inner ++ blanks after)
  pub first_ok : NoBlankFirst inner
  pub last_ok : NoBlankLast inner

-- Where no byte is found, all are blanks.
first_none : (s : Text) → find_first_not_of b' ' s ≡ none → s ≡ blanks (length s)
unfolding find_first_not_of
first_none [] e = refl
first_none (c ∷ cs) e = elim (Bool-cases (c == b' ')) [
  | inl blank ↦
      let same : c ≡ b' ' = (==_iff c b' ').0 blank in
      elim (Option-cases (find_first_not_of b' ' cs)) [
        | inl nothing ↦ rw same (ap (◌∷◌ b' ') (first_none cs nothing))
        | inr (i, found) ↦ cc (rw (blank, find_first_not_of) at e)
      ]
  | inr other ↦ cc (rw (other, find_first_not_of) at e)
]

-- The byte that is found is the first that is no blank.
first_some :
    (s : Text) (i : ℕ)
    → find_first_not_of b' ' s ≡ some i
    → (c : ℕ) × (cs : Text) × (s ≡ blanks i ++ (c ∷ cs)) × ((c == b' ') ≡ false)
unfolding find_first_not_of
first_some [] i e = cc
first_some (c ∷ cs) i e = elim (Bool-cases (c == b' ')) [
  | inl blank ↦
      let same : c ≡ b' ' = (==_iff c b' ').0 blank in
      elim (Option-cases (find_first_not_of b' ' cs)) [
        | inl nothing ↦
            let e' = rw (blank, find_first_not_of) at e in
            cc (rw (nothing, find_first_not_of) at e')
        | inr (k, found) ↦
            let (d, ds, cut, ok) = first_some cs k found in
            let e' = rw (blank, find_first_not_of) at e in
            let there : suc k ≡ i = some_eq (rw (found, find_first_not_of) at e') in
            (d, ds, rw (← there, same) (ap (◌∷◌ b' ') cut), ok)
      ]
  | inr other ↦
      let here : 0 ≡ i = some_eq (rw (other, find_first_not_of) at e) in
      (c, cs, rw (← here) refl, other)
]
  where
    some_eq : {x y : ℕ} → some x ≡ some y → x ≡ y
    some_eq e = cc

-- The end of a text by what `find_last_not_of` finds.
abbrev LastAt : Text → ℕ → Type 0
LastAt s j =
    (find_last_not_of b' ' s ≡ some j)
    × ((m : ℕ) × (s ≡ take (suc j) s ++ blanks m))
    × NoBlankLast (take (suc j) s)

last_later : (c : ℕ) (cs : Text) (j : ℕ) → LastAt cs j → LastAt (c ∷ cs) (suc j)
unfolding find_last_not_of
last_later c [] j (e, cut, ok) = cc
last_later c (d ∷ ds) j (e, (m, cut), ok) = (rw e refl, (m, ap (◌∷◌ c) cut), ok)

last_cases :
    (s : Text)
    → ((find_last_not_of b' ' s ≡ none) × (s ≡ blanks (length s))) ⊎ ((j : ℕ) × LastAt s j)
unfolding find_last_not_of
last_cases [] = inl (refl, refl)
last_cases (c ∷ cs) = elim (last_cases cs) [
  | inr (j, found) ↦ inr (suc j, last_later c cs j found)
  | inl (nothing, all) ↦ elim (Bool-cases (c == b' ')) [
    | inl blank ↦
        let same : c ≡ b' ' = (==_iff c b' ').0 blank in
        inl (rw (nothing, blank) refl, rw same (ap (◌∷◌ b' ') all))
    | inr other ↦ inr (0, (rw (nothing, other) refl, (length cs, ap (◌∷◌ c) all), other))
  ]
]

last-blanks :
    (i j : ℕ) (s : Text)
    → find_last_not_of b' ' s ≡ some j
    → find_last_not_of b' ' (blanks i ++ s) ≡ some (i + j)
unfolding find_last_not_of
last-blanks zero j s e = e ∙ ap some (omega arith)
last-blanks (suc i) j s e =
    let shift : suc (i + j) ≡ suc i + j = omega arith in
    rw (last-blanks i j s e, find_last_not_of) (ap some shift)

first-blanks :
    (i c : ℕ) (cs : Text)
    → (c == b' ') ≡ false
    → find_first_not_of b' ' (blanks i ++ (c ∷ cs)) ≡ some i
unfolding find_first_not_of
first-blanks zero c cs other = rw other refl
first-blanks (suc i) c cs other = rw (first-blanks i c cs other, find_first_not_of) refl

NoBlankFirst-take :
    (c j : ℕ) (cs : Text) → (c == b' ') ≡ false → NoBlankFirst (take (suc j) (c ∷ cs))
NoBlankFirst-take c j cs other = other

trim-cut :
    (i j c : ℕ) (cs : Text)
    → (c == b' ') ≡ false
    → find_last_not_of b' ' (c ∷ cs) ≡ some j
    → trim (blanks i ++ (c ∷ cs)) ≡ take (suc j) (c ∷ cs)
unfolding trim
trim-cut i j c cs other e =
    let long : i + j - i + 1 ≡ suc j = omega arith in
    rw (first-blanks i c cs other, trim)
      (rw (last-blanks i j (c ∷ cs) e, trim)
        (rw (drop-append (blanks i) (c ∷ cs) (length-replicate i b' '), long) refl))

trim-blank : (s : Text) → find_first_not_of b' ' s ≡ none → trim s ≡ []
unfolding trim
trim-blank s nothing = rw (nothing, trim) refl

no_blank : (c : ℕ) (cs : Text) → (c == b' ') ≡ false → (c ∷ cs) ≡ blanks (length (c ∷ cs)) → ⊥
no_blank c cs other all = let head : c ≡ b' ' = cc in ground (arith, head, other)

-- Of any text, `trim` leaves what stands between the blanks at its two ends: it takes blanks only,
-- and what is left starts and ends with none. A text of blanks leaves nothing.
pub trim-Trimmed : (str : Text) → Trimmed str (trim str)
trim-Trimmed str = elim (Option-cases (find_first_not_of b' ' str)) [
  | inl nothing ↦ rw (trim-blank str nothing) (record {
    before = length str;
    after = 0;
    cut = first_none str nothing ∙ sym (append-nil (blanks (length str)));
    first_ok = tt;
    last_ok = tt;
  })
  | inr (i, found) ↦
      let (c, cs, front, other) = first_some str i found in
      elim (last_cases (c ∷ cs)) [
        | inl (nothing, all) ↦ absurd (no_blank c cs other all)
        | inr (j, (e, (m, back), ok)) ↦ rw front (
            rw (trim-cut i j c cs other e) (record {
              before = i;
              after = m;
              cut = ap (λ s. blanks i ++ s) back;
              first_ok = other;
              last_ok = ok;
            }))
      ]
]
