-- ===== src/MaxServer/Threads.antt =====
-- max_server.cpp: which of the threads of `main` have ended.
use fast_net.Base.{
  ℕ, zero, suc, ◌+◌, ◌≤◌, ◌<◌, ◌≡◌, refl, sym, ap, ◌∙◌, inl, inr, Bool, true, false, List, [], ◌∷◌,
  ◌++◌, ◌==◌, Option, none, some, ltb, if◌then◌else◌, get_elem?, set, length, get_elem?-set_other,
  arith, Bool-cases,
}
use fast_net.MaxServer.Program.{Thread, begun, finished}

abbrev pub has_ended : Option Thread → Bool
has_ended (some finished) = true
has_ended _ = false

abbrev pub one_if_finished : Thread → ℕ
one_if_finished finished = 1
one_if_finished _ = 0

-- The threads before number `k` have ended.
abbrev pub Ended : ℕ → List Thread → Type 0
Ended k ts = (j : ℕ) → j < k → get_elem? ts j ≡ some finished

pub has_ended-spawn :
    (ts : List Thread) (i : ℕ)
    → has_ended (get_elem? (ts ++ (begun ∷ [])) i) ≡ has_ended (get_elem? ts i)
has_ended-spawn [] zero = refl
has_ended-spawn [] (suc i) = refl
has_ended-spawn (t ∷ ts) zero = refl
has_ended-spawn (t ∷ ts) (suc i) = has_ended-spawn ts i

abbrev pub ones : Option Thread → ℕ
ones none = 0
ones (some t) = one_if_finished t

-- A thread that has not ended comes to stand elsewhere.
pub Ended-set :
    (k : ℕ) (ts : List Thread) (i : ℕ) (t u : Thread)
    → get_elem? ts i ≡ some t
    → one_if_finished t ≡ 0
    → Ended k ts
    → Ended k (set ts i u)
Ended-set k ts i t u here goes h j less =
    get_elem?-set_other ts i j u
      (λ e. absurd (omega (arith, ap ones (sym (h j less) ∙ ap (get_elem? ts) e ∙ here), goes)))
    ∙ h j less

pub has_ended-set :
    (ts : List Thread) (i j : ℕ) (u : Thread)
    → i < length ts
    → has_ended (get_elem? (set ts i u) j)
      ≡ (if j == i then has_ended (some u) else has_ended (get_elem? ts j))
has_ended-set [] i j u h = absurd (omega arith)
has_ended-set (t ∷ ts) zero zero u h = refl
has_ended-set (t ∷ ts) zero (suc j) u h = ground arith
has_ended-set (t ∷ ts) (suc i) zero u h = ground arith
has_ended-set (t ∷ ts) (suc i) (suc j) u h = ground (arith, has_ended-set ts i j u)

pub Ended-suc :
    (k : ℕ) (ts : List Thread) → get_elem? ts k ≡ some finished → Ended k ts → Ended (k + 1) ts
Ended-suc k ts here h j less = elim (Bool-cases (ltb j k)) [
  | inl before ↦ h j (ground (arith, before))
  | inr last ↦ let same : j ≡ k = ground (arith, last) in ap (get_elem? ts) same ∙ here
]

pub get_elem?-none : (ts : List Thread) (i : ℕ) → get_elem? ts i ≡ none → length ts ≤ i
get_elem?-none [] i e = omega arith
get_elem?-none (t ∷ ts) zero e = cc
get_elem?-none (t ∷ ts) (suc i) e = omega (arith, get_elem?-none ts i e)
