-- ===== src/Client/Receive.antt =====
-- The inner loop puts a response together again, however the stream cuts it.
use mathlib.Core.List.{append_assoc}
use Prim.Native.Nat.{zero, suc}
use fast_net.Base.{
  ℕ, ◌+◌, ◌-◌, ◌≤◌, ◌<◌, ◌≡◌, refl, sym, List, [], ◌∷◌, ◌++◌, some, arith, lt→ltb, le→leb,
  le→not_ltb, length, length-append, length-drop, drop, take-append, map, All,
}
use fast_net.Server.{ReadResult, got, failed}
use fast_net.Client.{write_at, receive}

-- The bytes that a list of deliveries brings.
abbrev pub delivered : List (List ℕ) → List ℕ
delivered [] = []
delivered (c ∷ cs) = c ++ delivered cs

-- No delivery is empty: an empty read is the end of the stream.
abbrev pub NonEmpty : List ℕ → Type 0
NonEmpty bs = 0 < length bs

drop_past {ℓ} :
    {A : Type ℓ} (xs ys : List A) (n : ℕ) {k : ℕ}
    → k ≡ length xs + n
    → drop k (xs ++ ys) ≡ drop n ys
drop_past [] ys n {k} e = let e' : k ≡ n = omega arith in rw e' refl
drop_past (x ∷ xs) ys n {k = zero} e = absurd (omega arith)
drop_past (x ∷ xs) ys n {k = suc k} e = drop_past xs ys n (omega arith)

write_at-append :
    (filled old bytes : List ℕ)
    → write_at (filled ++ old) (length filled) bytes ≡ (filled ++ bytes) ++ drop (length bytes) old
write_at-append filled old bytes =
    rw (take-append filled old refl, drop_past filled old (length bytes) refl)
      (sym (append_assoc filled bytes (drop (length bytes) old)))

-- With nothing missing the loop does not read.
receive_full :
    (size total : ℕ) (buffer : List ℕ) (rest : List ReadResult)
    → size ≤ total
    → receive size total buffer rest
      ≡ some (record { total_read = total; buffer = buffer; rest = rest })
unfolding receive
receive_full size total buffer [] h = rw (le→not_ltb total size h) refl
receive_full size total buffer (failed ∷ rs) h = rw (le→not_ltb total size h) refl
receive_full size total buffer (got [] ∷ rs) h = rw (le→not_ltb total size h) refl
receive_full size total buffer (got (b ∷ bs) ∷ rs) h = rw (le→not_ltb total size h) refl

-- A delivery that brings no more than what is missing is copied behind what the buffer holds.
receive_step :
    (size : ℕ) (filled old bytes : List ℕ) (rs : List ReadResult)
    → 0 < length bytes
    → length filled + length bytes ≤ size
    → receive size (length filled) (filled ++ old) (got bytes ∷ rs)
      ≡ receive size (length (filled ++ bytes)) ((filled ++ bytes) ++ drop (length bytes) old) rs
unfolding receive
receive_step size filled old [] rs h fits = absurd (omega arith)
receive_step size filled old (b ∷ bs) rs h fits =
    rw
      (
        lt→ltb (length filled) size (omega arith),
        le→leb (length (b ∷ bs)) (size - length filled) (omega arith),
        write_at-append filled old (b ∷ bs),
        length-append filled (b ∷ bs),
      )
      refl

length-eq-zero {ℓ} : {A : Type ℓ} (xs : List A) → length xs ≡ 0 → xs ≡ []
length-eq-zero [] h = refl
length-eq-zero (x ∷ xs) h = absurd (omega arith)

-- Deliveries that bring what is missing of the buffer are all taken, and fill it behind what it
-- already holds.
receive-delivered :
    (size : ℕ) (filled : List ℕ) (old : List ℕ) (chunks : List (List ℕ)) (rest : List ReadResult)
    → All NonEmpty chunks
    → length old ≡ length (delivered chunks)
    → size ≡ length filled + length (delivered chunks)
    → receive size (length filled) (filled ++ old) (map got chunks ++ rest)
      ≡ some (record { total_read = size; buffer = filled ++ delivered chunks; rest = rest })
receive-delivered size filled old [] rest ne len fits =
    let exact : length filled ≡ size = omega arith in
    rw (exact, length-eq-zero old len) (receive_full size size (filled ++ []) rest (omega arith))
receive-delivered size filled old (c ∷ chunks) rest ne len fits =
    let both = length-append c (delivered chunks) in
    let copied = length-append filled c in
    rw
      (
        receive_step size filled old c (map got chunks ++ rest) ne.0 (omega arith),
        ← append_assoc filled c (delivered chunks),
      )
      (receive-delivered size (filled ++ c) (drop (length c) old) chunks rest ne.1
        (omega (arith, length-drop (length c) old)) (omega arith))

-- A response that comes in any number of non-empty deliveries, as long together as the buffer, is
-- read whole, and the loop reads nothing of what follows.
pub receive_whole :
    (size : ℕ) (buffer : List ℕ) (chunks : List (List ℕ)) (rest : List ReadResult)
    → All NonEmpty chunks
    → length buffer ≡ size
    → length (delivered chunks) ≡ size
    → receive size 0 buffer (map got chunks ++ rest)
      ≡ some (record { total_read = size; buffer = delivered chunks; rest = rest })
receive_whole size buffer chunks rest ne len fits =
    receive-delivered size [] buffer chunks rest ne (omega arith) (omega arith)
