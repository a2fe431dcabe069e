-- ===== src/Config/Number.antt =====
-- std::stoul and std::to_string in base 10, and that one reads what the other writes.
use fast_net.Base.{
  ℕ, zero, suc, ◌+◌, ◌-◌, ◌*◌, ◌/◌, ◌%◌, ◌^◌, ◌<◌, ◌≡◌, refl, ◌∙◌, Bool, true, false, not, ◌&&◌,
  ◌||◌, inl, inr, [], ◌∷◌, ltb, leb, ◌==◌, if◌then◌else◌, arith, Bool-cases, ltb→lt, not_ltb→le,
}
use fast_net.Base.Result.{Result, ok, throw, invalid_argument, out_of_range}
use fast_net.Config.Strings.{Text}

abbrev pub is_digit : ℕ → Bool
is_digit c = leb b'0' c && leb c b'9'

-- std::isspace: the space, and the codes 9 to 13.
abbrev is_space : ℕ → Bool
is_space c = c == b' ' || leb 9 c && leb c 13

unfoldable skip_spaces : Text → Text
skip_spaces [] = []
skip_spaces (c ∷ cs) = let rest = skip_spaces cs in if is_space c then rest else c ∷ cs

-- The value of the leading digits, behind digits of value `acc`.
unfoldable pub read_digits : ℕ → Text → ℕ
read_digits acc [] = acc
read_digits acc (c ∷ cs) =
    let rest = read_digits (acc * 10 + (c - b'0')) cs in if is_digit c then rest else acc

abbrev starts_with_digit : Text → Bool
starts_with_digit [] = false
starts_with_digit (c ∷ cs) = is_digit c

-- A magnitude that is too large throws; behind a minus the value wraps.
unfoldable read_magnitude : Bool → Text → Result ℕ
unfolding read_digits
read_magnitude negative s =
    let n = read_digits 0 s in
    if not (starts_with_digit s)
    then throw invalid_argument
    else if leb (2 ^ 64) n
    then throw out_of_range
    else ok (if negative then (2 ^ 64 - n) % 2 ^ 64 else n)

unfoldable read_signed : Text → Result ℕ
unfolding read_magnitude
read_signed [] = throw invalid_argument
read_signed (c ∷ cs) =
    if c == b'-'
    then read_magnitude true cs
    else if c == b'+'
    then read_magnitude false cs
    else read_magnitude false (c ∷ cs)

unfoldable pub stoul : Text → Result ℕ
unfolding skip_spaces read_signed
stoul s = read_signed (skip_spaces s)

-- The digits of `n` in front of `rest`, the last one first; `fuel` bounds their number.
unfoldable pub write_digits : ℕ → ℕ → Text → Text
write_digits zero n rest = rest
write_digits (suc fuel) n rest =
    let digit = b'0' + n % 10 in
    let more = write_digits fuel (n / 10) (digit ∷ rest) in if ltb n 10 then digit ∷ rest else more

unfoldable pub to_string : ℕ → Text
unfolding write_digits
to_string n = write_digits (suc n) n []

-- A digit read behind `acc`.
read_digits_digit :
    (acc d : ℕ) (rest : Text)
    → d < 10
    → read_digits acc ((b'0' + d) ∷ rest) ≡ read_digits (acc * 10 + d) rest
unfolding read_digits
read_digits_digit acc d rest small =
    let digit : is_digit (b'0' + d) ≡ true = ground arith in
    let value : acc * 10 + (b'0' + d - b'0') ≡ acc * 10 + d = omega arith in
    rw (digit, read_digits) (rw value refl)

-- Writing `n` in front of `rest` and reading it all is reading on from `n`.
read-write :
    (fuel n : ℕ) (rest : Text)
    → n < fuel
    → (c : ℕ) × (cs : Text) × (write_digits fuel n rest ≡ c ∷ cs)
      × (is_digit c ≡ true)
      × (read_digits 0 (c ∷ cs) ≡ read_digits n rest)
unfolding write_digits
read-write zero n rest h = absurd (omega arith)
read-write (suc fuel) n rest h = elim (Bool-cases (ltb n 10)) [
  | inl one ↦
      let small = ltb→lt _ _ one in
      let same : 0 * 10 + n % 10 ≡ n = omega arith in
      rw one (
        b'0' + n % 10,
        rest,
        refl,
        ground arith,
        rw same at (read_digits_digit 0 (n % 10) rest (omega arith)),
      )
  | inr more ↦
      let big = not_ltb→le _ _ more in
      let same : n / 10 * 10 + n % 10 ≡ n = omega arith in
      let (c, cs, written, digit, value) =
        read-write fuel (n / 10) ((b'0' + n % 10) ∷ rest) (omega arith) in
      rw more (
        c,
        cs,
        written,
        digit,
        value ∙ (rw same at (read_digits_digit (n / 10) (n % 10) rest (omega arith))),
      )
]

read_magnitude-digits :
    (s : Text) (n : ℕ)
    → starts_with_digit s ≡ true
    → read_digits 0 s ≡ n
    → n < 2 ^ 64
    → read_magnitude false s ≡ ok n
unfolding read_magnitude
read_magnitude-digits s n digit value h =
    let small : leb (2 ^ 64) n ≡ false = ground arith in rw (digit, value) (rw small refl)

stoul-digits :
    (c : ℕ) (cs : Text) (n : ℕ)
    → is_digit c ≡ true
    → read_digits 0 (c ∷ cs) ≡ n
    → n < 2 ^ 64
    → stoul (c ∷ cs) ≡ ok n
unfolding stoul read_signed skip_spaces
stoul-digits c cs n digit value h =
    let no_space : is_space c ≡ false = ground arith in
    let no_minus : (c == b'-') ≡ false = ground arith in
    let no_plus : (c == b'+') ≡ false = ground arith in
    rw (no_space, skip_spaces)
      (rw (no_minus, no_plus) (read_magnitude-digits (c ∷ cs) n digit value h))

read_none : (n : ℕ) → read_digits n [] ≡ n
unfolding read_digits
read_none n = refl

-- Every number below 2^64 is read back as it was written.
pub stoul-to_string : (n : ℕ) → n < 2 ^ 64 → stoul (to_string n) ≡ ok n
unfolding to_string
stoul-to_string n h =
    let (c, cs, written, digit, value) = read-write (suc n) n [] (omega arith) in
    rw written (stoul-digits c cs n digit (value ∙ read_none n) h)

read_magnitude-lt :
    (negative : Bool) (s : Text) {n : ℕ} → read_magnitude negative s ≡ ok n → n < 2 ^ 64
unfolding read_magnitude
read_magnitude-lt negative s h = ground arith

read_signed-lt : (s : Text) {n : ℕ} → read_signed s ≡ ok n → n < 2 ^ 64
unfolding read_signed
read_signed-lt [] h = cc
read_signed-lt (c ∷ cs) h =
    ground (
      arith,
      read_magnitude-lt true cs,
      read_magnitude-lt false cs,
      read_magnitude-lt false (c ∷ cs),
    )

-- What is read fits in an unsigned long.
pub stoul-lt : (s : Text) {n : ℕ} → stoul s ≡ ok n → n < 2 ^ 64
unfolding stoul
stoul-lt s h = read_signed-lt (skip_spaces s) h
