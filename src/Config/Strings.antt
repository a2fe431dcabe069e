-- ===== src/Config/Strings.antt =====
-- Text as the list of its bytes, with what static_config.hpp uses of std::string: find, substr,
-- getline, std::stoul and std::to_string.
use Prim.Native.Char.{code}
use Prim.Native.String.{String}
use fast_net.Base.{
  ℕ, suc, Bool, true, false, ◌&&◌, List, [], ◌∷◌, Option, none, some, ◌==◌, if◌then◌else◌, take,
  drop,
}

abbrev pub Text : Type 0
Text = List ℕ

-- The bytes of an ASCII literal.
abbrev pub codes : String → Text
codes String.[] = []
codes (String.◌∷◌ c s) = code c ∷ codes s

-- operator== on texts.
unfoldable pub same_text : Text → Text → Bool
same_text [] [] = true
same_text [] (b ∷ bs) = false
same_text (a ∷ as') [] = false
same_text (a ∷ as') (b ∷ bs) = a == b && same_text as' bs

abbrev shift : Option ℕ → Option ℕ
shift none = none
shift (some i) = some (suc i)

-- str.find(c), str.find_first_not_of(c), str.find_last_not_of(c)
unfoldable pub find : ℕ → Text → Option ℕ
find c [] = none
find c (b ∷ bs) = let later = shift (find c bs) in if b == c then some 0 else later

unfoldable pub find_first_not_of : ℕ → Text → Option ℕ
find_first_not_of c [] = none
find_first_not_of c (b ∷ bs) =
    let later = shift (find_first_not_of c bs) in if b == c then later else some 0

unfoldable pub find_last_not_of : ℕ → Text → Option ℕ
find_last_not_of c [] = none
find_last_not_of c (b ∷ bs) = elim (find_last_not_of c bs) [
  | some i ↦ some (suc i)
  | none ↦ if b == c then none else some 0
]

abbrev pub substr : ℕ → ℕ → Text → Text
substr position n s = take n (drop position s)

-- One more byte at the front of the first line.
abbrev extend : ℕ → List Text → List Text
extend b [] = (b ∷ []) ∷ []
extend b (line ∷ rest) = (b ∷ line) ∷ rest

-- What repeated calls of std::getline give: the texts that newlines end, and what is left.
unfoldable pub lines_of : Text → List Text
lines_of [] = []
lines_of (b ∷ bs) = let rest = lines_of bs in if b == b'\n' then [] ∷ rest else extend b rest
