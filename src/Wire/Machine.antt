-- ===== src/Wire/Machine.antt =====
-- What the messages need of the machine: how it stores a uint32_t, and htonl and ntohl of the
-- system's library, which get_page.hpp calls and does not define.
use fast_net.Base.{ℕ, ◌+◌, ◌*◌, ◌/◌, ◌%◌, ◌^◌, ◌<◌, ◌≡◌, refl, List, [], ◌∷◌, arith, length}

pub record Host : Type 0 where
  pub store : ℕ → List ℕ
  pub load : List ℕ → ℕ
  pub htonl : ℕ → ℕ
  pub ntohl : ℕ → ℕ

-- Network byte order: the most significant byte first.
abbrev pub big_endian : ℕ → List ℕ
big_endian x = x / 2 ^ 24 % 256 ∷ x / 2 ^ 16 % 256 ∷ x / 2 ^ 8 % 256 ∷ x % 256 ∷ []

abbrev pub little_endian : ℕ → List ℕ
little_endian x = x % 256 ∷ x / 2 ^ 8 % 256 ∷ x / 2 ^ 16 % 256 ∷ x / 2 ^ 24 % 256 ∷ []

-- The documented behaviour: a word is four bytes that are read back, `htonl` lays a word out in
-- network byte order, and `ntohl` reads it from there.
pub record IsHost (h : Host) : Type 0 where
  pub length-store : (x : ℕ) → length (h.store x) ≡ 4
  pub load-store : (x : ℕ) → x < 2 ^ 32 → h.load (h.store x) ≡ x
  pub htonl-lt : (x : ℕ) → x < 2 ^ 32 → h.htonl x < 2 ^ 32
  pub store-htonl : (x : ℕ) → x < 2 ^ 32 → h.store (h.htonl x) ≡ big_endian x
  pub ntohl-load : (x : ℕ) → x < 2 ^ 32 → h.ntohl (h.load (big_endian x)) ≡ x

-- The value of four bytes, the most significant first.
abbrev word : ℕ → ℕ → ℕ → ℕ → ℕ
word a b c d = a * 2 ^ 24 + b * 2 ^ 16 + c * 2 ^ 8 + d

abbrev load_big : List ℕ → ℕ
load_big (a ∷ b ∷ c ∷ d ∷ _) = word a b c d
load_big _ = 0

abbrev load_little : List ℕ → ℕ
load_little (a ∷ b ∷ c ∷ d ∷ _) = word d c b a
load_little _ = 0

abbrev byte_swap : ℕ → ℕ
byte_swap x = word (x % 256) (x / 2 ^ 8 % 256) (x / 2 ^ 16 % 256) (x / 2 ^ 24 % 256)

-- Two machines that behave so.
abbrev pub big_host : Host
big_host = record { store = big_endian; load = load_big; htonl = λ x. x; ntohl = λ x. x }

abbrev pub little_host : Host
little_host = record {
  store = little_endian;
  load = load_little;
  htonl = byte_swap;
  ntohl = byte_swap;
}

load_big-big_endian : (x : ℕ) → x < 2 ^ 32 → load_big (big_endian x) ≡ x
load_big-big_endian x h = omega arith

pub big_host-IsHost : IsHost big_host
big_host-IsHost = record {
  length-store = λ x. refl;
  load-store = load_big-big_endian;
  htonl-lt = λ x h. h;
  store-htonl = λ x h. refl;
  ntohl-load = load_big-big_endian;
}

little_endian-word :
    (a b c d : ℕ)
    → a < 256
    → b < 256
    → c < 256
    → d < 256
    → little_endian (word a b c d) ≡ d ∷ c ∷ b ∷ a ∷ []
little_endian-word a b c d ha hb hc hd = cc (digit₀, digit₁, digit₂, digit₃)
  where
    digit₀ : word a b c d % 256 ≡ d
    digit₀ = omega arith

    digit₁ : word a b c d / 2 ^ 8 % 256 ≡ c
    digit₁ = omega arith

    digit₂ : word a b c d / 2 ^ 16 % 256 ≡ b
    digit₂ = omega arith

    digit₃ : word a b c d / 2 ^ 24 % 256 ≡ a
    digit₃ = omega arith

swap_bytes : (x : ℕ) → x < 2 ^ 32 → little_endian (byte_swap x) ≡ big_endian x
swap_bytes x h =
    little_endian-word (x % 256) (x / 2 ^ 8 % 256) (x / 2 ^ 16 % 256) (x / 2 ^ 24 % 256)
      (omega arith) (omega arith) (omega arith) (omega arith)

pub little_host-IsHost : IsHost little_host
little_host-IsHost = record {
  length-store = λ x. refl;
  load-store = λ x h. omega arith;
  htonl-lt = λ x h. omega arith;
  store-htonl = swap_bytes;
  ntohl-load = λ x h. omega arith;
}
