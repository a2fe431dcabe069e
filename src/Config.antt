-- ===== src/Config.antt =====
-- static_config.hpp: the configuration, from a file of lines and from the environment. What
-- std::ifstream finds at the path and what std::getenv gives are arguments; spdlog's level is a
-- field.
pub mod Strings
pub mod Number
pub mod Loading
pub mod Parsing
use fast_net.Base.{
  ℕ, ◌+◌, ◌-◌, ◌%◌, ◌^◌, Bool, true, false, ◌||◌, List, [], ◌∷◌, Option, none, some, ◌==◌,
  if◌then◌else◌, drop,
}
use fast_net.Base.Result.{Result, ok, throw, runtime_error, ◌>>=◌}
use Strings.{Text, codes, same_text, find, find_first_not_of, find_last_not_of, substr, lines_of}
use Number.{stoul, to_string}

pub data Level : Type 0 where
  debug info warn err critical off : Level

pub record Config : Type 0 where
  pub host : Text
  pub port : ℕ
  pub num_requests : ℕ
  pub logging_level : Text
  pub page_count : ℕ
  pub client_threads : ℕ
  pub level : Level

-- The initial values of the static members.
abbrev pub default_config : Config
default_config = record {
  host = codes "localhost";
  port = 8888;
  num_requests = 10;
  logging_level = codes "DEBUG";
  page_count = 1024;
  client_threads = 4;
  level = info;
}

-- A size_t that holds npos makes the length wrap.
unfoldable pub trim : Text → Text
trim str = elim (find_first_not_of b' ' str) [
  | none ↦ []
  | some first ↦ elim (find_last_not_of b' ' str) [
    | none ↦ substr first (2 ^ 64 - first) str
    | some last ↦ substr first (last - first + 1) str
  ]
]

-- in_port_t has 16 bits.
abbrev pub in_port_t : ℕ → ℕ
in_port_t n = n % 2 ^ 16

-- The chain of tests on the key.
unfoldable pub set_key : Text → Text → Config → Result Config
set_key key value c =
    if same_text key (codes "HOST")
    then ok (record c { host = value })
    else if same_text key (codes "PORT")
    then (stoul value >>= λ n. ok (record c { port = in_port_t n }))
    else if same_text key (codes "NUM_REQUESTS")
    then (stoul value >>= λ n. ok (record c { num_requests = n }))
    else if same_text key (codes "LOGGING_LEVEL")
    then ok (record c { logging_level = value })
    else if same_text key (codes "PAGE_COUNT")
    then (stoul value >>= λ n. ok (record c { page_count = n }))
    else if same_text key (codes "CLIENT_THREADS")
    then (stoul value >>= λ n. ok (record c { client_threads = n }))
    else ok c

unfoldable pub parse_env_line : Text → Config → Result Config
unfolding trim set_key
parse_env_line line c = elim (find b'=' line) [
  | none ↦ ok c
  | some delimiter_pos ↦
      set_key (trim (substr 0 delimiter_pos line)) (trim (drop (delimiter_pos + 1) line)) c
]

unfoldable pub parse_lines : List Text → Config → Result Config
unfolding parse_env_line
parse_lines [] c = ok c
parse_lines (line ∷ lines) c = parse_env_line line c >>= parse_lines lines

-- A file that cannot be opened changes nothing.
unfoldable pub parse_file : Option Text → Config → Result Config
unfolding parse_lines
parse_file none c = ok c
parse_file (some contents) c = parse_lines (lines_of contents) c

abbrev pub Environment : Type 0
Environment = Text → Option Text

unfoldable pub get_env_var : Environment → Text → Text → Text
get_env_var getenv key default_value = elim (getenv key) [
  | none ↦ default_value
  | some value ↦ value
]

abbrev pub env_number : Environment → Text → ℕ → Result ℕ
env_number getenv key n = stoul (get_env_var getenv key (to_string n))

unfoldable pub read_env : Environment → Config → Result Config
unfolding get_env_var
read_env getenv c = env_number getenv (codes "PORT") c.port >>= λ port.
    env_number getenv (codes "NUM_REQUESTS") c.num_requests >>= λ num_requests.
    env_number getenv (codes "PAGE_COUNT") c.page_count >>= λ page_count.
    env_number getenv (codes "CLIENT_THREADS") c.client_threads >>= λ client_threads. ok (record {
      host = get_env_var getenv (codes "HOST") c.host;
      port = in_port_t port;
      num_requests = num_requests;
      logging_level = get_env_var getenv (codes "LOGGING_LEVEL") c.logging_level;
      page_count = page_count;
      client_threads = client_threads;
      level = c.level;
    })

unfoldable pub level_of : Text → Level
level_of name =
    if same_text name (codes "DEBUG")
    then debug
    else if same_text name (codes "INFO")
    then info
    else if same_text name (codes "WARN")
    then warn
    else if same_text name (codes "ERROR")
    then err
    else if same_text name (codes "CRITICAL")
    then critical
    else if same_text name (codes "OFF")
    then off
    else info

abbrev pub set_logging_level : Config → Config
set_logging_level c = record c { level = level_of c.logging_level }

unfoldable pub validate : Config → Result Config
validate c = if c.port == 0 || c.num_requests == 0 then throw runtime_error else ok c

unfoldable pub load_config : Option Text → Environment → Config → Result Config
unfolding parse_file read_env validate
load_config env_file getenv c = parse_file env_file c >>= λ from_file.
    read_env getenv from_file >>= λ from_env. validate (set_logging_level from_env)
