-- ===== src/Config/Loading.antt =====
-- What a configuration that was loaded promises, and where its values come from.
use fast_net.Base.{
  ℕ, ◌^◌, ◌<◌, ◌≡◌, refl, sym, ap, ◌∙◌, inl, inr, false, ◌||◌, Option, none, some, ◌==◌, arith,
  Bool-cases,
}
use fast_net.Base.Result.{Result, ok, ◌>>=◌, ok->>=}
use fast_net.Config.Strings.{Text, codes}
use fast_net.Config.Number.{stoul, stoul-to_string, stoul-lt}
use fast_net.Config.{
  Config, in_port_t, parse_file, Environment, get_env_var, env_number, read_env, set_logging_level,
  validate, load_config,
}

-- The values fit in their types, and the two that are tested are not zero.
pub record IsConfig (c : Config) : Type 0 where
  pub port_pos : 0 < c.port
  pub port_lt : c.port < 2 ^ 16
  pub num_requests_pos : 0 < c.num_requests
  pub num_requests_lt : c.num_requests < 2 ^ 64
  pub page_count_lt : c.page_count < 2 ^ 64
  pub client_threads_lt : c.client_threads < 2 ^ 64

-- The values that `read_env` gave came out of `stoul`.
record FromEnv (getenv : Environment) (c d : Config) : Type 0 where
  port : ℕ
  port_ok : env_number getenv (codes "PORT") c.port ≡ ok port
  port_cut : d.port ≡ in_port_t port
  num_requests_ok : env_number getenv (codes "NUM_REQUESTS") c.num_requests ≡ ok d.num_requests
  page_count_ok : env_number getenv (codes "PAGE_COUNT") c.page_count ≡ ok d.page_count
  client_threads_ok :
      env_number getenv (codes "CLIENT_THREADS") c.client_threads ≡ ok d.client_threads
  host_ok : d.host ≡ get_env_var getenv (codes "HOST") c.host
  logging_level_ok : d.logging_level ≡ get_env_var getenv (codes "LOGGING_LEVEL") c.logging_level

ok_eq {ℓ} : {A : Type ℓ} {x y : A} → ok x ≡ ok y → x ≡ y
ok_eq e = cc

read_env-FromEnv :
    (getenv : Environment) (c d : Config) → ok d ≡ read_env getenv c → FromEnv getenv c d
unfolding read_env
read_env-FromEnv getenv c d e =
    let (port, e₁, r₁) = ok->>= _ _ e in
    let (num_requests, e₂, r₂) = ok->>= _ _ r₁ in
    let (page_count, e₃, r₃) = ok->>= _ _ r₂ in
    let (client_threads, e₄, r₄) = ok->>= _ _ r₃ in
    let same = ok_eq r₄ in
    record {
      port = port;
      port_ok = sym e₁;
      port_cut = ap (λ (x : Config). x.port) same;
      num_requests_ok = sym (ap (λ (x : Config). ok x.num_requests) same ∙ e₂);
      page_count_ok = sym (ap (λ (x : Config). ok x.page_count) same ∙ e₃);
      client_threads_ok = sym (ap (λ (x : Config). ok x.client_threads) same ∙ e₄);
      host_ok = ap (λ (x : Config). x.host) same;
      logging_level_ok = ap (λ (x : Config). x.logging_level) same;
    }

validate_ok : (c d : Config) → ok d ≡ validate c → (d ≡ c) × (0 < c.port) × (0 < c.num_requests)
unfolding validate
validate_ok c d e = elim (Bool-cases (c.port == 0 || c.num_requests == 0)) [
  | inl refused ↦ cc (rw refused at e)
  | inr accepted ↦ (ok_eq (rw accepted at e), ground (arith, accepted), ground (arith, accepted))
]

-- How a configuration was loaded.
record Loaded (env_file : Option Text) (getenv : Environment) (c d : Config) : Type 0 where
  from_file : Config
  from_env : Config
  parsed : ok from_file ≡ parse_file env_file c
  read : FromEnv getenv from_file from_env
  level_set : d ≡ set_logging_level from_env
  port_pos : 0 < from_env.port
  num_requests_pos : 0 < from_env.num_requests

load_config-Loaded :
    (env_file : Option Text) (getenv : Environment) (c d : Config)
    → ok d ≡ load_config env_file getenv c
    → Loaded env_file getenv c d
unfolding load_config
load_config-Loaded env_file getenv c d e =
    let finish : Config → Result Config = λ x. validate (set_logging_level x) in
    let (from_file, parsed, r₁) =
      ok->>= (λ x. read_env getenv x >>= finish) (parse_file env_file c) e in
    let (from_env, read, r₂) = ok->>= finish (read_env getenv from_file) r₁ in
    let (same, port_pos, num_requests_pos) = validate_ok (set_logging_level from_env) d r₂ in
    record {
      from_file = from_file;
      from_env = from_env;
      parsed = parsed;
      read = read_env-FromEnv getenv from_file from_env read;
      level_set = same;
      port_pos = port_pos;
      num_requests_pos = num_requests_pos;
    }

-- A configuration that is loaded, whatever the file and the environment say, has a port from 1 to
-- 65535, a number of requests that is not zero, and numbers that fit in a size_t.
pub load_config-IsConfig :
    (env_file : Option Text) (getenv : Environment) (c d : Config)
    → ok d ≡ load_config env_file getenv c
    → IsConfig d
load_config-IsConfig env_file getenv c d e =
    let l = load_config-Loaded env_file getenv c d e in
    let cut = l.read.port_cut in
    rw l.level_set (record {
      port_pos = l.port_pos;
      port_lt = omega arith;
      num_requests_pos = l.num_requests_pos;
      num_requests_lt = stoul-lt _ l.read.num_requests_ok;
      page_count_lt = stoul-lt _ l.read.page_count_ok;
      client_threads_lt = stoul-lt _ l.read.client_threads_ok;
    })

env_number-some :
    (getenv : Environment) (key value : Text) (n m : ℕ)
    → getenv key ≡ some value
    → env_number getenv key n ≡ ok m
    → stoul value ≡ ok m
unfolding get_env_var
env_number-some getenv key value n m set e = rw (set, get_env_var) at e

-- Of a configuration that is loaded where the environment has a value for each of the four
-- numbers, each is what std::stoul reads there, the port by its low 16 bits, whatever the file
-- says.
pub load_config_env :
    (env_file : Option Text) (getenv : Environment) (c d : Config)
    (port num_requests page_count client_threads : Text)
    → ok d ≡ load_config env_file getenv c
    → getenv (codes "PORT") ≡ some port
    → getenv (codes "NUM_REQUESTS") ≡ some num_requests
    → getenv (codes "PAGE_COUNT") ≡ some page_count
    → getenv (codes "CLIENT_THREADS") ≡ some client_threads
    → (n : ℕ) × (stoul port ≡ ok n)
      × (d.port ≡ in_port_t n)
      × (stoul num_requests ≡ ok d.num_requests)
      × (stoul page_count ≡ ok d.page_count)
      × (stoul client_threads ≡ ok d.client_threads)
load_config_env env_file getenv c d port num_requests page_count client_threads e p₁ p₂ p₃ p₄ =
    let l = load_config-Loaded env_file getenv c d e in
    let v = l.read in
    rw l.level_set (
      v.port,
      env_number-some getenv (codes "PORT") port _ _ p₁ v.port_ok,
      v.port_cut,
      env_number-some getenv (codes "NUM_REQUESTS") num_requests _ _ p₂ v.num_requests_ok,
      env_number-some getenv (codes "PAGE_COUNT") page_count _ _ p₃ v.page_count_ok,
      env_number-some getenv (codes "CLIENT_THREADS") client_threads _ _ p₄ v.client_threads_ok,
    )

env_number-none :
    (getenv : Environment) (key : Text) (n : ℕ)
    → getenv key ≡ none
    → n < 2 ^ 64
    → env_number getenv key n ≡ ok n
unfolding get_env_var
env_number-none getenv key n unset h = rw (unset, get_env_var) (stoul-to_string n h)

get_env_var-none :
    (getenv : Environment) (key default_value : Text)
    → getenv key ≡ none
    → get_env_var getenv key default_value ≡ default_value
unfolding get_env_var
get_env_var-none getenv key default_value unset = rw (unset, get_env_var) refl

read_env_alone :
    (getenv : Environment) (c : Config)
    → ((key : Text) → getenv key ≡ none)
    → IsConfig c
    → read_env getenv c ≡ ok c
unfolding read_env
read_env_alone getenv c unset v =
    let whole : in_port_t c.port ≡ c.port = omega arith in
    rw
      (
        env_number-none getenv (codes "PORT") c.port (unset _) (omega arith),
        env_number-none getenv (codes "NUM_REQUESTS") c.num_requests (unset _) (omega arith),
        env_number-none getenv (codes "PAGE_COUNT") c.page_count (unset _) (omega arith),
        env_number-none getenv (codes "CLIENT_THREADS") c.client_threads (unset _) (omega arith),
        get_env_var-none getenv (codes "HOST") c.host (unset _),
        get_env_var-none getenv (codes "LOGGING_LEVEL") c.logging_level (unset _),
        whole,
      )
      refl

-- With neither a file nor a variable of the environment, a configuration whose values are in order
-- is loaded as it is; only the level is set by its name.
pub load_config_alone :
    (getenv : Environment) (c : Config)
    → ((key : Text) → getenv key ≡ none)
    → IsConfig c
    → load_config none getenv c ≡ ok (set_logging_level c)
unfolding load_config parse_file validate
load_config_alone getenv c unset v =
    let accepted : (c.port == 0 || c.num_requests == 0) ≡ false = ground arith in
    rw (read_env_alone getenv c unset v, accepted) refl
