-- ===== src/Tests/Settings.antt =====
-- A configuration from the environment, over a file that cannot be opened or says otherwise:
-- static_config.hpp.
use fast_net.Base.{ℕ, ◌≡◌, refl, none, some, arith}
use fast_net.Base.Result.{ok}
use fast_net.Config.Strings.{
  Text, codes, same_text, lines_of, find, find_first_not_of, find_last_not_of,
}
use fast_net.Config.Number.{stoul}
use fast_net.Config.{Config, default_config, in_port_t, Environment, load_config, level_of}
use fast_net.Config.Loading.{IsConfig, load_config-IsConfig, load_config_env}

abbrev no_variables : Environment
no_variables key = none

default-IsConfig : IsConfig default_config
default-IsConfig = record {
  port_pos = omega arith;
  port_lt = omega arith;
  num_requests_pos = omega arith;
  num_requests_lt = omega arith;
  page_count_lt = omega arith;
  client_threads_lt = omega arith;
}

-- Every number is 70000, which a port cuts to 4464.
abbrev large : Environment
large key = some (codes "70000")

abbrev loaded : Config
loaded = record {
  host = codes "70000";
  port = 4464;
  num_requests = 70000;
  logging_level = codes "70000";
  page_count = 70000;
  client_threads = 70000;
  level = level_of (codes "70000");
}

abbrev file : Text
file = codes "PORT = 80\n# none\n HOST=here "

loads : ok loaded ≡ load_config (some file) large default_config
unfolding load_config lines_of find same_text find_first_not_of find_last_not_of stoul
loads = refl

load_config-IsConfig_example : IsConfig loaded
load_config-IsConfig_example = load_config-IsConfig (some file) large default_config loaded loads

load_config_env_example :
    (n : ℕ) × (stoul (codes "70000") ≡ ok n)
    × (4464 ≡ in_port_t n)
    × (stoul (codes "70000") ≡ ok 70000)
    × (stoul (codes "70000") ≡ ok 70000)
    × (stoul (codes "70000") ≡ ok 70000)
load_config_env_example =
    load_config_env (some file) large default_config loaded (codes "70000") (codes "70000")
      (codes "70000") (codes "70000") loads refl refl refl refl
