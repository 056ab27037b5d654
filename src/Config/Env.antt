-- ===== src/Config/Env.antt =====
-- internal/config/config.go: what the environment overrides. The environment is the function
-- `os.Getenv`, `atoi` is `strconv.Atoi`. The loop over the two numbers is over a map, in either order.
use cmt_top.Base.{true, String, List, [], ◌∷◌, Option, none, some, ◌==◌, String_eq, if◌then◌else◌}
use cmt_top.Base.Int.{ℤ, pos, leb}
use cmt_top.Config.Text.{split_csv}
use cmt_top.Config.Types.{Rpc, Web, Config}

pub data Setting : Type 0 where
  max_clients_setting api_rate_limit_setting : Setting

abbrev pub variable_of : Setting → String
variable_of max_clients_setting = "CMTOP_WEB_MAX_CLIENTS"
variable_of api_rate_limit_setting = "CMTOP_WEB_API_RATE_LIMIT"

abbrev pub with_web : (Web → Web) → Config → Config
with_web f c = record c { ui = record (c.ui) { web = f c.ui.web } }

unfoldable pub set_number : Setting → ℤ → Config → Config
set_number max_clients_setting n = with_web (λ w. record w { max_clients = n })
set_number api_rate_limit_setting n = with_web (λ w. record w { api_rate_limit = n })

module _ (getenv : String → String) where
  -- A text and a list of texts, with what the environment has in their place, where it is set.
  abbrev pub text_or : String → String → String
  text_or name old = if getenv name == "" then old else getenv name

  abbrev pub list_or : String → List String → List String
  list_or name old = if getenv name == "" then old else split_csv (getenv name)

  abbrev pub rpcs_or : List Rpc → List Rpc
  rpcs_or old =
      if getenv "CMTOP_RPC" == ""
      then old
      else record { url = getenv "CMTOP_RPC"; primary = true } ∷ []

  -- Each assignment is to a field of its own.
  unfoldable pub apply_texts : Config → Config
  apply_texts c = record c {
    chain = record (c.chain) {
      rpcs = rpcs_or c.chain.rpcs;
      bech32_prefix = text_or "CMTOP_BECH32_PREFIX" c.chain.bech32_prefix;
      lcd = text_or "CMTOP_LCD" c.chain.lcd;
      monitored_rpcs = list_or "CMTOP_MONITORED_RPCS" c.chain.monitored_rpcs;
    };
    ui = record (c.ui) {
      mode = text_or "CMTOP_MODE" c.ui.mode;
      web = record (c.ui.web) {
        trusted_proxies = list_or "CMTOP_WEB_TRUSTED_PROXIES" c.ui.web.trusted_proxies;
        listen = text_or "CMTOP_WEB_LISTEN" c.ui.web.listen;
        token = text_or "CMTOP_WEB_TOKEN" c.ui.web.token;
      };
    };
    obs = record (c.obs) {
      log_level = text_or "CMTOP_LOG_LEVEL" c.obs.log_level;
      metrics_listen = text_or "CMTOP_METRICS_LISTEN" c.obs.metrics_listen;
    };
  }

module _ (getenv : String → String) (atoi : String → Option ℤ) where
  -- A number of the environment: not set, set wrongly, or the number.
  unfoldable pub number_of : Setting → Option (Option ℤ)
  number_of s =
      if getenv (variable_of s) == "" then some none else elim (atoi (getenv (variable_of s))) [
        | none ↦ none
        | some n ↦ if leb n (pos 0) then none else some (some n)
      ]

  -- The loop over the numbers, up to the first that is wrong: the configuration as it then is, and
  -- the variable at fault.
  unfoldable pub apply_numbers : List Setting → Config → Config × Option String
  apply_numbers [] c = (c, none)
  apply_numbers (s ∷ ss) c = elim (number_of s) [
    | none ↦ (c, some (variable_of s))
    | some none ↦ apply_numbers ss c
    | some (some n) ↦ apply_numbers ss (set_number s n c)
  ]

  unfoldable pub apply_env : List Setting → Config → Config × Option String
  apply_env order c =
      let numbers = apply_numbers order c in
      elim numbers.1 [ some name ↦ numbers | none ↦ (apply_texts getenv numbers.0, none) ]
