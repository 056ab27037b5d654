-- ===== src/Config/Validate.antt =====
-- internal/config/config.go: what `Validate` refuses. The parsers of `net/netip`, `net/url` and `net`
-- are parameters, and so are the comparisons of floats. The loop over the intervals is over a map:
-- `order` is the order it takes.
use cmt_top.Base.{
  Bool, false, not, ◌&&◌, ◌||◌, String, List, [], ◌∷◌, ◌++◌, Option, none, some, ◌==◌, String_eq,
  if◌then◌else◌,
}
use cmt_top.Base.Int.{ℤ, pos, ltb, leb}
use cmt_top.State.Types.{Float64}
use cmt_top.Config.Text.{lowers_to, replace_from}
use cmt_top.Config.Types.{Refresh, Config, primary_rpc}

-- What is read of a parsed URL.
pub record Url : Type 0 where
  pub scheme : String
  pub host : String

pub record Parsers : Type 0 where
  pub parse_prefix : String → Bool
  pub parse_url : String → Option Url
  pub split_host_port : String → Bool
  pub is_nan : Float64 → Bool
  pub is_inf : Float64 → Bool
  pub below_zero : Float64 → Bool
  pub above_hundred : Float64 → Bool

pub data Fault : Type 0 where
  max_clients_fault api_rate_limit_fault no_rpc_fault threshold_fault history_size_fault
        disabled_web_fault web_listen_fault metrics_listen_fault :
      Fault
  trusted_proxy_fault mode_fault interval_fault endpoint_fault : String → Fault

-- The intervals of a configuration, by their names.
pub data Interval : Type 0 where
  validators_interval upgrade_plan_interval status_interval block_time_interval consensus_interval :
      Interval

abbrev pub interval_name : Interval → String
interval_name validators_interval = "validators"
interval_name upgrade_plan_interval = "upgrade_plan"
interval_name status_interval = "status"
interval_name block_time_interval = "block_time"
interval_name consensus_interval = "consensus"

abbrev pub interval_of : Refresh → Interval → ℤ
interval_of r validators_interval = r.validators
interval_of r upgrade_plan_interval = r.upgrade_plan
interval_of r status_interval = r.status
interval_of r block_time_interval = r.block_time
interval_of r consensus_interval = r.consensus

-- The first thing that is wrong.
abbrev pub require : Bool → Fault → Option Fault
require b fault = if b then none else some fault

infixr 60 ◌orelse◌
abbrev pub ◌orelse◌ : Option Fault → Option Fault → Option Fault
none orelse b = b
some fault orelse b = some fault

unfoldable pub first_fault : List (Option Fault) → Option Fault
first_fault [] = none
first_fault (found ∷ more) = found orelse first_fault more

unfoldable pub each {ℓ} : {A : Type ℓ} → (A → Option Fault) → List A → Option Fault
each check [] = none
each check (x ∷ xs) = check x orelse each check xs

module _ (ps : Parsers) where
  abbrev pub is_http : Option Url → Bool
  is_http none = false
  is_http (some u) = not (u.host == "") && (u.scheme == "http" || u.scheme == "https")

  abbrev pub validate_url : String → Option Fault
  validate_url endpoint = require (is_http (ps.parse_url endpoint)) (endpoint_fault endpoint)

  abbrev pub is_mode : String → Bool
  is_mode mode =
      lowers_to "tui" mode
      || lowers_to "web" mode
      || lowers_to "both" mode
      || lowers_to "headless" mode

  abbrev pub is_percentage : Float64 → Bool
  is_percentage x = not (ps.is_nan x || ps.is_inf x || ps.below_zero x || ps.above_hundred x)

  unfoldable pub validate : List Interval → Config → Option Fault
  validate order c = first_fault (
      require (ltb (pos 0) c.ui.web.max_clients) max_clients_fault
      ∷ require (ltb (pos 0) c.ui.web.api_rate_limit) api_rate_limit_fault
      ∷ each (λ cidr. require (ps.parse_prefix cidr) (trusted_proxy_fault cidr))
          c.ui.web.trusted_proxies
      ∷ require (not (primary_rpc c == "")) no_rpc_fault
      ∷ require (is_mode c.ui.mode) (mode_fault c.ui.mode)
      ∷ require (is_percentage c.divergence.threshold_pct) threshold_fault
      ∷ each
          (λ i. require (ltb (pos 0) (interval_of c.refresh i)) (interval_fault (interval_name i)))
          order
      ∷ require (leb (pos 1) c.divergence.history_size) history_size_fault
      ∷ require (not (c.ui.web.disabled && lowers_to "web" c.ui.mode)) disabled_web_fault
      ∷ each validate_url (c.chain.monitored_rpcs ++ primary_rpc c ∷ [])
      ∷ each (λ r. validate_url r.url) c.chain.rpcs
      ∷ (if c.chain.lcd == "" then none else validate_url c.chain.lcd)
      ∷ (if c.chain.explorer_url == ""
          then none
          else validate_url (replace_from "{address}" "validator" 0 c.chain.explorer_url))
      ∷ require (c.ui.web.listen == "" || ps.split_host_port c.ui.web.listen) web_listen_fault
      ∷ require (c.obs.metrics_listen == "" || ps.split_host_port c.obs.metrics_listen)
          metrics_listen_fault
      ∷ [])
