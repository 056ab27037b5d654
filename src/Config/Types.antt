-- ===== src/Config/Types.antt =====
-- internal/config/config.go: the records of the configuration and their defaults. A duration is the
-- integer of its nanoseconds; the defaults are over the floats that the literals stand for.
use cmt_top.Base.{Bool, true, false, String, List, [], ◌∷◌}
use cmt_top.Base.Int.{ℤ, pos}
use cmt_top.State.Types.{Float64}

pub record Rpc : Type 0 where
  pub url : String
  pub primary : Bool

pub record Chain : Type 0 where
  pub name : String
  pub bech32_prefix : String
  pub rpcs : List Rpc
  pub lcd : String
  pub monitored_rpcs : List String
  pub explorer_url : String

pub record Refresh : Type 0 where
  pub validators : ℤ
  pub upgrade_plan : ℤ
  pub status : ℤ
  pub block_time : ℤ
  pub consensus : ℤ

pub record Divergence : Type 0 where
  pub threshold_pct : Float64
  pub history_size : ℤ
  pub include_prevotes : Bool

pub record Tui : Type 0 where
  pub timezone : String
  pub disable_emojis : Bool

pub record Web : Type 0 where
  pub listen : String
  pub token : String
  pub cors_origin : String
  pub disabled : Bool
  pub max_clients : ℤ
  pub api_rate_limit : ℤ
  pub trusted_proxies : List String

pub record Ui : Type 0 where
  pub mode : String
  pub tui : Tui
  pub web : Web

pub record Obs : Type 0 where
  pub metrics_listen : String
  pub log_level : String
  pub log_format : String

pub record Config : Type 0 where
  pub chain : Chain
  pub refresh : Refresh
  pub divergence : Divergence
  pub ui : Ui
  pub obs : Obs

unfoldable pub defaults : Float64 → Config
defaults five = record {
  chain = record {
    name = "";
    bech32_prefix = "inj";
    rpcs =
        record { url = "https://tm.injective.network"; primary = true }
        ∷ record { url = "https://injective-rpc.publicnode.com:443"; primary = false }
        ∷ [];
    lcd = "https://lcd.injective.network";
    monitored_rpcs = [];
    explorer_url = "https://explorer.injective.network/validator/{address}";
  };
  refresh = record {
    validators = pos 30000000000;
    upgrade_plan = pos 300000000000;
    status = pos 5000000000;
    block_time = pos 30000000000;
    consensus = pos 1000000000;
  };
  divergence = record { threshold_pct = five; history_size = pos 32; include_prevotes = false };
  ui = record {
    mode = "tui";
    tui = record { timezone = "UTC"; disable_emojis = false };
    web = record {
      listen = "127.0.0.1:8080";
      token = "";
      cors_origin = "";
      disabled = false;
      max_clients = pos 256;
      api_rate_limit = pos 600;
      trusted_proxies = [];
    };
  };
  obs = record { metrics_listen = "127.0.0.1:9091"; log_level = "info"; log_format = "text" };
}

-- The first primary endpoint, or the first.
unfoldable pub first_primary : String → List Rpc → String
first_primary otherwise [] = otherwise
first_primary otherwise (r ∷ rs) = elim r.primary [
  | true ↦ r.url
  | false ↦ first_primary otherwise rs
]

abbrev pub first_url : List Rpc → String
first_url [] = ""
first_url (r ∷ _) = r.url

unfoldable pub primary_rpc : Config → String
primary_rpc c = first_primary (first_url c.chain.rpcs) c.chain.rpcs
