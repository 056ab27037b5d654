-- ===== src/Config/Tests.antt =====
-- The configuration of internal/config at concrete inputs: its defaults, and an environment.
use cmt_top.Base.{
  ◌≡◌, ◌↔◌, refl, inl, inr, true, false, String, List, [], ◌∷◌, Option, none, some, ◌==◌, String_eq,
  if◌then◌else◌,
}
use cmt_top.Base.{ltb as nat_ltb}
use cmt_top.Base.Int.{ℤ, pos}
use cmt_top.Config.Types.{defaults}
use cmt_top.Config.Text.{
  split_csv, split_commas, keep_parts, trim_space, trim_left, trim_right, is_space,
}
use cmt_top.Config.Env.{apply_env}
use cmt_top.Config.Overrides.{one_way, IsApplied, apply_env-IsApplied}
use cmt_top.Config.Validate.{
  Parsers, Interval, validators_interval, upgrade_plan_interval, status_interval,
  block_time_interval, consensus_interval, validate,
}
use cmt_top.Config.Validity.{Has}
use cmt_top.Config.Consistent.{IsConsistent, validate_iff}

abbrev lenient : Parsers
lenient = record {
  parse_prefix = λ cidr. true;
  parse_url = λ url. some (record { scheme = "https"; host = url });
  split_host_port = λ address. true;
  is_nan = λ x. false;
  is_inf = λ x. false;
  below_zero = λ x. false;
  above_hundred = λ x. nat_ltb 100 x;
}

abbrev every_interval : List Interval
every_interval =
    consensus_interval ∷ validators_interval ∷ status_interval ∷ upgrade_plan_interval
    ∷ block_time_interval ∷ []

every_interval-Has : (i : Interval) → Has i every_interval
unfolding Has
every_interval-Has validators_interval = inr (inl refl)
every_interval-Has upgrade_plan_interval = inr (inr (inr (inl refl)))
every_interval-Has status_interval = inr (inr (inl refl))
every_interval-Has block_time_interval = inr (inr (inr (inr (inl refl))))
every_interval-Has consensus_interval = inl refl

validate_iff_example :
    (validate lenient every_interval (defaults 5) ≡ none) ↔ IsConsistent lenient (defaults 5)
validate_iff_example = validate_iff lenient (defaults 5) every_interval every_interval-Has

parts_of_list : split_csv " 10.0.0.0/8, ,fc00::/7" ≡ "10.0.0.0/8" ∷ "fc00::/7" ∷ []
unfolding split_csv split_commas keep_parts trim_space trim_left trim_right is_space
parts_of_list = refl

abbrev clients_only : String → String
clients_only name =
    if name == "CMTOP_WEB_MAX_CLIENTS" then "9" else if name == "CMTOP_MODE" then "web" else ""

abbrev nine : String → Option ℤ
nine s = some (pos 9)

apply_env-IsApplied_example :
    IsApplied clients_only nine (defaults 5) (apply_env clients_only nine one_way (defaults 5))
apply_env-IsApplied_example = apply_env-IsApplied clients_only nine one_way (defaults 5) (inl refl)
