-- ===== src/Divergence/Validators.antt =====
-- internal/divergence/tracker.go: a new tracker, and a new validator set.
use cmt_top.Base.{
  ℕ, Bool, ◌&&◌, false, not, ◌&&◌, String, List, [], ◌∷◌, ◌++◌, none, some, ◌==◌, String_eq, ℕ_eq,
  if◌then◌else◌, length,
}
use cmt_top.Base.{ltb as nat_ltb, leb as nat_leb}
use cmt_top.Base.Int.{ℤ, pos, leb, eqb, ℤ_eq, next64, add64}
use cmt_top.Base.Maps.{map_values, Map, lookup, insert}
use cmt_top.State.Types.{Float64}
use cmt_top.Divergence.Types.{
  ValidatorPower, RoundKey_eq, RoundData, GroupData, Config, ArchivedRound, ArchivedHeight, Tracker,
}

abbrev pub default_config : Float64 → Config
default_config five = record {
  threshold_pct = five;
  history_size = pos 32;
  include_prevotes = false;
}

unfoldable pub new : Config → Tracker
new cfg = record {
  cfg = if leb cfg.history_size (pos 0) then record cfg { history_size = pos 32 } else cfg;
  rounds = [];
  history = [];
  default_validators = [];
  default_total_power = pos 0;
  committed_height = pos 0;
  archive = [];
  archive_evicted_through = pos 0;
  archive_latest_height = pos 0;
  catalogue_revision = 0;
}

unfoldable pub by_address :
    List ValidatorPower → Map String ValidatorPower → Map String ValidatorPower
by_address [] m = m
by_address (v ∷ vs) m = by_address vs (insert v.address v m)

unfoldable pub sum_power : ℤ → List ValidatorPower → ℤ
sum_power total [] = total
sum_power total (v ∷ vs) = sum_power (add64 total v.power) vs

-- `v.Power` and `v.Moniker` of a map, at their zero values for an address that it lacks.
abbrev pub power_of : Map String ValidatorPower → String → ℤ
power_of m addr = elim (lookup addr m) [ none ↦ pos 0 | some v ↦ v.power ]

abbrev pub moniker_of : Map String ValidatorPower → String → String
moniker_of m addr = elim (lookup addr m) [ none ↦ "" | some v ↦ v.moniker ]

abbrev pub add_moniker : String → List String → List String
add_moniker moniker monikers =
    if not (moniker == "") && nat_ltb (length monikers) 5
    then monikers ++ moniker ∷ []
    else monikers

-- A group counted anew over another validator set.
unfoldable pub recount : Map String ValidatorPower → List String → GroupData → GroupData
recount m [] g = g
recount m (addr ∷ addrs) g = recount m addrs (record g {
  voting_power = add64 g.voting_power (power_of m addr);
  monikers = add_moniker (moniker_of m addr) g.monikers;
})

abbrev pub recount_group : Map String ValidatorPower → GroupData → GroupData
recount_group m g = recount m g.validators (record g { voting_power = pos 0; monikers = [] })

unfoldable pub sum_groups : ℤ → Map String GroupData → ℤ
sum_groups total [] = total
sum_groups total ((_, g) ∷ groups) = sum_groups (add64 total g.voting_power) groups

-- A round that has no power yet takes the new validator set, and its groups are counted by it.
unfoldable pub set_round_validators : Map String ValidatorPower → ℤ → RoundData → RoundData
set_round_validators m total rd =
    if eqb rd.total_voting_power (pos 0)
    then (let groups = map_values (recount_group m) rd.groups in
        record rd {
          validators = m;
          total_voting_power = total;
          groups = groups;
          total_voted_power = sum_groups (pos 0) groups;
        })
    else rd

-- The rounds of a block that have no roster take it, and each counts as a revision.
abbrev pub has_no_roster : ArchivedRound → Bool
has_no_roster rd = nat_leb (length rd.roster) 0

unfoldable pub set_roster : Map String ValidatorPower → ArchivedRound → ArchivedRound
set_roster m rd = if has_no_roster rd then record rd { roster = m } else rd

unfoldable pub count_rosters : Map String ValidatorPower → Map ℤ ArchivedRound → ℕ → ℕ
count_rosters m [] revision = revision
count_rosters m ((_, rd) ∷ rounds) revision =
    count_rosters m rounds
      (if has_no_roster rd && nat_ltb 0 (length m) then next64 revision else revision)

unfoldable pub set_block_validators : Map String ValidatorPower → ArchivedHeight → ArchivedHeight
set_block_validators m block = record block {
  revision = count_rosters m block.rounds block.revision;
  rounds = map_values (set_roster m) block.rounds;
}

unfoldable pub set_validators : Tracker → List ValidatorPower → Tracker
set_validators t vs =
    let m = by_address vs [] in
    let total = sum_power (pos 0) vs in
    record t {
      default_validators = m;
      default_total_power = total;
      rounds = map_values (set_round_validators m total) t.rounds;
      archive = map_values (set_block_validators m) t.archive;
    }
