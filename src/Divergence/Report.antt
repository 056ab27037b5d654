-- ===== src/Divergence/Report.antt =====
-- `Tracker.report` of internal/divergence/tracker.go: the groups of a round, and whether they split.
use cmt_top.Base.{
  Bool, true, false, not, ◌&&◌, String, List, [], ◌∷◌, map, ◌==◌, String_eq, if◌then◌else◌, length,
  sort_by, text_ltb,
}
use cmt_top.Base.Int.{ℤ, pos, ltb, eqb}
use cmt_top.State.Types.{Float64}
use cmt_top.Divergence.Types.{Group, GroupData, RoundReport, RoundData, Config, Floats}

module _ (fl : Floats) where
  open fl use {of_int64, mul, div, geb}

  unfoldable pub percent : ℤ → ℤ → Float64
  percent power total =
      if ltb (pos 0) total
      then div (mul (of_int64 (pos 100)) (of_int64 power)) (of_int64 total)
      else 0

  unfoldable pub group_of : RoundData → String × GroupData → Group
  group_of rd (_, g) = record {
    block_id_hash = g.hash;
    voting_power = g.voting_power;
    voting_power_pct = percent g.voting_power rd.total_voting_power;
    validator_count = length g.validators;
    sample_monikers = g.monikers;
    validators = g.validators;
    is_canonical = rd.resolved && g.hash == rd.canonical_hash;
  }

  -- The heavier group first; of equal weight the smaller hash.
  unfoldable pub group_before : Group → Group → Bool
  group_before a b =
      if eqb a.voting_power b.voting_power
      then text_ltb a.block_id_hash b.block_id_hash
      else ltb b.voting_power a.voting_power

  unfoldable pub is_heavy : Config → Group → Bool
  is_heavy cfg g = geb g.voting_power_pct cfg.threshold_pct && ltb (pos 0) g.voting_power

  -- The loop over the sorted groups: nil votes are passed over, and so is the first other group.
  unfoldable pub scan_divergent : Config → Bool → List Group → Bool
  scan_divergent cfg leader_found [] = false
  scan_divergent cfg leader_found (g ∷ gs) =
      let with_leader = scan_divergent cfg true gs in
      let same = scan_divergent cfg leader_found gs in
      if g.block_id_hash == ""
      then same
      else if not leader_found
      then with_leader
      else if is_heavy cfg g
      then true
      else same

  unfoldable pub report : Config → RoundData → RoundReport
  report cfg rd =
      let groups = sort_by group_before (map (group_of rd) rd.groups) in
      record {
        height = rd.key.height;
        round = rd.key.round;
        type = rd.key.type;
        groups = groups;
        total_voting_power = rd.total_voting_power;
        total_voted_power = rd.total_voted_power;
        resolved = rd.resolved;
        canonical_hash = rd.canonical_hash;
        is_divergent = scan_divergent cfg false groups;
      }
