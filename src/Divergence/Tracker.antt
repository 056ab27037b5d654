-- ===== src/Divergence/Tracker.antt =====
-- internal/divergence/tracker.go: how a vote reaches the live detector.
use mathlib.Core.Option
use cmt_top.Base.{
  Bool, false, not, ◌&&◌, ◌||◌, String, [], ◌∷◌, ◌++◌, none, some, ◌==◌, String_eq, ℕ_eq,
  if◌then◌else◌,
}
use cmt_top.Base.Int.{pos, ltb, leb, eqb, ℤ_eq, add64, wrap64, quot, ◌*ℤ◌}
use cmt_top.Base.Maps.{lookup, insert}
use cmt_top.State.Types.{Time}
use cmt_top.Divergence.Types.{
  precommit, VoteEvent, RoundKey, RoundKey_eq, RoundData, GroupData, RoundReport, empty_report,
  Config, Tracker, Floats,
}
use cmt_top.Divergence.Report.{report}
use cmt_top.Divergence.Archive.{is_some}
use cmt_top.Divergence.Votes.{observe_vote}
use cmt_top.Divergence.Validators.{power_of, moniker_of, add_moniker}

-- The archive holds a vote of this type from this validator in this round.
unfoldable pub is_observed : Tracker → VoteEvent → Bool
is_observed t v = elim (lookup v.height t.archive) [
  | none ↦ false
  | some block ↦ elim (lookup v.round block.rounds) [
    | none ↦ false
    | some rd ↦ elim (lookup v.validator_addr rd.votes) [
      | none ↦ false
      | some phases ↦ is_some (lookup v.type phases)
    ]
  ]
]

abbrev pub key_of : VoteEvent → RoundKey
key_of v = record { height = v.height; round = v.round; type = v.type }

abbrev pub new_round_data : Tracker → RoundKey → RoundData
new_round_data t key = record {
  key = key;
  groups = [];
  seen = [];
  total_voting_power = t.default_total_power;
  total_voted_power = pos 0;
  validators = t.default_validators;
  resolved = false;
  canonical_hash = "";
  committed = false;
  advanced = false;
  detected = false;
}

abbrev pub new_group : String → GroupData
new_group hash = record { hash = hash; voting_power = pos 0; validators = []; monikers = [] }

unfoldable pub count_vote : VoteEvent → RoundData → RoundData
count_vote v rd =
    let power = power_of rd.validators v.validator_addr in
    let g = Option.get_or (lookup v.block_id_hash rd.groups) (new_group v.block_id_hash) in
    record rd {
      seen = insert v.validator_addr tt rd.seen;
      groups =
          insert v.block_id_hash
            (record g {
              voting_power = add64 g.voting_power power;
              validators = g.validators ++ v.validator_addr ∷ [];
              monikers = add_moniker (moniker_of rd.validators v.validator_addr) g.monikers;
            })
            rd.groups;
      total_voted_power = add64 rd.total_voted_power power;
    }

-- Two thirds of the power have precommitted, or all of it has voted where prevotes count.
unfoldable pub is_settled : Config → VoteEvent → RoundData → Bool
is_settled cfg v rd =
    not rd.advanced
    && ((v.type == precommit
          && ltb (pos 0) rd.total_voting_power
          && ltb (quot (wrap64 (rd.total_voting_power *ℤ pos 2)) 3) rd.total_voted_power)
        || (cfg.include_prevotes
            && eqb rd.total_voted_power rd.total_voting_power
            && ltb (pos 0) rd.total_voting_power))

module _ (fl : Floats) where
  unfoldable pub triggers : Config → VoteEvent → RoundData → Bool
  triggers cfg v rd =
      (v.type == precommit || cfg.include_prevotes)
      && is_settled cfg v rd
      && (report fl cfg rd).is_divergent
      && not rd.detected

  -- The live part of `IngestVote`, over the round's data.
  unfoldable pub ingest_into : Tracker → VoteEvent → RoundData → Tracker × RoundReport × Bool
  ingest_into t v rd =
      if is_some (lookup v.validator_addr rd.seen)
      then (record t { rounds = insert (key_of v) rd t.rounds }, report fl t.cfg rd, false)
      else (let rd' = count_vote v rd in
          let fires = triggers t.cfg v rd' in
          (
            record t {
              rounds = insert (key_of v) (record rd' { detected = rd'.detected || fires }) t.rounds;
            },
            report fl t.cfg rd',
            fires,
          ))

  unfoldable pub ingest_vote : Time → Tracker → VoteEvent → Tracker × RoundReport × Bool
  ingest_vote now t v =
      let t' = observe_vote now t v in
      if not (is_observed t' v)
      then (t', empty_report, false)
      else if leb v.height t'.committed_height
      then (t', empty_report, false)
      else ingest_into t' v
          (Option.get_or (lookup (key_of v) t'.rounds) (new_round_data t' (key_of v)))
