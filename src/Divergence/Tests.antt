-- ===== src/Divergence/Tests.antt =====
-- The tracker of internal/divergence at concrete inputs: three validators, one of which votes for
-- another block than the others.
use Prim.Native.Nat.{◌*◌, ◌/◌}
use mathlib.Core.List.{Perm}
use cmt_top.Base.{some, none, arith, ◌≡◌, false, List, [], ◌∷◌, String, map, any_of, drop, keep}
use cmt_top.Base.{leb as nat_leb}
use cmt_top.Base.Int.{wrap64, ◌*ℤ◌, ℤ, pos, pos_part, ◌≤ℤ◌}
use cmt_top.State.Types.{Time}
use cmt_top.Divergence.Types.{
  VoteEvent, ValidatorPower, Config, Tracker, RoundData, RoundReport, Floats, precommit,
}
use cmt_top.Divergence.Report.{report, group_of}
use cmt_top.Divergence.Votes.{observe_vote}
use cmt_top.Divergence.Validators.{new}
use cmt_top.Divergence.Resolve.{commit_or_fault}
use cmt_top.Divergence.Bounds.{IsBounded}
use cmt_top.Divergence.Split.{reaches, is_block, Falling, report-Splits}
use cmt_top.Divergence.Settled.{Settles, archive_commit-cfg, resolve_commit-Settles}
use cmt_top.Divergence.Runs.{
  Call, set_validators_call, observe_round_call, observe_vote_call, ingest_vote_call, run,
  run-new-IsBounded,
}
use cmt_top.Divergence.History.{run-observe_vote_twice}

-- Whole numbers in the place of floats.
abbrev pub whole : Floats
whole = record {
  of_int64 = pos_part;
  mul = λ a b. a * b;
  div = λ a b. a / b;
  geb = λ a b. nat_leb b a;
}

abbrev pub five_percent : Config
five_percent = record { threshold_pct = 5; history_size = pos 2; include_prevotes = false }

abbrev pub of_power : String → ℤ → ValidatorPower
of_power addr power = record { address = addr; power = power; moniker = addr }

abbrev precommit_of : String → String → VoteEvent
precommit_of addr hash = record {
  height = pos 7;
  round = pos 0;
  type = precommit;
  validator_addr = addr;
  block_id_hash = hash;
  timestamp = 5;
}

abbrev split_calls : List (Time × Call)
split_calls =
    (
      10,
      set_validators_call
          (of_power "A" (pos 40) ∷ of_power "B" (pos 40) ∷ of_power "C" (pos 20) ∷ []),
    )
    ∷ (11, observe_round_call (pos 7) (pos 0) "A")
    ∷ (12, ingest_vote_call (precommit_of "A" "x"))
    ∷ (13, ingest_vote_call (precommit_of "B" "y"))
    ∷ (14, observe_vote_call (precommit_of "B" "x"))
    ∷ []

run-new-IsBounded_example : IsBounded (run whole split_calls (new five_percent))
run-new-IsBounded_example = run-new-IsBounded whole five_percent split_calls

run-observe_vote_twice_example :
    observe_vote 30
      (observe_vote 20 (run whole split_calls (new five_percent)) (precommit_of "C" "y"))
      (precommit_of "C" "y")
    ≡ observe_vote 20 (run whole split_calls (new five_percent)) (precommit_of "C" "y")
run-observe_vote_twice_example =
    run-observe_vote_twice whole five_percent split_calls 20 30 (precommit_of "C" "y")

abbrev split_tracker : Tracker
split_tracker = run whole split_calls (new five_percent)

abbrev split_round : RoundData
split_round = record {
  key = record { height = pos 7; round = pos 0; type = precommit };
  groups =
      ("x", record { hash = "x"; voting_power = pos 40; validators = "A" ∷ []; monikers = [] })
      ∷ (
        "y",
        record { hash = "y"; voting_power = pos 60; validators = "B" ∷ "C" ∷ []; monikers = [] },
      )
      ∷ [];
  seen = ("A", tt) ∷ ("B", tt) ∷ ("C", tt) ∷ [];
  total_voting_power = pos 100;
  total_voted_power = pos 100;
  validators = [];
  resolved = false;
  canonical_hash = "";
  committed = false;
  advanced = false;
  detected = false;
}

report-Splits_example :
    Perm
      (report whole five_percent split_round).groups
      (map (group_of whole split_round) split_round.groups)
    × Falling (report whole five_percent split_round).groups
    × ((report whole five_percent split_round).is_divergent
        ≡ any_of
            (reaches whole five_percent)
            (drop 1 (keep is_block (report whole five_percent split_round).groups)))
report-Splits_example = report-Splits whole five_percent split_round

-- A tracker with one round that is not resolved, and the size of its history.
abbrev open_tracker : Tracker
open_tracker = record (new five_percent) { rounds = (split_round.key, split_round) ∷ [] }

open_tracker_size :
    (pos 0 ≤ℤ open_tracker.cfg.history_size)
    × (open_tracker.cfg.history_size ≤ℤ pos 2305843009213693951)
unfolding new
open_tracker_size = (omega arith, omega arith)

resolve_commit-Settles_example :
    (r : Tracker × List RoundReport) × (commit_or_fault whole 40 open_tracker (pos 7) "x" ≡ some r)
    × Settles whole 40 open_tracker (pos 7) "x" (pos_part open_tracker.cfg.history_size) r
resolve_commit-Settles_example =
    resolve_commit-Settles whole 40 open_tracker (pos 7) "x" open_tracker_size.0 open_tracker_size.1

-- A size that wraps: the commit faults.
abbrev huge_tracker : Tracker
huge_tracker = record open_tracker {
  cfg = record five_percent { history_size = pos 2305843009213693952 };
}

huge_tracker_faults : commit_or_fault whole 40 huge_tracker (pos 7) "x" ≡ none
unfolding commit_or_fault new wrap64 ◌*ℤ◌
huge_tracker_faults = ground (arith, archive_commit-cfg 40 huge_tracker (pos 7) "x")
