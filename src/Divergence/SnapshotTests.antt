-- ===== src/Divergence/SnapshotTests.antt =====
-- The report on a height of internal/divergence at concrete inputs: three validators, one of which has
-- not precommitted.
use cmt_top.Base.{◌≡◌, refl, true, false, String, List, [], ◌∷◌, none, arith, All}
use cmt_top.Base.Int.{pos, next64}
use cmt_top.Base.Maps.{lookup, insert}
use cmt_top.State.Types.{Time}
use cmt_top.Divergence.Types.{precommit, InvestigationVote, ArchivedRound, Tracker}
use cmt_top.Divergence.Evidence.{
  InvestigationRound, InvestigationValidator, snapshot_archive_round, snapshot_phase,
}
use cmt_top.Divergence.Snapshot.{
  retention_of, investigation_header, investigation_version, block_investigation, build,
  capture_investigation, add_rounds,
}
use cmt_top.Divergence.Balance.{IsBalanced, snapshot_archive_round-IsBalanced}
use cmt_top.Divergence.Groups.{signers, group_by_signers, IsSigned, Listed, snapshot_phase-signers}
use cmt_top.Divergence.Validators.{new}
use cmt_top.Divergence.Runs.{Call, observe_round_call, step, mark_round_advanced_call, run}
use cmt_top.Divergence.Archive.{
  archive_height, create_archive_height, add_height, evict_height, archive_round, store_round,
  add_round,
}
use cmt_top.Divergence.Votes.{observe_round, round_from, set_proposer}
use cmt_top.Divergence.Resolve.{mark_round_advanced, advance_key}
use cmt_top.Divergence.Unchanged.{run-block_investigation}
use cmt_top.Divergence.Tests.{whole, five_percent, of_power}

abbrev vote_for : String → InvestigationVote
vote_for hash = record {
  observed = true;
  hashes = record { hash = hash; first_seen_at = 5; last_seen_at = 5; vote_timestamp = none } ∷ [];
  conflicting = false;
  truncated = false;
}

abbrev seen_round : ArchivedRound
seen_round = record {
  round = pos 0;
  proposer = "A";
  first_seen_at = 5;
  last_seen_at = 6;
  roster =
      ("A", of_power "A" (pos 40))
      ∷ ("B", of_power "B" (pos 40))
      ∷ ("C", of_power "C" (pos 20))
      ∷ [];
  votes = ("A", (precommit, vote_for "x") ∷ []) ∷ ("B", (precommit, vote_for "y") ∷ []) ∷ [];
  truncated = false;
}

snapshot_archive_round-IsBalanced_example :
    let round : InvestigationRound = snapshot_archive_round seen_round "x" true in
    IsBalanced round round.prevotes × IsBalanced round round.precommits
snapshot_archive_round-IsBalanced_example = snapshot_archive_round-IsBalanced seen_round "x" true

abbrev seen_rows : List InvestigationValidator
seen_rows = (snapshot_archive_round seen_round "x" true).validators

snapshot_phase-signers_example :
    All (IsSigned "x" true precommit seen_rows) (snapshot_phase seen_rows precommit "x" true).groups
    × ((hash : String)
        → Listed
            (group_by_signers "x" true hash (signers precommit hash seen_rows))
            (snapshot_phase seen_rows precommit "x" true).groups)
snapshot_phase-signers_example = snapshot_phase-signers "x" true precommit seen_rows

abbrev pub later_calls : List (Time × Call)
later_calls = (20, mark_round_advanced_call (pos 7) (pos 0)) ∷ []

abbrev pub first_calls : List (Time × Call)
first_calls = (11, observe_round_call (pos 7) (pos 0) "") ∷ []

abbrev pub first_tracker : Tracker
first_tracker = run whole first_calls (new five_percent)

abbrev pub later_tracker : Tracker
later_tracker = run whole later_calls first_tracker

found_before : (investigation_header first_tracker (pos 7)).found ≡ true
unfolding investigation_header run step new observe_round round_from archive_height
    create_archive_height add_height evict_height archive_round store_round add_round set_proposer
    lookup insert mark_round_advanced advance_key next64
found_before = refl

pub found_after : (investigation_header later_tracker (pos 7)).found ≡ true
unfolding investigation_header run step new observe_round round_from archive_height
    create_archive_height add_height evict_height archive_round store_round add_round set_proposer
    lookup insert mark_round_advanced advance_key next64
found_after = refl

pub report_found : (block_investigation first_tracker (pos 7)).found ≡ true
unfolding block_investigation build capture_investigation add_rounds investigation_version
    investigation_header run step new observe_round round_from archive_height create_archive_height
    add_height evict_height archive_round store_round add_round set_proposer lookup insert next64
report_found = refl

pub same_evidence :
    (investigation_version later_tracker (pos 7)).evidence
    ≡ (investigation_version first_tracker (pos 7)).evidence
unfolding investigation_version run step new observe_round round_from archive_height
    create_archive_height add_height evict_height archive_round store_round add_round set_proposer
    lookup insert mark_round_advanced advance_key next64
same_evidence = refl

run-block_investigation_example :
    block_investigation later_tracker (pos 7) ≡ record (block_investigation first_tracker (pos 7)) {
      status = (investigation_header later_tracker (pos 7)).status;
      retention = retention_of later_tracker;
    }
run-block_investigation_example =
    run-block_investigation whole five_percent first_calls later_calls (pos 7) (omega arith)
      found_before found_after same_evidence
