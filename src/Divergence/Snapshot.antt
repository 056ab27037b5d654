-- ===== src/Divergence/Snapshot.antt =====
-- internal/divergence/archive.go and archive_snapshot.go: the header of the report on one height,
-- the capture under the lock and the report built from it. The copies that the capture makes of
-- maps and slices are the values themselves; the times that it measures are not modelled.

use cmt_top.Base.{
  ℕ, Bool, true, false, ◌&&◌, ◌||◌, String, List, [], ◌∷◌, ◌++◌, Option, none, some, ℕ_eq,
  if◌then◌else◌, length, sort_by, last?,
}
use cmt_top.Base.{ltb as nat_ltb}
use cmt_top.Base.Int.{ℤ, pos, ltb, leb, add64, sub64, ℤ_eq}
use cmt_top.Base.Maps.{Map, lookup}
use cmt_top.State.Types.{Time}
use cmt_top.Divergence.Types.{ArchivedRound, ArchivedHeight, Tracker}
use cmt_top.Divergence.Archive.{
  investigation_round_limit, investigation_hash_limit, investigation_unknown_validator_limit,
}
use cmt_top.Divergence.Evidence.{InvestigationRound, snapshot_archive_round, keys_of}

pub record InvestigationCoverage : Type 0 where
  pub first_observed_round : Option ℤ
  pub last_observed_round : Option ℤ
  pub rounds_observed : ℕ
  pub missing_rounds : ℤ
  pub rounds_evicted : ℕ
  pub validator_roster_complete : Bool

pub record InvestigationRetention : Type 0 where
  pub height_limit : ℤ
  pub round_limit : ℕ
  pub hashes_per_validator_limit : ℕ
  pub unknown_validator_limit : ℕ
  pub earliest_height : ℤ
  pub latest_height : ℤ
  pub retained_heights : List ℤ

pub record BlockInvestigation : Type 0 where
  pub height : ℤ
  pub found : Bool
  pub status : String
  pub committed : Bool
  pub canonical_hash : String
  pub first_seen_at : Option Time
  pub last_seen_at : Option Time
  pub rounds : List InvestigationRound
  pub truncated : Bool
  pub coverage : InvestigationCoverage
  pub retention : InvestigationRetention

abbrev pub first_or_zero : List ℤ → ℤ
first_or_zero [] = pos 0
first_or_zero (h ∷ _) = h

unfoldable pub retention_of : Tracker → InvestigationRetention
retention_of t =
    let heights = sort_by ltb (keys_of t.archive) in
    record {
      height_limit = t.cfg.history_size;
      round_limit = investigation_round_limit;
      hashes_per_validator_limit = investigation_hash_limit;
      unknown_validator_limit = investigation_unknown_validator_limit;
      earliest_height = first_or_zero heights;
      latest_height = elim (last? heights) [ none ↦ pos 0 | some h ↦ h ];
      retained_heights = heights;
    }

abbrev pub no_coverage : InvestigationCoverage
no_coverage = record {
  first_observed_round = none;
  last_observed_round = none;
  rounds_observed = 0;
  missing_rounds = pos 0;
  rounds_evicted = 0;
  validator_roster_complete = false;
}

abbrev pub coverage_of : ArchivedHeight → InvestigationCoverage
coverage_of block =
    let seen = nat_ltb 0 block.rounds_observed in
    record {
      first_observed_round = if seen then some block.first_round else none;
      last_observed_round = if seen then some block.last_round else none;
      rounds_observed = block.rounds_observed;
      missing_rounds =
          if seen
          then add64 (sub64 block.last_round (pos block.rounds_observed)) (pos 1)
          else pos 0;
      rounds_evicted = block.rounds_evicted;
      validator_roster_complete = nat_ltb 0 (length block.rounds);
    }

-- The status of a height that the archive retains.
abbrev pub status_of : Tracker → ℤ → ArchivedHeight → String
status_of t height block =
    if block.committed
    then "committed"
    else if ltb height t.archive_latest_height || leb height t.committed_height
    then "passed"
    else "live"

abbrev pub was_evicted : Tracker → ℤ → Bool
was_evicted t height = ltb (pos 0) height && leb height t.archive_evicted_through

abbrev pub absent_header : Tracker → ℤ → BlockInvestigation
absent_header t height = record {
  height = height;
  found = false;
  status = if was_evicted t height then "evicted" else "not_observed";
  committed = false;
  canonical_hash = "";
  first_seen_at = none;
  last_seen_at = none;
  rounds = [];
  truncated = was_evicted t height;
  coverage = no_coverage;
  retention = retention_of t;
}

abbrev pub retained_header : Tracker → ℤ → ArchivedHeight → BlockInvestigation
retained_header t height block = record {
  height = height;
  found = true;
  status = status_of t height block;
  committed = block.committed;
  canonical_hash = block.canonical_hash;
  first_seen_at = some block.first_seen_at;
  last_seen_at = some block.last_seen_at;
  rounds = [];
  truncated = nat_ltb 0 block.rounds_evicted;
  coverage = coverage_of block;
  retention = retention_of t;
}

unfoldable pub investigation_header : Tracker → ℤ → BlockInvestigation
investigation_header t height = elim (lookup height t.archive) [
  | none ↦ absent_header t height
  | some block ↦ retained_header t height block
]

pub record ArchiveVersion : Type 0 where
  pub evidence : ℕ
  pub catalogue : ℕ
  pub header : BlockInvestigation

unfoldable pub investigation_version : Tracker → ℤ → ArchiveVersion
investigation_version t height = record {
  evidence = elim (lookup height t.archive) [ none ↦ 0 | some block ↦ block.revision ];
  catalogue = t.catalogue_revision;
  header = investigation_header t height;
}

pub record InvestigationCapture : Type 0 where
  pub version : ArchiveVersion
  pub block : Option ArchivedHeight

unfoldable pub capture_investigation : Tracker → ℤ → InvestigationCapture
capture_investigation t height = record {
  version = investigation_version t height;
  block = lookup height t.archive;
}

-- The rounds of the block, as the loop of `Build` appends them.
unfoldable pub add_rounds :
    String → Bool → Map ℤ ArchivedRound → BlockInvestigation → BlockInvestigation
add_rounds canonical committed [] out = out
add_rounds canonical committed ((_, rd) ∷ rounds) out =
    let round = snapshot_archive_round rd canonical committed in
    add_rounds canonical committed rounds (record out {
      rounds = out.rounds ++ round ∷ [];
      truncated = out.truncated || round.truncated;
      coverage = record (out.coverage) {
        validator_roster_complete =
            out.coverage.validator_roster_complete && round.validator_roster_complete;
      };
    })

abbrev pub round_before : InvestigationRound → InvestigationRound → Bool
round_before a b = ltb a.round b.round

abbrev pub sort_rounds : BlockInvestigation → BlockInvestigation
sort_rounds out = record out { rounds = sort_by round_before out.rounds }

unfoldable pub build : InvestigationCapture → BlockInvestigation
build c = elim c.block [
  | none ↦ record (c.version.header) { rounds = [] }
  | some block ↦ sort_rounds (
      add_rounds block.canonical_hash block.committed block.rounds
        (record (c.version.header) { rounds = [] }))
]

unfoldable pub block_investigation : Tracker → ℤ → BlockInvestigation
block_investigation t height = build (capture_investigation t height)
