-- ===== src/Divergence/Resolve.antt =====
-- internal/divergence/tracker.go: rounds that are over, heights that commit, and what is published.
-- Where `HistorySize * 4` wraps to a negative number, the slice expression that trims the history is
-- out of range: `commit_or_fault` gives that fault, and `resolve_commit` is the call without it.
use cmt_top.Base.{
  Bool, true, false, not, ◌&&◌, String, List, [], ◌∷◌, ◌++◌, none, some, String_eq, ℕ_eq,
  if◌then◌else◌, length, Option, keep, keep_last, sort_by,
}
use cmt_top.Base.{ltb as nat_ltb}
use cmt_top.Base.Int.{ℤ, pos, wrap64, ◌*ℤ◌, pos_part, ltb, eqb, ℤ_eq, next64, sub64}
use cmt_top.Base.Maps.{map_values, Map, lookup, insert}
use cmt_top.State.Types.{Time}
use cmt_top.Divergence.Types.{
  prevote, precommit, RoundKey, RoundKey_eq, RoundData, RoundReport, Report, Config, Tracker,
  Floats,
}
use cmt_top.Divergence.Report.{report}
use cmt_top.Divergence.Votes.{archive_commit}

unfoldable pub advance_key : RoundKey → Map RoundKey RoundData → Map RoundKey RoundData
advance_key key rounds = elim (lookup key rounds) [
  | none ↦ rounds
  | some rd ↦ insert key (record rd { advanced = true }) rounds
]

unfoldable pub mark_round_advanced : Tracker → ℤ → ℤ → Tracker
mark_round_advanced t height round = record t {
  rounds =
      advance_key (record { height = height; round = round; type = precommit })
        (advance_key (record { height = height; round = round; type = prevote }) t.rounds);
}

-- The switch in the loop of `ResolveCommit`: the round as it is left, and whether it is reported.
unfoldable pub resolve_round : ℤ → String → RoundData → RoundData × Bool
resolve_round height hash rd =
    if eqb rd.key.height height && not rd.resolved
    then (record rd { committed = true; resolved = true; canonical_hash = hash }, true)
    else if ltb rd.key.height height && not rd.resolved
    then (record rd { committed = true; resolved = true }, false)
    else (rd, false)

unfoldable pub resolved_before : RoundReport → RoundReport → Bool
resolved_before a b =
    if not (eqb a.round b.round) then ltb a.round b.round else nat_ltb a.type b.type

-- `HistorySize * 4`, an int.
abbrev pub history_bound : Config → ℤ
history_bound cfg = wrap64 (cfg.history_size *ℤ pos 4)

-- The history is cut only where it is longer than the bound.
abbrev pub trim_history : ℤ → List RoundReport → List RoundReport
trim_history bound history =
    if ltb bound (pos (length history)) then keep_last (pos_part bound) history else history

abbrev pub raise_committed : ℤ → Tracker → Tracker
raise_committed height t =
    if ltb t.committed_height height
    then record t { committed_height = height; catalogue_revision = next64 t.catalogue_revision }
    else t

unfoldable pub live_before : RoundReport → RoundReport → Bool
live_before a b =
    if not (eqb a.height b.height)
    then ltb a.height b.height
    else if not (eqb a.round b.round)
    then ltb a.round b.round
    else nat_ltb a.type b.type

module _ (fl : Floats) where
  unfoldable pub resolved_reports : Config → ℤ → String → Map RoundKey RoundData → List RoundReport
  resolved_reports cfg height hash [] = []
  resolved_reports cfg height hash ((_, rd) ∷ rounds) =
      let rest = resolved_reports cfg height hash rounds in
      let (rd', reported) = resolve_round height hash rd in
      if reported then report fl cfg rd' ∷ rest else rest

  unfoldable pub resolve_commit : Time → Tracker → ℤ → String → Tracker × List RoundReport
  resolve_commit now t height hash =
      let t' = raise_committed height (archive_commit now t height hash) in
      let resolved = sort_by resolved_before (resolved_reports t'.cfg height hash t'.rounds) in
      let cutoff = sub64 height t'.cfg.history_size in
      (
        record t' {
          history = trim_history (history_bound t'.cfg) (t'.history ++ resolved);
          rounds =
              keep (λ entry. not (ltb entry.0.height cutoff))
                (map_values (λ rd. (resolve_round height hash rd).0) t'.rounds);
        },
        resolved,
      )

  -- The call with its fault: `none` where the bound of the history is negative.
  unfoldable pub commit_or_fault : Time → Tracker → ℤ → String → Option (Tracker × List RoundReport)
  commit_or_fault now t height hash =
      if ltb (history_bound (raise_committed height (archive_commit now t height hash)).cfg) (pos 0)
      then none
      else some (resolve_commit now t height hash)

  unfoldable pub live_reports : Config → Map RoundKey RoundData → List RoundReport
  live_reports cfg [] = []
  live_reports cfg ((_, rd) ∷ rounds) =
      let rest = live_reports cfg rounds in
      if not rd.resolved then report fl cfg rd ∷ rest else rest

  unfoldable pub current_report : Tracker → Report
  current_report t = record {
    live = sort_by live_before (live_reports t.cfg t.rounds);
    history = keep_last (pos_part t.cfg.history_size) (keep (λ r. r.is_divergent) t.history);
  }
