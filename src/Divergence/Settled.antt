-- ===== src/Divergence/Settled.antt =====
-- What `ResolveCommit` of internal/divergence/tracker.go leaves of a height that commits.
use mathlib.Core.List.{Perm}
use cmt_top.Base.{
  ℕ, ◌*◌, ◌++◌, List, map, some, sort_by, sort_by-perm, sym, ap, subst, ◌∙◌, ◌≤◌, ◌≡◌, refl, Bool,
  true, not, ◌&&◌, String, [], ◌∷◌, arith, All, keep, sort_by-All, length, length-keep_last-le,
  Bool-cases, ◌⊎◌, inl, inr,
}
use cmt_top.Base.Int.{
  ℤ, pos, negsuc, pos_part, wrap64, wrap64_lem, ◌*ℤ◌, ltb, eqb, eqb_iff, ◌≤ℤ◌, ◌<ℤ◌,
}
use cmt_top.Base.Maps.{Map, AllOf, map_values}
use cmt_top.State.Types.{Time}
use cmt_top.Divergence.Types.{RoundKey, RoundData, RoundReport, Config, Tracker, Floats}
use cmt_top.Divergence.Report.{report}
use cmt_top.Divergence.Votes.{archive_commit, commit_block}
use cmt_top.Divergence.Archive.{
  create_archive_height, add_height, evict_height, prune_detector_rounds,
}
use cmt_top.Divergence.Resolve.{
  resolve_round, resolved_before, resolved_reports, resolve_commit, commit_or_fault,
  raise_committed, history_bound, trim_history,
}

-- Above the height, or resolved.
abbrev pub IsSettled : ℤ → RoundKey → RoundData → Type 0
IsSettled height key rd = (height <ℤ rd.key.height) ⊎ (rd.resolved ≡ true)

-- A report of the height, with the hash that committed.
abbrev pub IsResolved : ℤ → String → RoundReport → Type 0
IsResolved height hash r = (r.height ≡ height) × (r.resolved ≡ true) × (r.canonical_hash ≡ hash)

abbrev pub resolve_all : ℤ → String → Map RoundKey RoundData → Map RoundKey RoundData
resolve_all height hash = map_values (λ rd. (resolve_round height hash rd).0)

resolve_round-IsSettled :
    (height : ℤ) (hash : String) (key : RoundKey) (rd : RoundData)
    → IsSettled height key (resolve_round height hash rd).0
unfolding resolve_round
resolve_round-IsSettled height hash key rd = ground (arith, eqb_iff rd.key.height height)

resolve_all-IsSettled :
    (p : RoundKey × RoundData → Bool) (height : ℤ) (hash : String) (rounds : Map RoundKey RoundData)
    → AllOf (IsSettled height) (keep p (resolve_all height hash rounds))
resolve_all-IsSettled p height hash [] = tt
resolve_all-IsSettled p height hash ((k, rd) ∷ rounds) =
    let rest = resolve_all-IsSettled p height hash rounds in
    elim (Bool-cases (p (k, (resolve_round height hash rd).0))) [
      | inl kept ↦ rw kept (resolve_round-IsSettled height hash k rd, rest)
      | inr cut ↦ rw cut rest
    ]

raise_committed-cfg : (height : ℤ) (t : Tracker) → (raise_committed height t).cfg ≡ t.cfg
raise_committed-cfg height t = ground arith

raise_committed-rounds : (height : ℤ) (t : Tracker) → (raise_committed height t).rounds ≡ t.rounds
raise_committed-rounds height t = ground arith

raise_committed-ge :
    (height : ℤ) (t : Tracker) → height ≤ℤ (raise_committed height t).committed_height
raise_committed-ge height t = ground arith

raise_committed-keeps :
    (height : ℤ) (t : Tracker) → t.committed_height ≤ℤ (raise_committed height t).committed_height
raise_committed-keeps height t = ground arith

pub archive_commit-cfg :
    (now : Time) (t : Tracker) (height : ℤ) (hash : String)
    → (archive_commit now t height hash).cfg ≡ t.cfg
unfolding archive_commit commit_block create_archive_height add_height evict_height
    prune_detector_rounds
archive_commit-cfg now t height hash = ground arith

raised-cfg :
    (now : Time) (t : Tracker) (height : ℤ) (hash : String)
    → (raise_committed height (archive_commit now t height hash)).cfg ≡ t.cfg
raised-cfg now t height hash =
    raise_committed-cfg height (archive_commit now t height hash)
    ∙ archive_commit-cfg now t height hash

scaled : (n : ℕ) → pos n *ℤ pos 4 ≡ pos (n * 4)
unfolding ◌*ℤ◌
scaled n = ground arith

history_bound_lem :
    (cfg : Config)
    → pos 0 ≤ℤ cfg.history_size
    → cfg.history_size ≤ℤ pos 2305843009213693951
    → history_bound cfg ≡ pos (pos_part cfg.history_size * 4)
history_bound_lem cfg low high = bound_of cfg.history_size low high
  where
    bound_of :
        (n : ℤ)
        → pos 0 ≤ℤ n
        → n ≤ℤ pos 2305843009213693951
        → wrap64 (n *ℤ pos 4) ≡ pos (pos_part n * 4)
    bound_of (pos n) l h =
        ap wrap64 (scaled n) ∙ wrap64_lem (pos (n * 4)) (omega (arith, h)) (omega (arith, h))
    bound_of (negsuc n) l h = absurd (omega (arith, l))

length-trim_history-le :
    (n : ℕ) (history : List RoundReport) → length (trim_history (pos n) history) ≤ n
length-trim_history-le n history = ground (arith, length-keep_last-le n history)

-- A round of the height that is not resolved, and how it is left.
abbrev pub is_open_at : ℤ → RoundKey × RoundData → Bool
is_open_at height entry = eqb entry.1.key.height height && not entry.1.resolved

abbrev pub closed : String → RoundData → RoundData
closed hash rd = record rd { committed = true; resolved = true; canonical_hash = hash }

module _ (fl : Floats) where
  -- One report for each open round of the height.
  abbrev pub due_reports : Config → ℤ → String → Map RoundKey RoundData → List RoundReport
  due_reports cfg height hash rounds =
      map (λ entry. report fl cfg (closed hash entry.1)) (keep (is_open_at height) rounds)

  resolved_reports-due :
      (cfg : Config) (height : ℤ) (hash : String) (rounds : Map RoundKey RoundData)
      → resolved_reports fl cfg height hash rounds ≡ due_reports cfg height hash rounds
  unfolding resolved_reports resolve_round
  resolved_reports-due cfg height hash [] = refl
  resolved_reports-due cfg height hash ((k, rd) ∷ rounds) =
      let rest = resolved_reports-due cfg height hash rounds in
      elim (Bool-cases (eqb rd.key.height height && not rd.resolved)) [
        | inl now_ ↦ rw now_ (ap (λ l. report fl cfg (closed hash rd) ∷ l) rest)
        | inr not_ ↦ elim (Bool-cases (ltb rd.key.height height && not rd.resolved)) [
          | inl before ↦ rw (not_, before) rest
          | inr after ↦ rw (not_, after) rest
        ]
      ]

  resolved_reports-IsResolved :
      (cfg : Config) (height : ℤ) (hash : String) (rounds : Map RoundKey RoundData)
      → All (IsResolved height hash) (resolved_reports fl cfg height hash rounds)
  unfolding resolved_reports resolve_round report
  resolved_reports-IsResolved cfg height hash [] = tt
  resolved_reports-IsResolved cfg height hash ((k, rd) ∷ rounds) =
      let rest = resolved_reports-IsResolved cfg height hash rounds in
      elim (Bool-cases (eqb rd.key.height height && not rd.resolved)) [
        | inl now_ ↦ rw now_ (((eqb_iff rd.key.height height).0 (ground arith), refl, refl), rest)
        | inr not_ ↦ elim (Bool-cases (ltb rd.key.height height && not rd.resolved)) [
          | inl before ↦ rw (not_, before) rest
          | inr after ↦ rw (not_, after) rest
        ]
      ]

  -- What a commit leaves of the detector and hands out.
  pub record Settles (now : Time) (t : Tracker) (height : ℤ) (hash : String) (size : ℕ)
      (r : Tracker × List RoundReport) : Type 0 where
    pub all_settled : AllOf (IsSettled height) r.0.rounds
    pub reached : height ≤ℤ r.0.committed_height
    pub not_fallen : (archive_commit now t height hash).committed_height ≤ℤ r.0.committed_height
    pub complete :
        Perm r.1 (due_reports t.cfg height hash (archive_commit now t height hash).rounds)
    pub of_commit : All (IsResolved height hash) r.1
    pub bounded : length r.0.history ≤ size * 4

  reports-complete :
      (now : Time) (t : Tracker) (height : ℤ) (hash : String)
      → Perm
          (resolve_commit fl now t height hash).1
          (due_reports t.cfg height hash (archive_commit now t height hash).rounds)
  unfolding resolve_commit
  reports-complete now t height hash =
      let a0 = archive_commit now t height hash in
      let t' = raise_committed height a0 in
      let found = resolved_reports fl t'.cfg height hash t'.rounds in
      let due : found ≡ due_reports t.cfg height hash a0.rounds =
        resolved_reports-due t'.cfg height hash t'.rounds
        ∙ ap (λ cfg. due_reports cfg height hash t'.rounds) (raised-cfg now t height hash)
        ∙ ap (due_reports t.cfg height hash) (raise_committed-rounds height a0) in
      subst (λ l. Perm (sort_by resolved_before found) l) due (sort_by-perm resolved_before found)

  history-bounded :
      (now : Time) (t : Tracker) (height : ℤ) (hash : String)
      → history_bound (raise_committed height (archive_commit now t height hash)).cfg
        ≡ pos (pos_part t.cfg.history_size * 4)
      → length (resolve_commit fl now t height hash).0.history ≤ pos_part t.cfg.history_size * 4
  unfolding resolve_commit
  history-bounded now t height hash e =
      let t' = raise_committed height (archive_commit now t height hash) in
      let history =
        t'.history ++ sort_by resolved_before (resolved_reports fl t'.cfg height hash t'.rounds) in
      let size : ℕ = pos_part t.cfg.history_size * 4 in
      subst (λ bound. length (trim_history bound history) ≤ size) (sym e)
        (length-trim_history-le size history)

  resolve_commit-IsSettled :
      (now : Time) (t : Tracker) (height : ℤ) (hash : String)
      → AllOf (IsSettled height) (resolve_commit fl now t height hash).0.rounds
        × (height ≤ℤ (resolve_commit fl now t height hash).0.committed_height)
        × ((archive_commit now t height hash).committed_height
            ≤ℤ (resolve_commit fl now t height hash).0.committed_height)
        × All (IsResolved height hash) (resolve_commit fl now t height hash).1
  unfolding resolve_commit
  resolve_commit-IsSettled now t height hash =
      let a0 = archive_commit now t height hash in
      let t' = raise_committed height a0 in
      (
        resolve_all-IsSettled _ height hash t'.rounds,
        raise_committed-ge height a0,
        raise_committed-keeps height a0,
        sort_by-All (IsResolved height hash) resolved_before _
            (resolved_reports-IsResolved t'.cfg height hash t'.rounds),
      )

  without_fault :
      (now : Time) (t : Tracker) (height : ℤ) (hash : String) (n : ℕ)
      → history_bound (raise_committed height (archive_commit now t height hash)).cfg ≡ pos n
      → commit_or_fault fl now t height hash ≡ some (resolve_commit fl now t height hash)
  unfolding commit_or_fault
  without_fault now t height hash n e = ground (arith, e)

  -- If the configured size is at least zero and below 2^61, a commit does not fault. Every round that
  -- the detector then holds is of a greater height or resolved; the committed height has reached the
  -- height and has not fallen; the reports that are handed out are exactly one for each round of the
  -- height that was not resolved, all of them of the height, resolved and with the hash that
  -- committed; and the history has at most four times the configured size.
  pub resolve_commit-Settles :
      (now : Time) (t : Tracker) (height : ℤ) (hash : String)
      → pos 0 ≤ℤ t.cfg.history_size
      → t.cfg.history_size ≤ℤ pos 2305843009213693951
      → (r : Tracker × List RoundReport) × (commit_or_fault fl now t height hash ≡ some r)
        × Settles now t height hash (pos_part t.cfg.history_size) r
  resolve_commit-Settles now t height hash low high =
      let bound =
        ap history_bound (raised-cfg now t height hash) ∙ history_bound_lem t.cfg low high in
      let (settled, reached, kept, resolved) = resolve_commit-IsSettled now t height hash in
      (
        resolve_commit fl now t height hash,
        without_fault now t height hash _ bound,
        record {
          all_settled = settled;
          reached = reached;
          not_fallen = kept;
          complete = reports-complete now t height hash;
          of_commit = resolved;
          bounded = history-bounded now t height hash bound;
        },
      )
