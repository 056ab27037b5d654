-- ===== src/Web/Reports.antt =====
-- internal/web/rounds_cache.go: which report the cache serves for a height, over the tracker's archive.
pub mod Settled
use mathlib.Core.Bool.{false≢true}
use cmt_top.Base.{
  ℕ, ◌<◌, ◌≡◌, refl, sym, ap, ◌∙◌, inl, inr, Bool, true, false, not, ◌||◌, ◌&&◌, String, List, [],
  Option, none, some, ◌==◌, String_eq, ℕ_eq, if◌then◌else◌, length, arith, Bool-cases, Option-cases,
}
use cmt_top.Base.Int.{ℤ, pos, ltb, ℤ_eq}
use cmt_top.Base.Maps.{lookup}
use cmt_top.State.Types.{Time, time_sub}
use cmt_top.Divergence.Types.{Tracker, Floats, Config, ArchivedHeight}
use cmt_top.Divergence.Validators.{new}
use cmt_top.Divergence.Runs.{Call, run}
use cmt_top.Divergence.Snapshot.{
  BlockInvestigation, InvestigationRetention, ArchiveVersion, investigation_version,
  investigation_header, retention_of, capture_investigation, build, block_investigation,
  absent_header, retained_header,
}
use cmt_top.Divergence.Unchanged.{header_of_block, run-block_investigation}

-- 250 milliseconds, in nanoseconds.
abbrev pub rounds_coalesce : ℤ
rounds_coalesce = pos 250000000

-- What an entry keeps of the report that was built for it.
pub record BuiltReport : Type 0 where
  pub report : BlockInvestigation
  pub evidence : ℕ
  pub built_at : Time

unfoldable pub build_report : Time → Tracker → ℤ → BuiltReport
build_report now t height =
    let capture = capture_investigation t height in
    record { report = build capture; evidence = capture.version.evidence; built_at = now }

abbrev pub bool_eq : Bool → Bool → Bool
bool_eq true b = b
bool_eq false b = not b

unfoldable pub can_coalesce : Time → BuiltReport → ArchiveVersion → Bool
can_coalesce now e v =
    v.header.found
    && bool_eq e.report.committed v.header.committed
    && e.report.canonical_hash == v.header.canonical_hash
    && e.report.coverage.rounds_evicted == v.header.coverage.rounds_evicted
    && ltb (time_sub now e.built_at) rounds_coalesce

abbrev pub with_catalogue : BuiltReport → ArchiveVersion → BlockInvestigation
with_catalogue e v = record (e.report) { retention = v.header.retention; status = v.header.status }

abbrev pub is_hit : Bool → Time → BuiltReport → ArchiveVersion → Bool
is_hit allow_coalesce now e v = e.evidence == v.evidence || (allow_coalesce && can_coalesce now e v)

-- The report that `get` gives for a version without a build, with the fields of the catalogue: that of
-- a height that is not found, or that of the entry; `none` where a report has to be built.
unfoldable pub serve : Bool → Time → Option BuiltReport → ArchiveVersion → Option BlockInvestigation
serve allow_coalesce now entry v = elim (v.header.found) [
  | false ↦
      some (with_catalogue (record { report = v.header; evidence = v.evidence; built_at = 0 }) v)
  | true ↦ elim entry [
    | none ↦ none
    | some e ↦ if is_hit allow_coalesce now e v then some (with_catalogue e v) else none
  ]
]

found-some :
    (t : Tracker) (height : ℤ) (block : ArchivedHeight)
    → lookup height t.archive ≡ some block
    → (investigation_header t height).found ≡ true
found-some t height block h = ap (λ r. r.found) (header_of_block t height block h)

absent-header :
    (t : Tracker) (height : ℤ)
    → lookup height t.archive ≡ none
    → investigation_header t height ≡ absent_header t height
unfolding investigation_header
absent-header t height h =
    let header : Option ArchivedHeight → BlockInvestigation = (λ found. elim found [
      | none ↦ absent_header t height
      | some b ↦ retained_header t height b
    ]) in
    ap header h

pub header-retention :
    (t : Tracker) (height : ℤ) → (investigation_header t height).retention ≡ retention_of t
header-retention t height = elim (Option-cases (lookup height t.archive)) [
  | inl h ↦ ap (λ r. r.retention) (absent-header t height h)
  | inr (block, h) ↦ ap (λ r. r.retention) (header_of_block t height block h)
]

absent-report :
    (t : Tracker) (height : ℤ)
    → lookup height t.archive ≡ none
    → block_investigation t height ≡ absent_header t height
unfolding block_investigation capture_investigation build investigation_version
absent-report t height h =
    let filled : Option ArchivedHeight → BlockInvestigation =
      (λ found. build (record { version = investigation_version t height; block = found })) in
    let no_rounds : BlockInvestigation → BlockInvestigation = (λ out. record out { rounds = [] }) in
    ap filled h ∙ ap no_rounds (absent-header t height h)

pub report-found :
    (t : Tracker) (height : ℤ)
    → (block_investigation t height).found ≡ true
    → (investigation_header t height).found ≡ true
report-found t height found = elim (Option-cases (lookup height t.archive)) [
  | inl h ↦ absurd (false≢true (sym (ap (λ r. r.found) (absent-report t height h)) ∙ found))
  | inr (block, h) ↦ found-some t height block h
]

not_found-report :
    (t : Tracker) (height : ℤ)
    → (investigation_header t height).found ≡ false
    → block_investigation t height ≡ investigation_header t height
not_found-report t height missing = elim (Option-cases (lookup height t.archive)) [
  | inl h ↦ absent-report t height h ∙ sym (absent-header t height h)
  | inr (block, h) ↦ absurd (false≢true (sym missing ∙ found-some t height block h))
]

pub hit-evidence :
    (now : Time) (e : BuiltReport) (v : ArchiveVersion)
    → is_hit false now e v ≡ (e.evidence == v.evidence)
hit-evidence now e v = ground arith

pub serve-absent :
    (allow : Bool) (now : Time) (entry : Option BuiltReport) (v : ArchiveVersion)
    → v.header.found ≡ false
    → serve allow now entry v ≡ some v.header
unfolding serve
serve-absent allow now entry v h = ground (arith, h)

serve-none :
    (allow : Bool) (now : Time) (v : ArchiveVersion)
    → v.header.found ≡ true
    → serve allow now none v ≡ none
unfolding serve
serve-none allow now v h = ground (arith, h)

pub serve-hit :
    (allow : Bool) (now : Time) (e : BuiltReport) (v : ArchiveVersion)
    → v.header.found ≡ true
    → is_hit allow now e v ≡ true
    → serve allow now (some e) v ≡ some (with_catalogue e v)
unfolding serve
serve-hit allow now e v h hit = ground (arith, h, hit)

pub serve-miss :
    (allow : Bool) (now : Time) (e : BuiltReport) (v : ArchiveVersion)
    → v.header.found ≡ true
    → is_hit allow now e v ≡ false
    → serve allow now (some e) v ≡ none
unfolding serve
serve-miss allow now e v h miss = ground (arith, h, miss)

pub version-header :
    (t : Tracker) (height : ℤ)
    → (investigation_version t height).header ≡ investigation_header t height
unfolding investigation_version
version-header t height = refl

pub build_report-report :
    (now : Time) (t : Tracker) (height : ℤ)
    → (build_report now t height).report ≡ block_investigation t height
unfolding build_report block_investigation
build_report-report now t height = refl

pub build_report-evidence :
    (now : Time) (t : Tracker) (height : ℤ)
    → (build_report now t height).evidence ≡ (investigation_version t height).evidence
unfolding build_report capture_investigation
build_report-evidence now t height = refl

evidence-same : (m n : ℕ) → (m == n) ≡ true → n ≡ m
evidence-same m n h = ground (arith, h)

chosen : (b : Bool) (r : BlockInvestigation) → b ≡ true → some r ≡ (if b then some r else none)
chosen b r h = rw h refl

unchosen : (b : Bool) (r : BlockInvestigation) → b ≡ false → none ≡ (if b then some r else none)
unchosen b r h = rw h refl

abbrev framed : InvestigationRetention → String → BlockInvestigation → BlockInvestigation
framed retention status report = record report { retention = retention; status = status }

module _ (fl : Floats) (cfg : Config) (before after : List (Time × Call)) (height : ℤ)
    (built now : Time) where
  abbrev pub then_tracker : Tracker
  then_tracker = run fl before (new cfg)

  abbrev pub now_tracker : Tracker
  now_tracker = run fl after then_tracker

  pub served_as_found :
      length after < 144115188075855872
      → (block_investigation then_tracker height).found ≡ true
      → (investigation_version now_tracker height).header.found ≡ true
      → ((build_report built then_tracker height).evidence
          == (investigation_version now_tracker height).evidence)
        ≡ true
      → with_catalogue
          (build_report built then_tracker height)
          (investigation_version now_tracker height)
        ≡ block_investigation now_tracker height
  served_as_found few found found' same =
      let status = ap (λ h. h.status) (version-header now_tracker height) in
      let retention =
        ap (λ h. h.retention) (version-header now_tracker height)
        ∙ header-retention now_tracker height in
      let evidence = evidence-same _ _ same ∙ build_report-evidence built then_tracker height in
      let fresh =
        run-block_investigation fl cfg before after height few
          (report-found then_tracker height found)
          (sym (ap (λ h. h.found) (version-header now_tracker height)) ∙ found') evidence in
      let v : ArchiveVersion = investigation_version now_tracker height in
      ap (framed v.header.retention v.header.status) (build_report-report built then_tracker height)
      ∙ ap (λ r. framed r v.header.status (block_investigation then_tracker height)) retention
      ∙ ap (λ s. framed (retention_of now_tracker) s (block_investigation then_tracker height))
          status
      ∙ sym fresh

  -- Let a report on a height be built at one point of a history of calls on a new tracker, and let it
  -- find the height. At a later point, fewer than 2^57 calls after it, a request that does not accept
  -- coalesced reports is served without a build exactly if the height is not retained or its evidence
  -- version is that of the entry, and it is then served the report that a build would give at that
  -- point, in every field.
  pub serve_fresh :
      length after < 144115188075855872
      → (block_investigation then_tracker height).found ≡ true
      → let v = investigation_version now_tracker height in
        let e = build_report built then_tracker height in
        serve false now (some e) v ≡ (
          if not v.header.found || e.evidence == v.evidence
          then some (block_investigation now_tracker height)
          else none)
  serve_fresh few found =
      let v : ArchiveVersion = investigation_version now_tracker height in
      let e : BuiltReport = build_report built then_tracker height in
      let fresh : BlockInvestigation = block_investigation now_tracker height in
      let header : v.header ≡ investigation_header now_tracker height =
        version-header now_tracker height in
      elim (Bool-cases v.header.found) [
        | inr missing ↦
            serve-absent false now (some e) v missing
            ∙ ap some (
                header
                ∙ sym (
                    not_found-report now_tracker height (sym (ap (λ h. h.found) header) ∙ missing)))
            ∙ chosen (not v.header.found || e.evidence == v.evidence) fresh
                (ground (arith, missing))
        | inl found' ↦ elim (Bool-cases (e.evidence == v.evidence)) [
          | inl same ↦
              serve-hit false now e v found' (hit-evidence now e v ∙ same)
              ∙ ap some (served_as_found few found found' same)
              ∙ chosen (not v.header.found || e.evidence == v.evidence) fresh (ground (arith, same))
          | inr other ↦
              serve-miss false now e v found' (hit-evidence now e v ∙ other)
              ∙ unchosen (not v.header.found || e.evidence == v.evidence) fresh
                  (ground (arith, found', other))
        ]
      ]
