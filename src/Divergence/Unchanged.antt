-- ===== src/Divergence/Unchanged.antt =====
-- internal/divergence/archive_snapshot.go: two reports on a height with one evidence version, at any
-- two points of a history of calls on the tracker of tracker.go.
use cmt_top.Base.{
  ℕ, ◌+◌, ◌*◌, ◌≤◌, ◌<◌, ◌≡◌, refl, sym, ap, ◌∙◌, inl, inr, Bool, true, String, List, [], ◌∷◌,
  Option, none, some, String_eq, arith, Option-cases, length,
}
use cmt_top.Base.Int.{ℤ, ℤ_eq}
use cmt_top.Base.Maps.{Map, lookup}
use cmt_top.State.Types.{Time}
use cmt_top.Divergence.Types.{VoteEvent, ArchivedHeight, ArchivedRound, Tracker, Floats, Config}
use cmt_top.Divergence.Votes.{observe_vote, archive_commit}
use cmt_top.Divergence.Validators.{new}
use cmt_top.Divergence.Tracker.{ingest_into, ingest_vote}
use cmt_top.Divergence.Resolve.{mark_round_advanced, resolve_commit}
use cmt_top.Divergence.Runs.{
  Call, set_validators_call, observe_round_call, observe_vote_call, ingest_vote_call,
  mark_round_advanced_call, resolve_commit_call, step, run, step-IsBounded, run-IsBounded,
  new-IsBounded,
}
use cmt_top.Divergence.Bounds.{IsBounded}
use cmt_top.Divergence.Snapshot.{
  BlockInvestigation, retention_of, InvestigationRetention, add_rounds, sort_rounds,
  retained_header, absent_header, status_of, investigation_header, investigation_version,
  capture_investigation, build, block_investigation,
}
use cmt_top.Divergence.Revision.{IsAdvanced, IsAdvanced-same}
use cmt_top.Divergence.Versions.{FollowsAt, Follows, Follows-refl, Follows-trans}
use cmt_top.Divergence.Freshness.{
  IsBounded-IsAbove, observe_vote-Follows, observe_round-Follows, archive_commit-Follows,
  set_validators-Follows,
}

FollowsAt-weaken :
    (n m : ℕ) (evicted height : ℤ) (a b : Option ArchivedHeight)
    → n ≤ m
    → FollowsAt n evicted height a b
    → FollowsAt m evicted height a b
FollowsAt-weaken n m evicted height none b l f = tt
FollowsAt-weaken n m evicted height (some a) none l f = f
FollowsAt-weaken n m evicted height (some a) (some b) l (inl e) = inl e
FollowsAt-weaken n m evicted height (some a) (some b) l (inr (k, p, q, r)) =
    inr (k, p, omega arith, r)

Follows-weaken : (n m : ℕ) (t t' : Tracker) → n ≤ m → Follows n t t' → Follows m t t'
Follows-weaken n m t t' l f = record {
  rises = f.rises;
  at = λ height.
      FollowsAt-weaken n m t'.archive_evicted_through height (lookup height t.archive)
        (lookup height t'.archive) l (f.at height);
}

-- A report under another status and retention.
abbrev reframed : String → InvestigationRetention → BlockInvestigation → BlockInvestigation
reframed status retention out = record out { status = status; retention = retention }

add_rounds-reframed :
    (canonical : String) (committed : Bool) (rounds : Map ℤ ArchivedRound) (status : String)
    (retention : InvestigationRetention) (out : BlockInvestigation)
    → add_rounds canonical committed rounds (reframed status retention out)
      ≡ reframed status retention (add_rounds canonical committed rounds out)
unfolding add_rounds
add_rounds-reframed canonical committed [] status retention out = refl
add_rounds-reframed canonical committed ((_, rd) ∷ rounds) status retention out =
    add_rounds-reframed canonical committed rounds status retention _

abbrev no_rounds : BlockInvestigation → BlockInvestigation
no_rounds out = record out { rounds = [] }

pub header_of_block :
    (t : Tracker) (height : ℤ) (block : ArchivedHeight)
    → lookup height t.archive ≡ some block
    → investigation_header t height ≡ retained_header t height block
unfolding investigation_header
header_of_block t height block e =
    let header : Option ArchivedHeight → BlockInvestigation = (λ found. elim found [
      | none ↦ absent_header t height
      | some b ↦ retained_header t height b
    ]) in
    ap header e

evidence_of_block :
    (t : Tracker) (height : ℤ) (block : ArchivedHeight)
    → lookup height t.archive ≡ some block
    → (investigation_version t height).evidence ≡ block.revision
unfolding investigation_version
evidence_of_block t height block e =
    let evidence : Option ArchivedHeight → ℕ =
      (λ found. elim found [ none ↦ 0 | some b ↦ b.revision ]) in
    ap evidence e

report_of_block :
    (t : Tracker) (height : ℤ) (block : ArchivedHeight)
    → lookup height t.archive ≡ some block
    → block_investigation t height
      ≡ sort_rounds (
          add_rounds block.canonical_hash block.committed block.rounds
            (retained_header t height block))
unfolding block_investigation build capture_investigation investigation_version
report_of_block t height block e =
    let filled : Option ArchivedHeight → BlockInvestigation =
      (λ found. build (record { version = investigation_version t height; block = found })) in
    ap filled e
    ∙ ap (λ h. sort_rounds (add_rounds block.canonical_hash block.committed block.rounds h))
        (ap no_rounds (header_of_block t height block e))

-- One block makes one report, whatever else the tracker holds, but for the status and the retention.
block_investigation-same :
    (t t' : Tracker) (height : ℤ) (block : ArchivedHeight)
    → lookup height t.archive ≡ some block
    → lookup height t'.archive ≡ some block
    → block_investigation t' height
      ≡ reframed (status_of t' height block) (retention_of t') (block_investigation t height)
block_investigation-same t t' height block e e' =
    report_of_block t' height block e'
    ∙ ap sort_rounds (
        add_rounds-reframed block.canonical_hash block.committed block.rounds
          (status_of t' height block) (retention_of t') (retained_header t height block))
    ∙ ap (reframed (status_of t' height block) (retention_of t'))
        (sym (report_of_block t height block e))

not_found :
    (t : Tracker) (height : ℤ)
    → lookup height t.archive ≡ none
    → (investigation_header t height).found ≡ true
    → ⊥
unfolding investigation_header
not_found t height e f = ground arith

block_of_found :
    (t : Tracker) (height : ℤ)
    → (investigation_header t height).found ≡ true
    → (block : ArchivedHeight) × (lookup height t.archive ≡ some block)
      × ((investigation_header t height).status ≡ status_of t height block)
      × ((investigation_version t height).evidence ≡ block.revision)
block_of_found t height f = elim (Option-cases (lookup height t.archive)) [
  | inl e ↦ absurd (not_found t height e f)
  | inr (block, e) ↦ (
    block,
    e,
    ap (λ h. h.status) (header_of_block t height block e),
    evidence_of_block t height block e,
  )
]

module _ (fl : Floats) where
  ingest_vote_archive :
      (now : Time) (t : Tracker) (v : VoteEvent)
      → ((ingest_vote fl now t v).0.archive ≡ (observe_vote now t v).archive)
        × ((ingest_vote fl now t v).0.archive_evicted_through
            ≡ (observe_vote now t v).archive_evicted_through)
  unfolding ingest_vote ingest_into
  ingest_vote_archive now t v = ground arith

  resolve_commit_archive :
      (now : Time) (t : Tracker) (height : ℤ) (hash : String)
      → ((resolve_commit fl now t height hash).0.archive
          ≡ (archive_commit now t height hash).archive)
        × ((resolve_commit fl now t height hash).0.archive_evicted_through
            ≡ (archive_commit now t height hash).archive_evicted_through)
  unfolding resolve_commit
  resolve_commit_archive now t height hash = ground arith

  same_archive :
      (n : ℕ) (t t' t'' : Tracker)
      → (t''.archive ≡ t'.archive) × (t''.archive_evicted_through ≡ t'.archive_evicted_through)
      → Follows n t t'
      → Follows n t t''
  same_archive n t t' t'' (a, e) f = record {
    rises = rw e f.rises;
    at = λ height. rw (a, e) (f.at height);
  }

  step-Follows :
      (now : Time) (call : Call) (t : Tracker) → IsBounded t → Follows 128 t (step fl now call t)
  unfolding step mark_round_advanced
  step-Follows now (set_validators_call vs) t b = set_validators-Follows t vs b
  step-Follows now (observe_round_call height round proposer) t b =
      Follows-weaken 2 128 t _ (omega arith) (observe_round-Follows now t height round proposer b)
  step-Follows now (observe_vote_call v) t b =
      Follows-weaken 2 128 t _ (omega arith) (observe_vote-Follows now t v b)
  step-Follows now (ingest_vote_call v) t b =
      same_archive 128 t (observe_vote now t v) _ (ingest_vote_archive now t v)
        (Follows-weaken 2 128 t _ (omega arith) (observe_vote-Follows now t v b))
  step-Follows now (mark_round_advanced_call height round) t b = Follows-refl 128 t _ refl refl
  step-Follows now (resolve_commit_call height hash) t b =
      same_archive 128 t (archive_commit now t height hash) _
        (resolve_commit_archive now t height hash)
        (Follows-weaken 1 128 t _ (omega arith) (archive_commit-Follows now t height hash b))

  run-Follows :
      (calls : List (Time × Call)) (t : Tracker)
      → IsBounded t
      → Follows (length calls * 128) t (run fl calls t)
  unfolding run
  run-Follows [] t b = Follows-refl 0 t t refl refl
  run-Follows ((now, call) ∷ calls) t b =
      let next = step fl now call t in
      let bounded = step-IsBounded fl now call t b in
      Follows-weaken (128 + length calls * 128) (length ((now, call) ∷ calls) * 128) t _
        (omega arith)
        (Follows-trans 128 (length calls * 128) t next (run fl calls next)
          (IsBounded-IsAbove _ (run-IsBounded fl calls next bounded)) (step-Follows now call t b)
          (run-Follows calls next bounded))

  -- Take any two points of a history of calls on a new tracker that are fewer than 2^57 calls apart.
  -- If a height is retained at both, with one evidence version, then the reports on it built at the
  -- two points are the same in everything but the status and the retention of other heights.
  pub run-block_investigation :
      (cfg : Config) (before after : List (Time × Call)) (height : ℤ)
      → length after < 144115188075855872
      → let t = run fl before (new cfg) in
        let t' = run fl after t in
        (investigation_header t height).found ≡ true
        → (investigation_header t' height).found ≡ true
        → (investigation_version t' height).evidence ≡ (investigation_version t height).evidence
        → block_investigation t' height ≡ record (block_investigation t height) {
          status = (investigation_header t' height).status;
          retention = retention_of t';
        }
  run-block_investigation cfg before after height few found found' e =
      let t = run fl before (new cfg) in
      let t' = run fl after t in
      let (old, h, s, r) = block_of_found t height found in
      let (block, h', s', r') = block_of_found t' height found' in
      let follows =
        (run-Follows after t (run-IsBounded fl before (new cfg) (new-IsBounded cfg))).at height in
      let advanced : IsAdvanced (length after * 128) old block = rw (h, h') at follows in
      let same : block ≡ old =
        IsAdvanced-same (length after * 128) old block (omega arith) advanced (sym r' ∙ e ∙ r) in
      block_investigation-same t t' height block (h ∙ ap some (sym same)) h'
      ∙ ap (λ status. reframed status (retention_of t') (block_investigation t height)) (sym s')
