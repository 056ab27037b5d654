-- ===== src/Web/Reports/Settled.antt =====
-- internal/web/rounds_cache.go: what a report that the cache serves shares with the height's header, also where it is coalesced.
use mathlib.Core.Bool.{false≢true}
use cmt_top.Base.{
  ◌<◌, ◌≡◌, refl, sym, ap, ◌∙◌, subst, inl, inr, ◌⊎◌, Bool, true, false, String, List, [], ◌∷◌,
  Option, none, some, ◌==◌, String_eq, ℕ_eq, length, arith, Bool-cases,
}
use cmt_top.Base.Int.{ℤ, ℤ_eq}
use cmt_top.Base.Maps.{Map, lookup}
use cmt_top.State.Types.{Time}
use cmt_top.Divergence.Types.{Tracker, Floats, Config, ArchivedHeight, ArchivedRound}
use cmt_top.Divergence.Runs.{Call}
use cmt_top.Divergence.Snapshot.{
  BlockInvestigation, ArchiveVersion, investigation_version, capture_investigation, add_rounds,
  build, block_investigation,
}
use cmt_top.Web.Reports.{
  BuiltReport, build_report, bool_eq, can_coalesce, with_catalogue, is_hit, serve, serve-absent,
  serve-hit, serve-miss, served_as_found, then_tracker, now_tracker,
}

-- A report says what the header says of the commit, the evicted rounds and the tracker.
pub record IsSettledAs (header report : BlockInvestigation) : Type 0 where
  pub same_committed : report.committed ≡ header.committed
  pub same_hash : report.canonical_hash ≡ header.canonical_hash
  pub same_evicted : report.coverage.rounds_evicted ≡ header.coverage.rounds_evicted
  pub same_status : report.status ≡ header.status
  pub same_retention : report.retention ≡ header.retention

IsSettledAs-refl : (r : BlockInvestigation) → IsSettledAs r r
IsSettledAs-refl r = record {
  same_committed = refl;
  same_hash = refl;
  same_evicted = refl;
  same_status = refl;
  same_retention = refl;
}

add_rounds-IsSettledAs :
    (canonical : String) (committed : Bool) (rounds : Map ℤ ArchivedRound)
    (header out : BlockInvestigation)
    → IsSettledAs header out
    → IsSettledAs header (add_rounds canonical committed rounds out)
unfolding add_rounds
add_rounds-IsSettledAs canonical committed [] header out s = s
add_rounds-IsSettledAs canonical committed ((_, rd) ∷ rounds) header out s =
    add_rounds-IsSettledAs canonical committed rounds header _ (record {
      same_committed = s.same_committed;
      same_hash = s.same_hash;
      same_evicted = s.same_evicted;
      same_status = s.same_status;
      same_retention = s.same_retention;
    })

built-IsSettledAs :
    (v : ArchiveVersion) (block : Option ArchivedHeight)
    → IsSettledAs v.header (build (record { version = v; block = block }))
unfolding build
built-IsSettledAs v none = record {
  same_committed = refl;
  same_hash = refl;
  same_evicted = refl;
  same_status = refl;
  same_retention = refl;
}
built-IsSettledAs v (some block) =
    let out : BlockInvestigation = record (v.header) { rounds = [] } in
    let s =
      add_rounds-IsSettledAs block.canonical_hash block.committed block.rounds v.header out
        (record {
          same_committed = refl;
          same_hash = refl;
          same_evicted = refl;
          same_status = refl;
          same_retention = refl;
        }) in
    record {
      same_committed = s.same_committed;
      same_hash = s.same_hash;
      same_evicted = s.same_evicted;
      same_status = s.same_status;
      same_retention = s.same_retention;
    }

bool_eq_sound : (a b : Bool) → bool_eq a b ≡ true → a ≡ b
bool_eq_sound true b h = sym h
bool_eq_sound false true h = absurd (false≢true h)
bool_eq_sound false false h = refl

coalesced-IsSettledAs :
    (now : Time) (e : BuiltReport) (v : ArchiveVersion)
    → can_coalesce now e v ≡ true
    → IsSettledAs v.header (with_catalogue e v)
unfolding can_coalesce
coalesced-IsSettledAs now e v h = record {
  same_committed = bool_eq_sound e.report.committed v.header.committed (ground (arith, h));
  same_hash =
      (String_eq.decides e.report.canonical_hash v.header.canonical_hash).0 (ground (arith, h));
  same_evicted =
      (ℕ_eq.decides e.report.coverage.rounds_evicted v.header.coverage.rounds_evicted).0
        (ground (arith, h));
  same_status = refl;
  same_retention = refl;
}

hit-cases :
    (allow : Bool) (now : Time) (e : BuiltReport) (v : ArchiveVersion)
    → is_hit allow now e v ≡ true
    → ((e.evidence == v.evidence) ≡ true) ⊎ (can_coalesce now e v ≡ true)
hit-cases allow now e v h = ground (arith, h)

some-same : (r r' : BlockInvestigation) → some r ≡ some r' → r ≡ r'
some-same r r' h =
    let get : Option BlockInvestigation → BlockInvestigation =
      (λ o. elim o [ none ↦ r | some x ↦ x ]) in
    ap get h

no_report : (r : BlockInvestigation) → none ≡ some r → ⊥
no_report r h = ground (arith, h)

fresh-IsSettledAs :
    (t : Tracker) (height : ℤ)
    → IsSettledAs (investigation_version t height).header (block_investigation t height)
unfolding block_investigation capture_investigation
fresh-IsSettledAs t height =
    built-IsSettledAs (investigation_version t height) (lookup height t.archive)

module _ (fl : Floats) (cfg : Config) (before after : List (Time × Call)) (height : ℤ)
    (built now : Time) where
  -- Let a report on a height be built at one point of a history of calls on a new tracker, and let it
  -- find the height. A report that is served without a build at a later point, fewer than 2^57 calls
  -- after it, be it coalesced or not, has the commit, the canonical hash, the number of evicted rounds,
  -- the status and the retention that the tracker has at that later point.
  pub serve_settled :
      (allow : Bool) (report : BlockInvestigation)
      → let t = then_tracker fl cfg before after height built now in
        let v = investigation_version (now_tracker fl cfg before after height built now) height in
        length after < 144115188075855872
        → (block_investigation t height).found ≡ true
        → serve allow now (some (build_report built t height)) v ≡ some report
        → IsSettledAs v.header report
  serve_settled allow report few found served =
      let v : ArchiveVersion =
        investigation_version (now_tracker fl cfg before after height built now) height in
      let e : BuiltReport =
        build_report built (then_tracker fl cfg before after height built now) height in
      elim (Bool-cases v.header.found) [
        | inr missing ↦
            subst (IsSettledAs v.header)
              (some-same v.header report (sym (serve-absent allow now (some e) v missing) ∙ served))
              (IsSettledAs-refl v.header)
        | inl found' ↦ elim (Bool-cases (is_hit allow now e v)) [
          | inr miss ↦
              absurd (no_report report (sym (serve-miss allow now e v found' miss) ∙ served))
          | inl hit ↦
              subst (IsSettledAs v.header)
                (some-same (with_catalogue e v) report
                  (sym (serve-hit allow now e v found' hit) ∙ served))
                (elim (hit-cases allow now e v hit) [
                  | inr coalesced ↦ coalesced-IsSettledAs now e v coalesced
                  | inl same ↦
                      subst (IsSettledAs v.header)
                        (sym (
                          served_as_found fl cfg before after height built now few found found'
                            same))
                        (fresh-IsSettledAs (now_tracker fl cfg before after height built now)
                          height)
                ])
        ]
      ]
