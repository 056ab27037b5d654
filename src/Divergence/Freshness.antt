-- ===== src/Divergence/Freshness.antt =====
-- internal/divergence/archive_snapshot.go: no evidence changes under an evidence version that stays.
use Prim.Native.String.{len}
use cmt_top.Base.{
  refl, ap, ◌∙◌, inl, inr, not, ◌&&◌, ◌||◌, String, List, [], Option, none, some, ◌==◌, String_eq,
  arith, Bool-cases, Option-cases,
}
use cmt_top.Base.{ltb as nat_ltb}
use cmt_top.Base.Int.{ℤ, ℤ_eq}
use cmt_top.Base.Maps.{lookup, lookup-map_values, AllOf-lookup}
use cmt_top.State.Types.{Time}
use cmt_top.Divergence.Types.{VoteEvent, ValidatorPower, ArchivedRound, ArchivedHeight, Tracker}
use cmt_top.Divergence.Archive.{investigation_identity_limit, create_archive_height, archive_height}
use cmt_top.Divergence.Votes.{
  set_proposer, round_from, find_round, is_unfit, observe_round, is_malformed, record_vote,
  put_round, put_vote, observe_vote, commit_block, archive_commit,
}
use cmt_top.Divergence.Validators.{set_block_validators, set_validators, by_address}
use cmt_top.Divergence.Find.{ReachesBlock, archive_height-ReachesBlock}
use cmt_top.Divergence.Bounds.{
  IsBlockBounded, IsRetained, IsBounded, create_archive_height-IsBounded,
}
use cmt_top.Divergence.Idempotence.{count_effect_lem}
use cmt_top.Divergence.VoteBounds.{
  IsBounded-IsKeyed, FindsBounded, find_round-FindsBounded, find_round-IsBounded, HasBlock,
  create_archive_height-HasBlock, observe_vote-IsBounded, observe_round-IsBounded,
  archive_commit-IsBounded,
}
use cmt_top.Divergence.Revision.{
  IsAdvanced-once, record_vote-IsAdvanced, set_block_validators-IsAdvanced,
}
use cmt_top.Divergence.Versions.{
  Follows, Follows-refl, Follows-trans, IsAbove, put_block-Follows, create_archive_height-Follows,
  archive_height-Follows, archive_round-Follows,
}

pub IsBounded-IsAbove : (t : Tracker) → IsBounded t → IsAbove t
IsBounded-IsAbove t b height block h =
    (AllOf-lookup (λ n _. IsRetained t n) height block t.archive b.retained h).1

round_from-Follows :
    (now : Time) (height round : ℤ) (r : Tracker × Option ArchivedHeight)
    → ReachesBlock height r
    → Follows 1 r.0 (round_from now round r).0
unfolding round_from
round_from-Follows now height round (t, none) f = Follows-refl 1 t t refl refl
round_from-Follows now height round (t, some block) f =
    archive_round-Follows now t height round block f.1 f.2.0

find_round-Follows :
    (now : Time) (t : Tracker) (height round : ℤ)
    → IsBounded t
    → Follows 1 t (find_round now t height round).0
find_round-Follows now t height round b =
    Follows-trans 0 1 t (archive_height now t height).0 (find_round now t height round).0
      (IsBounded-IsAbove _ (find_round-IsBounded now t height round b))
      (archive_height-Follows now t height)
      (round_from-Follows now height round (archive_height now t height)
        (archive_height-ReachesBlock now t height (IsBounded-IsKeyed t b)))

put_vote-Follows :
    (now : Time) (v : VoteEvent) (r : Tracker × Option (ArchivedHeight × ArchivedRound))
    → FindsBounded v.height v.round r
    → Follows 1 r.0 (put_vote now v r)
unfolding put_vote
put_vote-Follows now v (t, none) k = Follows-refl 1 t t refl refl
put_vote-Follows now v (t, some (block, rd)) (k, f) =
    put_block-Follows 1 t v.height block _ f.has_block
      ((count_effect_lem now (record_vote now v rd).1 (put_round (record_vote now v rd).0 block)).0
        ∙ f.at_height)
      (record_vote-IsAdvanced now v block rd
        (ap (λ n. lookup n block.rounds) f.at_round ∙ f.has_round))

pub observe_vote-Follows :
    (now : Time) (t : Tracker) (v : VoteEvent) → IsBounded t → Follows 2 t (observe_vote now t v)
unfolding observe_vote
observe_vote-Follows now t v b = elim (Bool-cases (is_malformed v)) [
  | inl bad ↦ rw bad (Follows-refl 2 t t refl refl)
  | inr good ↦ rw good (
      Follows-trans 1 1 t (find_round now t v.height v.round).0
        (put_vote now v (find_round now t v.height v.round))
        (IsBounded-IsAbove _ (rw good at (observe_vote-IsBounded now t v b)))
        (find_round-Follows now t v.height v.round b)
        (put_vote-Follows now v (find_round now t v.height v.round)
          (find_round-FindsBounded now t v.height v.round b)))
]

set_proposer-Follows :
    (now : Time) (proposer : String) (height round : ℤ)
    (r : Tracker × Option (ArchivedHeight × ArchivedRound))
    → FindsBounded height round r
    → Follows 1 r.0 (set_proposer now proposer r)
unfolding set_proposer
set_proposer-Follows now proposer height round (t, none) k = Follows-refl 1 t t refl refl
set_proposer-Follows now proposer height round (t, some (block, rd)) (k, f) =
    elim (Bool-cases (not (proposer == "") && not (rd.proposer == proposer))) [
      | inr same ↦ rw same (Follows-refl 1 t t refl refl)
      | inl new ↦ rw new (
          put_block-Follows 1 t height block _ f.has_block f.at_height
            (IsAdvanced-once 1 block _ (omega arith) refl))
    ]

pub observe_round-Follows :
    (now : Time) (t : Tracker) (height round : ℤ) (proposer : String)
    → IsBounded t
    → Follows 2 t (observe_round now t height round proposer)
unfolding observe_round
observe_round-Follows now t height round proposer b =
    elim (Bool-cases (is_unfit height round proposer)) [
      | inl bad ↦ rw bad (Follows-refl 2 t t refl refl)
      | inr good ↦ rw good (
          Follows-trans 1 1 t (find_round now t height round).0
            (set_proposer now proposer (find_round now t height round))
            (IsBounded-IsAbove _
              (rw good at (observe_round-IsBounded now t height round proposer b)))
            (find_round-Follows now t height round b)
            (set_proposer-Follows now proposer height round (find_round now t height round)
              (find_round-FindsBounded now t height round b)))
    ]

commit_block-Follows :
    (now : Time) (hash : String) (height : ℤ) (r : Tracker × Option ArchivedHeight)
    → IsBounded r.0
    → HasBlock height r
    → Follows 1 r.0 (commit_block now hash r)
unfolding commit_block
commit_block-Follows now hash height (t, none) b f = Follows-refl 1 t t refl refl
commit_block-Follows now hash height (t, some block) b f =
    let old = AllOf-lookup IsBlockBounded height block t.archive b.blocks_bounded f in
    elim (Bool-cases (not block.committed || (block.canonical_hash == "" && not (hash == "")))) [
      | inr done ↦ rw done (Follows-refl 1 t t refl refl)
      | inl new ↦ rw new (
          put_block-Follows 1 t height block _ f old.at_height
            (IsAdvanced-once 1 block _ (omega arith) refl))
    ]

pub archive_commit-Follows :
    (now : Time) (t : Tracker) (height : ℤ) (hash : String)
    → IsBounded t
    → Follows 1 t (archive_commit now t height hash)
unfolding archive_commit
archive_commit-Follows now t height hash b =
    elim (Bool-cases (nat_ltb investigation_identity_limit (len hash))) [
      | inl long ↦ rw long (Follows-refl 1 t t refl refl)
      | inr fits ↦ rw fits (
          Follows-trans 0 1 t (create_archive_height now t height).0
            (commit_block now hash (create_archive_height now t height))
            (IsBounded-IsAbove _ (rw fits at (archive_commit-IsBounded now t height hash b)))
            (create_archive_height-Follows now t height)
            (commit_block-Follows now hash height (create_archive_height now t height)
              (create_archive_height-IsBounded now t height b)
              (create_archive_height-HasBlock now t height)))
    ]

pub set_validators-Follows :
    (t : Tracker) (vs : List ValidatorPower) → IsBounded t → Follows 128 t (set_validators t vs)
unfolding set_validators
set_validators-Follows t vs b =
    let set : ArchivedHeight → ArchivedHeight = set_block_validators (by_address vs []) in
    record {
      rises = omega arith;
      at = λ height.
          rw (lookup-map_values set height t.archive)
            (elim (Option-cases (lookup height t.archive)) [
              | inl e ↦ rw e tt
              | inr (block, e) ↦ rw e (
                  set_block_validators-IsAdvanced (by_address vs []) 128 block
                    (AllOf-lookup IsBlockBounded height block t.archive b.blocks_bounded
                      e).few_rounds)
            ]);
    }
