-- ===== src/Divergence/VoteBounds.antt =====
-- Every observation keeps the archive of internal/divergence/archive.go within its bounds.

use Prim.Native.String.{len}
use cmt_top.Base.{
  ◌≡◌, refl, sym, subst, ap, ◌∙◌, inl, inr, not, ◌&&◌, ◌||◌, Option, none, some, ◌==◌, String,
  String_eq, ℕ_eq, Bool-cases, Option-cases,
}
use cmt_top.Base.{ltb as nat_ltb}
use cmt_top.Base.Int.{ℤ, ℤ_eq}
use cmt_top.Base.Maps.{
  lookup, insert, AllOf, AllOf-lookup, AllOf-insert, AllOf-map, length-insert_old,
}
use cmt_top.State.Types.{Time}
use cmt_top.Divergence.Types.{VoteEvent, ArchivedRound, ArchivedHeight, Tracker}
use cmt_top.Divergence.Archive.{
  is_closed, put_block, create_archive_height, archive_height, add_height,
  investigation_identity_limit,
}
use cmt_top.Divergence.Votes.{
  put_round, is_malformed, is_unfit, find_round, round_from, record_vote, put_vote, observe_vote,
  set_proposer, observe_round, commit_block, archive_commit,
}
use cmt_top.Divergence.Find.{
  IsKeyed, RoundAt, BlockAt, Found, Reaches, ReachesBlock, archive_height-ReachesBlock,
  find_round-Reaches,
}
use cmt_top.Divergence.Idempotence.{count_effect_lem}
use cmt_top.Divergence.Bounds.{
  IsRoundBounded, IsBlockBounded, IsBounded, create_archive_height-IsBounded,
  archive_height-IsBounded, put_block-IsBounded, archive_round-IsBounded,
}
use cmt_top.Divergence.VoteLimits.{record_vote-IsRoundBounded}

pub IsBounded-IsKeyed : (t : Tracker) → IsBounded t → IsKeyed t
IsBounded-IsKeyed t b =
    AllOf-map IsBlockBounded BlockAt t.archive
      (λ height block k. (
        k.at_height,
        AllOf-map IsRoundBounded RoundAt block.rounds (λ n rd r. r.at_number) k.rounds_bounded,
      ))
      b.blocks_bounded

-- The block and the round of an observation, in a tracker that is still bounded.
abbrev pub FindsBounded : ℤ → ℤ → Tracker × Option (ArchivedHeight × ArchivedRound) → Type 0
FindsBounded height round (t, none) = IsBounded t
FindsBounded height round (t, some (block, rd)) = IsBounded t × Found t height round block rd

with_Found :
    (height round : ℤ) (r : Tracker × Option (ArchivedHeight × ArchivedRound))
    → IsBounded r.0
    → Reaches height round r
    → FindsBounded height round r
with_Found height round (t, none) b f = b
with_Found height round (t, some (block, rd)) b f = (b, f)

pub find_round-IsBounded :
    (now : Time) (t : Tracker) (height round : ℤ)
    → IsBounded t
    → IsBounded (find_round now t height round).0
unfolding round_from
find_round-IsBounded now t height round b =
    go (archive_height now t height) (archive_height-IsBounded now t height b)
      (archive_height-ReachesBlock now t height (IsBounded-IsKeyed t b))
  where
    go :
        (r : Tracker × Option ArchivedHeight)
        → IsBounded r.0
        → ReachesBlock height r
        → IsBounded (round_from now round r).0
    go (t', none) k f = k
    go (t', some block) k f = archive_round-IsBounded now t' height round block f.1 k

pub find_round-FindsBounded :
    (now : Time) (t : Tracker) (height round : ℤ)
    → IsBounded t
    → FindsBounded height round (find_round now t height round)
find_round-FindsBounded now t height round b =
    with_Found height round (find_round now t height round)
      (find_round-IsBounded now t height round b)
      (find_round-Reaches now t height round (IsBounded-IsKeyed t b))

-- A bounded round that is put back into its block, whatever the block's counters become.
put_round-IsBounded :
    (t : Tracker) (height round : ℤ) (block b : ArchivedHeight) (rd rd' : ArchivedRound)
    → IsBounded t
    → Found t height round block rd
    → b.height ≡ block.height
    → b.rounds ≡ insert rd'.round rd' block.rounds
    → IsRoundBounded round rd'
    → IsBounded (put_block b t)
put_round-IsBounded t height round block b rd rd' k f h r d =
    let old = AllOf-lookup IsBlockBounded height block t.archive k.blocks_bounded f.has_block in
    let rounds : b.rounds ≡ insert round rd' block.rounds =
      r ∙ ap (λ n. insert n rd' block.rounds) d.at_number in
    put_block-IsBounded t height block b f.has_block
      (record {
        at_height = h ∙ f.at_height;
        few_rounds =
            rw (rounds, length-insert_old round rd' rd block.rounds f.has_round) old.few_rounds;
        rounds_bounded =
            subst (AllOf IsRoundBounded) (sym rounds)
              (AllOf-insert IsRoundBounded round rd' block.rounds d old.rounds_bounded);
      })
      k

round_of :
    (t : Tracker) (height round : ℤ) (block : ArchivedHeight) (rd : ArchivedRound)
    → IsBounded t
    → Found t height round block rd
    → IsRoundBounded round rd
round_of t height round block rd k f =
    AllOf-lookup IsRoundBounded round rd block.rounds
      (AllOf-lookup IsBlockBounded height block t.archive k.blocks_bounded
        f.has_block).rounds_bounded
      f.has_round

put_vote-IsBounded :
    (now : Time) (v : VoteEvent) (r : Tracker × Option (ArchivedHeight × ArchivedRound))
    → FindsBounded v.height v.round r
    → IsBounded (put_vote now v r)
unfolding put_vote
put_vote-IsBounded now v (t, none) k = k
put_vote-IsBounded now v (t, some (block, rd)) (k, f) =
    let rd' = (record_vote now v rd).0 in
    let e = count_effect_lem now (record_vote now v rd).1 (put_round rd' block) in
    put_round-IsBounded t v.height v.round block _ rd rd' k f e.0 e.1
      (record_vote-IsRoundBounded now v v.round rd (round_of t v.height v.round block rd k f))

pub observe_vote-IsBounded :
    (now : Time) (t : Tracker) (v : VoteEvent) → IsBounded t → IsBounded (observe_vote now t v)
unfolding observe_vote
observe_vote-IsBounded now t v b = elim (Bool-cases (is_malformed v)) [
  | inl bad ↦ rw bad b
  | inr good ↦
      rw good (put_vote-IsBounded now v _ (find_round-FindsBounded now t v.height v.round b))
]

set_proposer-IsBounded :
    (now : Time) (proposer : String) (height round : ℤ)
    (r : Tracker × Option (ArchivedHeight × ArchivedRound))
    → FindsBounded height round r
    → IsBounded (set_proposer now proposer r)
unfolding set_proposer
set_proposer-IsBounded now proposer height round (t, none) k = k
set_proposer-IsBounded now proposer height round (t, some (block, rd)) (k, f) =
    let d = round_of t height round block rd k f in
    let rd' = record rd { proposer = proposer; last_seen_at = now } in
    elim (Bool-cases (not (proposer == "") && not (rd.proposer == proposer))) [
      | inr same ↦ rw same k
      | inl new ↦ rw new (
          put_round-IsBounded t height round block _ rd rd' k f refl refl (record {
            at_number = d.at_number;
            few_unknown = d.few_unknown;
            votes_bounded = d.votes_bounded;
          }))
    ]

pub observe_round-IsBounded :
    (now : Time) (t : Tracker) (height round : ℤ) (proposer : String)
    → IsBounded t
    → IsBounded (observe_round now t height round proposer)
unfolding observe_round
observe_round-IsBounded now t height round proposer b =
    elim (Bool-cases (is_unfit height round proposer)) [
      | inl bad ↦ rw bad b
      | inr good ↦ rw good (
          set_proposer-IsBounded now proposer height round _
            (find_round-FindsBounded now t height round b))
    ]

abbrev pub HasBlock : ℤ → Tracker × Option ArchivedHeight → Type 0
HasBlock height (t, none) = Unit
HasBlock height (t, some block) = lookup height t.archive ≡ some block

pub create_archive_height-HasBlock :
    (now : Time) (t : Tracker) (height : ℤ) → HasBlock height (create_archive_height now t height)
unfolding create_archive_height
create_archive_height-HasBlock now t height = elim (Bool-cases (is_closed t height)) [
  | inl c ↦ rw c tt
  | inr c ↦ elim (Option-cases (lookup height t.archive)) [
    | inr (block, h) ↦ rw (c, h) h
    | inl h ↦ elim (Option-cases (lookup height (add_height now height t).archive)) [
      | inl e ↦ rw (c, h, e) tt
      | inr (block, e) ↦ rw (c, h, e) e
    ]
  ]
]

commit_block-IsBounded :
    (now : Time) (hash : String) (height : ℤ) (r : Tracker × Option ArchivedHeight)
    → IsBounded r.0
    → HasBlock height r
    → IsBounded (commit_block now hash r)
unfolding commit_block
commit_block-IsBounded now hash height (t, none) k f = k
commit_block-IsBounded now hash height (t, some block) k f =
    let old = AllOf-lookup IsBlockBounded height block t.archive k.blocks_bounded f in
    elim (Bool-cases (not block.committed || (block.canonical_hash == "" && not (hash == "")))) [
      | inr done ↦ rw done k
      | inl new ↦ rw new (
          put_block-IsBounded t height block _ f
            (record {
              at_height = old.at_height;
              few_rounds = old.few_rounds;
              rounds_bounded = old.rounds_bounded;
            })
            k)
    ]

pub archive_commit-IsBounded :
    (now : Time) (t : Tracker) (height : ℤ) (hash : String)
    → IsBounded t
    → IsBounded (archive_commit now t height hash)
unfolding archive_commit
archive_commit-IsBounded now t height hash b =
    elim (Bool-cases (nat_ltb investigation_identity_limit (len hash))) [
      | inl long ↦ rw long b
      | inr fits ↦ rw fits (
          commit_block-IsBounded now hash height (create_archive_height now t height)
            (create_archive_height-IsBounded now t height b)
            (create_archive_height-HasBlock now t height))
    ]
