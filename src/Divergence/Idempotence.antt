-- ===== src/Divergence/Idempotence.antt =====
-- A vote that is delivered twice leaves the archive of internal/divergence/archive.go as one does.

use cmt_top.Base.{
  ◌≡◌, sym, ap, ◌∙◌, inl, inr, false, ◌||◌, Option, none, some, arith, String_eq, ℕ_eq, Bool-cases,
  subst,
}
use cmt_top.Base.Int.{ℤ, pos, leb, ltb, ℤ_eq}
use cmt_top.Base.Maps.{lookup, insert, lookup-insert_self, insert_same}
use cmt_top.State.Types.{Time}
use cmt_top.Divergence.Types.{VoteEvent, ArchivedRound, ArchivedHeight, Tracker}
use cmt_top.Divergence.Archive.{put_block}
use cmt_top.Divergence.Votes.{
  put_round, find_round, is_malformed, VoteEffect, admit_vote, record_vote, count_effect, put_vote,
  observe_vote,
}
use cmt_top.Divergence.Find.{IsKeyed, Found, Found-find_round, Reaches, find_round-Reaches}
use cmt_top.Divergence.Resend.{record_twice}

pub record_vote-round :
    (now : Time) (v : VoteEvent) (rd : ArchivedRound) → (record_vote now v rd).0.round ≡ rd.round
unfolding record_vote admit_vote
record_vote-round now v rd = ground arith

pub count_effect_lem :
    (now : Time) (effect : VoteEffect) (block : ArchivedHeight)
    → let b = count_effect now effect block in
      (b.height ≡ block.height)
      × (b.rounds ≡ block.rounds)
      × (b.evicted_through ≡ block.evicted_through)
unfolding count_effect
count_effect_lem now effect block = ground arith

-- A block that is put back over its own place is found there.
put-Found :
    (t : Tracker) (height round : ℤ) (block b : ArchivedHeight) (rd rd' : ArchivedRound)
    → Found t height round block rd
    → b.height ≡ block.height
    → b.rounds ≡ insert rd'.round rd' block.rounds
    → b.evicted_through ≡ block.evicted_through
    → rd'.round ≡ rd.round
    → Found (put_block b t) height round b rd'
put-Found t height round block b rd rd' f h r o n = record {
  is_open = f.is_open;
  has_block =
      subst (λ k. lookup height (insert k b t.archive) ≡ some b) (sym (h ∙ f.at_height))
        (lookup-insert_self height b t.archive);
  at_height = h ∙ f.at_height;
  in_range = subst (λ k. (ltb round (pos 0) || leb round k) ≡ false) (sym o) f.in_range;
  has_round =
      subst (λ m. lookup round m ≡ some rd')
        (sym (r ∙ ap (λ k. insert k rd' block.rounds) (n ∙ f.at_round)))
        (lookup-insert_self round rd' block.rounds);
  at_round = n ∙ f.at_round;
}

put_again :
    (t : Tracker) (height round : ℤ) (b : ArchivedHeight) (rd : ArchivedRound)
    → Found t height round b rd
    → put_block (put_round rd b) t ≡ t
put_again t height round b rd f =
    let same : put_round rd b ≡ b =
      ap (λ m. record b { rounds = m })
        (insert_same rd.round rd b.rounds
          (subst (λ k. lookup k b.rounds ≡ some rd) (sym f.at_round) f.has_round)) in
    ap (λ x. put_block x t) same
    ∙ ap (λ m. record t { archive = m })
        (insert_same b.height b t.archive
          (subst (λ k. lookup k t.archive ≡ some b) (sym f.at_height) f.has_block))

put_vote_twice :
    (now later : Time) (v : VoteEvent) (r : Tracker × Option (ArchivedHeight × ArchivedRound))
    → Reaches v.height v.round r
    → put_vote later v (find_round later (put_vote now v r) v.height v.round) ≡ put_vote now v r
unfolding put_vote count_effect
put_vote_twice now later v (t, none) stays = rw (stays later)
put_vote_twice now later v (t, some (block, rd)) f =
    let rd' = (record_vote now v rd).0 in
    let effect = (record_vote now v rd).1 in
    let b = count_effect now effect (put_round rd' block) in
    let (h, r, o) = count_effect_lem now effect (put_round rd' block) in
    let f' = put-Found t v.height v.round block b rd rd' f h r o (record_vote-round now v rd) in
    ap (put_vote later v) (Found-find_round later (put_block b t) v.height v.round b rd' f')
    ∙ ap (λ x. put_block (count_effect later x.1 (put_round x.0 b)) (put_block b t))
        (record_twice now later v rd)
    ∙ put_again (put_block b t) v.height v.round b rd' f'

-- The archive after a vote is the archive after the same vote is delivered again, at any later time:
-- timestamps, revisions, limits and evictions included.
pub observe_vote_twice :
    (now later : Time) (t : Tracker) (v : VoteEvent)
    → IsKeyed t
    → observe_vote later (observe_vote now t v) v ≡ observe_vote now t v
unfolding observe_vote
observe_vote_twice now later t v keyed = elim (Bool-cases (is_malformed v)) [
  | inl bad ↦ rw bad
  | inr good ↦
      rw good (put_vote_twice now later v _ (find_round-Reaches now t v.height v.round keyed))
]
