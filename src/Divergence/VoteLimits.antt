-- ===== src/Divergence/VoteLimits.antt =====
-- A vote keeps the limits of its round in internal/divergence/archive.go.
use mathlib.Core.Option
use cmt_top.Base.{
  ◌+◌, ◌≤◌, ◌≡◌, refl, sym, subst, ◌∙◌, ◌⊎◌, inl, inr, true, [], ◌∷◌, ◌++◌, none, some, arith,
  String, String_eq, ℕ_eq, if◌then◌else◌, Bool-cases, Option-cases, length, length-append,
}
use cmt_top.Base.{ltb as nat_ltb, leb as nat_leb}
use cmt_top.Base.Int.{ℤ, ℤ_eq}
use cmt_top.Base.Maps.{Map, lookup, insert, AllOf, AllOf-lookup, AllOf-insert}
use text.Mathlib.TextEquality.{eq_iff}
use cmt_top.State.Types.{Time}
use cmt_top.Divergence.Types.{VoteType, VoteEvent, ValidatorPower, InvestigationVote, ArchivedRound}
use cmt_top.Divergence.Archive.{
  is_some, investigation_hash_limit, investigation_unknown_validator_limit,
}
use cmt_top.Divergence.Votes.{
  unknown_voters, admit_vote, record_vote, new_vote, new_hash, has_hash, store_vote,
}
use cmt_top.Divergence.Resend.{record-some, record-none, record-over, is_over_limit}
use cmt_top.Divergence.Bounds.{IsVoteBounded, PhasesBounded, IsRoundBounded}

module _ (roster : Map String ValidatorPower) (addr : String)
    (x : Map VoteType InvestigationVote) where
  unknown_voters-insert_old :
      (votes : Map String (Map VoteType InvestigationVote)) (p : Map VoteType InvestigationVote)
      → lookup addr votes ≡ some p
      → unknown_voters roster (insert addr x votes) ≡ unknown_voters roster votes
  unfolding unknown_voters lookup insert
  unknown_voters-insert_old [] p h = cc
  unknown_voters-insert_old ((a, q) ∷ votes) p h =
      ground (arith, eq_iff a addr, unknown_voters-insert_old votes p)

  unknown_voters-insert_new :
      (votes : Map String (Map VoteType InvestigationVote))
      → lookup addr votes ≡ none
      → unknown_voters roster (insert addr x votes)
        ≡ unknown_voters roster votes + (if is_some (lookup addr roster) then 0 else 1)
  unfolding unknown_voters lookup insert
  unknown_voters-insert_new [] h = ground arith
  unknown_voters-insert_new ((a, q) ∷ votes) h =
      ground (arith, eq_iff a addr, unknown_voters-insert_new votes)

slot-IsVoteBounded :
    (v : VoteEvent) (phases : Map VoteType InvestigationVote)
    → PhasesBounded phases
    → IsVoteBounded (Option.get_or (lookup v.type phases) new_vote)
slot-IsVoteBounded v phases b = elim (Option-cases (lookup v.type phases)) [
  | inl e ↦ rw e (record { few_hashes = omega arith; conflict = refl })
  | inr (vote, e) ↦ rw e (AllOf-lookup (λ _ w. IsVoteBounded w) v.type vote phases b e)
]

abbrev VotesBounded : Map String (Map VoteType InvestigationVote) → Type 0
VotesBounded votes = AllOf (λ _ phases. PhasesBounded phases) votes

store_vote-bounded :
    (v : VoteEvent) (rd : ArchivedRound) (phases : Map VoteType InvestigationVote)
    (vote : InvestigationVote)
    → PhasesBounded phases
    → IsVoteBounded vote
    → VotesBounded rd.votes
    → VotesBounded (store_vote v phases vote rd).votes
store_vote-bounded v rd phases vote p b r =
    AllOf-insert (λ _ q. PhasesBounded q) v.validator_addr (insert v.type vote phases) rd.votes
      (AllOf-insert (λ _ w. IsVoteBounded w) v.type vote phases b p) r

-- What an admission does to the votes: nothing, or a bounded slot is stored.
admit_vote-stores :
    (now : Time) (v : VoteEvent) (rd : ArchivedRound) (phases : Map VoteType InvestigationVote)
    → PhasesBounded phases
    → let rd' = (admit_vote now v rd phases).0 in
      (rd'.round ≡ rd.round)
      × (rd'.roster ≡ rd.roster)
      × ((rd'.votes ≡ rd.votes)
          ⊎ ((vote : InvestigationVote) × IsVoteBounded vote
              × (rd'.votes ≡ (store_vote v phases vote rd).votes)))
unfolding admit_vote
admit_vote-stores now v rd phases p =
    let vote = Option.get_or (lookup v.type phases) new_vote in
    let b = slot-IsVoteBounded v phases p in
    elim (Bool-cases (has_hash v.block_id_hash vote.hashes)) [
      | inl known ↦ rw known (refl, refl, inl refl)
      | inr fresh ↦ elim (Bool-cases (nat_leb investigation_hash_limit (length vote.hashes))) [
        | inl full ↦
            rw (fresh, full)
              (
                refl,
                refl,
                inr (
                  record vote { truncated = true; conflicting = true },
                  record { few_hashes = b.few_hashes; conflict = ground arith },
                  refl,
                ),
              )
        | inr room ↦
            rw (fresh, room)
              (
                refl,
                refl,
                inr (
                  record vote {
                    hashes = vote.hashes ++ new_hash now v ∷ [];
                    conflicting = nat_ltb 1 (length (vote.hashes ++ new_hash now v ∷ []));
                  },
                  record {
                    few_hashes = ground (arith, length-append vote.hashes (new_hash now v ∷ []));
                    conflict = refl;
                  },
                  refl,
                ),
              )
      ]
    ]

module _ (now : Time) (v : VoteEvent) (number : ℤ) (rd : ArchivedRound)
    (b : IsRoundBounded number rd) where
  admit-IsRoundBounded :
      (phases : Map VoteType InvestigationVote)
      → PhasesBounded phases
      → ((x : Map VoteType InvestigationVote)
          → unknown_voters rd.roster (insert v.validator_addr x rd.votes)
            ≤ investigation_unknown_validator_limit)
      → IsRoundBounded number (admit_vote now v rd phases).0
  admit-IsRoundBounded phases p few =
      let rd' = (admit_vote now v rd phases).0 in
      let (at, same, stored) = admit_vote-stores now v rd phases p in
      elim stored [
        | inl e ↦ record {
          at_number = at ∙ b.at_number;
          few_unknown = rw (same, e) b.few_unknown;
          votes_bounded = rw e b.votes_bounded;
        }
        | inr (vote, k, e) ↦ record {
          at_number = at ∙ b.at_number;
          few_unknown = rw (same, e) (few (insert v.type vote phases));
          votes_bounded = rw e (store_vote-bounded v rd phases vote p k b.votes_bounded);
        }
      ]

  pub record_vote-IsRoundBounded : IsRoundBounded number (record_vote now v rd).0
  record_vote-IsRoundBounded = elim (Option-cases (lookup v.validator_addr rd.votes)) [
    | inr (phases, h) ↦
        subst (λ r. IsRoundBounded number r.0) (sym (record-some now v rd phases h))
          (admit-IsRoundBounded phases
            (AllOf-lookup (λ _ q. PhasesBounded q) v.validator_addr phases rd.votes b.votes_bounded
              h)
            (λ x.
              rw (unknown_voters-insert_old rd.roster v.validator_addr x rd.votes phases h)
                b.few_unknown))
    | inl h ↦ elim (Bool-cases (is_over_limit v rd)) [
      | inl over ↦
          subst (λ r. IsRoundBounded number r) (sym (record-over now v rd h over))
            (record {
              at_number = b.at_number;
              few_unknown = b.few_unknown;
              votes_bounded = b.votes_bounded;
            })
      | inr room ↦
          subst (λ r. IsRoundBounded number r.0) (sym (record-none now v rd h room))
            (admit-IsRoundBounded [] tt (λ x.
              rw (unknown_voters-insert_new rd.roster v.validator_addr x rd.votes h)
                (ground (arith, b.few_unknown, room))))
    ]
  ]
