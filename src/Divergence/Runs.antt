-- ===== src/Divergence/Runs.antt =====
-- Any history of calls on the tracker of internal/divergence, from a new one on.

use cmt_top.Base.{
  ◌≤◌, ◌≡◌, refl, subst, inl, inr, true, List, [], ◌∷◌, arith, String, String_eq, Bool-cases,
  length,
}
use cmt_top.Base.{leb as nat_leb}
use cmt_top.Base.Int.{ℤ, leb, ltb}
use cmt_top.Base.Maps.{Map, lookup, AllOf-map_values, length-map_values}
use cmt_top.State.Types.{Time}
use cmt_top.Divergence.Types.{
  VoteType, VoteEvent, ValidatorPower, InvestigationVote, Config, ArchivedRound, ArchivedHeight,
  Tracker, RoundData, Floats,
}
use cmt_top.Divergence.Archive.{is_some}
use cmt_top.Divergence.Votes.{archive_commit, unknown_voters, observe_vote, observe_round}
use cmt_top.Divergence.Validators.{
  new, has_no_roster, set_roster, set_block_validators, set_validators,
}
use cmt_top.Divergence.Tracker.{is_observed, ingest_into, ingest_vote}
use cmt_top.Divergence.Resolve.{mark_round_advanced, resolve_commit}
use cmt_top.Divergence.Bounds.{IsRoundBounded, IsBlockBounded, IsRetained, IsBounded}
use cmt_top.Divergence.VoteBounds.{
  observe_vote-IsBounded, observe_round-IsBounded, archive_commit-IsBounded,
}

-- The calls of the tracker that change it.
pub data Call : Type 0 where
  set_validators_call : List ValidatorPower → Call
  observe_round_call : ℤ → ℤ → String → Call
  observe_vote_call ingest_vote_call : VoteEvent → Call
  mark_round_advanced_call : ℤ → ℤ → Call
  resolve_commit_call : ℤ → String → Call

unknown_voters-le :
    (m : Map String ValidatorPower) (votes : Map String (Map VoteType InvestigationVote))
    → unknown_voters m votes ≤ unknown_voters [] votes
unfolding unknown_voters lookup
unknown_voters-le m [] = omega arith
unknown_voters-le m ((a, q) ∷ votes) = ground (arith, unknown_voters-le m votes)

empty_of_no_roster : (rd : ArchivedRound) → has_no_roster rd ≡ true → rd.roster ≡ []
empty_of_no_roster rd h = go rd.roster h
  where
    go : (l : Map String ValidatorPower) → nat_leb (length l) 0 ≡ true → l ≡ []
    go [] k = refl
    go (x ∷ l) k = absurd (ground arith)

set_roster-IsRoundBounded :
    (m : Map String ValidatorPower) (number : ℤ) (rd : ArchivedRound)
    → IsRoundBounded number rd
    → IsRoundBounded number (set_roster m rd)
unfolding set_roster
set_roster-IsRoundBounded m number rd b = elim (Bool-cases (has_no_roster rd)) [
  | inr has ↦ simp has b
  | inl no_roster ↦ simp no_roster (record {
    at_number = b.at_number;
    few_unknown = omega (
      arith,
      unknown_voters-le m rd.votes,
      subst (λ r. unknown_voters r rd.votes ≤ 64) (empty_of_no_roster rd no_roster) b.few_unknown,
    );
    votes_bounded = b.votes_bounded;
  })
]

set_block_validators-IsBlockBounded :
    (m : Map String ValidatorPower) (height : ℤ) (block : ArchivedHeight)
    → IsBlockBounded height block
    → IsBlockBounded height (set_block_validators m block)
unfolding set_block_validators
set_block_validators-IsBlockBounded m height block b = record {
  at_height = b.at_height;
  few_rounds = rw (length-map_values (set_roster m) block.rounds) b.few_rounds;
  rounds_bounded =
      AllOf-map_values IsRoundBounded IsRoundBounded (set_roster m) block.rounds
        (set_roster-IsRoundBounded m) b.rounds_bounded;
}

pub set_validators-IsBounded :
    (t : Tracker) (vs : List ValidatorPower) → IsBounded t → IsBounded (set_validators t vs)
unfolding set_validators
set_validators-IsBounded t vs b = record {
  few_heights = rw (length-map_values (set_block_validators _) t.archive) b.few_heights;
  blocks_bounded =
      AllOf-map_values IsBlockBounded IsBlockBounded (set_block_validators _) t.archive
        (set_block_validators-IsBlockBounded _) b.blocks_bounded;
  retained =
      AllOf-map_values (λ n _. IsRetained t n) (λ n _. IsRetained t n) (set_block_validators _)
        t.archive (λ n x k. k) b.retained;
}

pub mark_round_advanced-IsBounded :
    (t : Tracker) (height round : ℤ) → IsBounded t → IsBounded (mark_round_advanced t height round)
unfolding mark_round_advanced
mark_round_advanced-IsBounded t height round b = record {
  few_heights = b.few_heights;
  blocks_bounded = b.blocks_bounded;
  retained = b.retained;
}

pub new-IsBounded : (cfg : Config) → IsBounded (new cfg)
unfolding new
new-IsBounded cfg = record { few_heights = ground arith; blocks_bounded = tt; retained = tt }

module _ (fl : Floats) where
  unfoldable pub step : Time → Call → Tracker → Tracker
  step now (set_validators_call vs) t = set_validators t vs
  step now (observe_round_call height round proposer) t = observe_round now t height round proposer
  step now (observe_vote_call v) t = observe_vote now t v
  step now (ingest_vote_call v) t = (ingest_vote fl now t v).0
  step now (mark_round_advanced_call height round) t = mark_round_advanced t height round
  step now (resolve_commit_call height hash) t = (resolve_commit fl now t height hash).0

  unfoldable pub run : List (Time × Call) → Tracker → Tracker
  run [] t = t
  run ((now, call) ∷ calls) t = run calls (step now call t)

  ingest_into-IsBounded :
      (t : Tracker) (v : VoteEvent) (rd : RoundData)
      → IsBounded t
      → IsBounded (ingest_into fl t v rd).0
  unfolding ingest_into
  ingest_into-IsBounded t v rd b = elim (Bool-cases (is_some (lookup v.validator_addr rd.seen))) [
    | inl dup ↦ rw dup (record {
      few_heights = b.few_heights;
      blocks_bounded = b.blocks_bounded;
      retained = b.retained;
    })
    | inr new ↦ rw new (record {
      few_heights = b.few_heights;
      blocks_bounded = b.blocks_bounded;
      retained = b.retained;
    })
  ]

  pub ingest_vote-IsBounded :
      (now : Time) (t : Tracker) (v : VoteEvent)
      → IsBounded t
      → IsBounded (ingest_vote fl now t v).0
  unfolding ingest_vote
  ingest_vote-IsBounded now t v b =
      let t' = observe_vote now t v in
      let b' = observe_vote-IsBounded now t v b in
      elim (Bool-cases (is_observed t' v)) [
        | inr lost ↦ rw lost b'
        | inl seen ↦ elim (Bool-cases (leb v.height t'.committed_height)) [
          | inl late ↦ rw (seen, late) b'
          | inr live ↦ rw (seen, live) (ingest_into-IsBounded t' v _ b')
        ]
      ]

  pub resolve_commit-IsBounded :
      (now : Time) (t : Tracker) (height : ℤ) (hash : String)
      → IsBounded t
      → IsBounded (resolve_commit fl now t height hash).0
  unfolding resolve_commit
  resolve_commit-IsBounded now t height hash b =
      let b' = archive_commit-IsBounded now t height hash b in
      elim (Bool-cases (ltb (archive_commit now t height hash).committed_height height)) [
        | inl up ↦ rw up (record {
          few_heights = b'.few_heights;
          blocks_bounded = b'.blocks_bounded;
          retained = b'.retained;
        })
        | inr same ↦ rw same (record {
          few_heights = b'.few_heights;
          blocks_bounded = b'.blocks_bounded;
          retained = b'.retained;
        })
      ]

  pub step-IsBounded :
      (now : Time) (call : Call) (t : Tracker) → IsBounded t → IsBounded (step now call t)
  unfolding step
  step-IsBounded now (set_validators_call vs) t b = set_validators-IsBounded t vs b
  step-IsBounded now (observe_round_call height round proposer) t b =
      observe_round-IsBounded now t height round proposer b
  step-IsBounded now (observe_vote_call v) t b = observe_vote-IsBounded now t v b
  step-IsBounded now (ingest_vote_call v) t b = ingest_vote-IsBounded now t v b
  step-IsBounded now (mark_round_advanced_call height round) t b =
      mark_round_advanced-IsBounded t height round b
  step-IsBounded now (resolve_commit_call height hash) t b =
      resolve_commit-IsBounded now t height hash b

  pub run-IsBounded :
      (calls : List (Time × Call)) (t : Tracker) → IsBounded t → IsBounded (run calls t)
  unfolding run
  run-IsBounded [] t b = b
  run-IsBounded ((now, call) ∷ calls) t b =
      run-IsBounded calls (step now call t) (step-IsBounded now call t b)

  -- After any history of calls on a new tracker, at any times and with any arguments: the archive
  -- has at most as many heights as the configuration retains, all above those that were evicted and
  -- above zero; a height has at most 128 rounds, a round at most 64 voters without a place in its
  -- roster, a voter at most 4 hashes in a phase, and it is marked as conflicting exactly if it has
  -- more than one.
  pub run-new-IsBounded :
      (cfg : Config) (calls : List (Time × Call)) → IsBounded (run calls (new cfg))
  run-new-IsBounded cfg calls = run-IsBounded calls (new cfg) (new-IsBounded cfg)
