-- ===== src/Core/Invariant.antt =====
-- What every transition of internal/core keeps of the state of internal/state.
use mathlib.Core.Option
use cmt_top.Base.{◌≡◌, refl, ◌⊎◌, inl, inr, List, Option, none, some, arith, String, Bool-cases}
use cmt_top.Base.Int.{ℤ, pos, ltb, max_int32, ◌≤ℤ◌, ◌<ℤ◌}
use cmt_top.State.Types.{Time, ValidatorWithVote, RoundView, BlockSample, StateData}
use cmt_top.Core.Transitions.{
  clear_round_votes, mark_proposer, is_stale, is_same_round, set_round, enter_round, advance_round,
  merge_validator_round, append_block,
}
use cmt_top.Core.Transitions.Blocks.{IsHistory, append_block-IsHistory}

-- The view is of the round at hand.
abbrev pub InSync : Option RoundView → ℤ → Type 0
InSync none round = Unit
InSync (some rv) round = rv.round ≡ round

-- The height is not known or is above every committed one, its round is in range and is the one of
-- the view, and the history is of rising heights and not too long.
pub record Sound (blocks : List BlockSample) (height round committed : ℤ)
    (last_round : Option RoundView) : Type 0 where
  pub history : IsHistory blocks
  pub is_open : (height ≡ pos 0) ⊎ (committed <ℤ height)
  pub committed_from_zero : pos 0 ≤ℤ committed
  pub from_zero : pos 0 ≤ℤ round
  pub in_range : round ≤ℤ max_int32
  pub in_sync : InSync last_round round

abbrev pub IsSound : StateData → Type 0
IsSound s = Sound s.blocks s.height s.round s.last_committed_height s.last_round

pub clear_round_votes-InSync :
    (o : Option RoundView) (round : ℤ) → InSync o round → InSync (clear_round_votes o) round
unfolding clear_round_votes
clear_round_votes-InSync none round h = tt
clear_round_votes-InSync (some rv) round h = h

pub set_round-InSync :
    (o : Option RoundView) (round : ℤ) → InSync (Option.map (set_round round) o) round
set_round-InSync none round = tt
set_round-InSync (some rv) round = refl

pub mark_proposer-InSync :
    (o : Option RoundView) (addr : String) (round : ℤ)
    → InSync o round
    → InSync (mark_proposer o addr) round
unfolding mark_proposer
mark_proposer-InSync none addr round h = tt
mark_proposer-InSync (some rv) addr round h = ground arith

pub advance_round-IsSound :
    (now : Time) (s : StateData) (height round step : ℤ)
    → IsSound s
    → IsSound (advance_round now s height round step).0
unfolding advance_round is_stale enter_round
advance_round-IsSound now s height round step b = elim (Bool-cases (is_stale s height round)) [
  | inl stale ↦ rw stale b
  | inr taken ↦ elim (Bool-cases (is_same_round s height round)) [
    | inl same ↦ elim (Bool-cases (ltb s.step step)) [
      | inl later ↦ rw (taken, same, later) b
      | inr held ↦ rw (taken, same, held) b
    ]
    | inr moved ↦
        rw (taken, moved)
          (record {
            history = b.history;
            is_open = inr (ground arith);
            committed_from_zero = b.committed_from_zero;
            from_zero = ground arith;
            in_range = ground arith;
            in_sync = set_round-InSync (clear_round_votes s.last_round) round;
          })
  ]
]

pub append_block-keeps :
    (s : StateData) (b : BlockSample)
    → ((append_block s b).height ≡ s.height)
      × ((append_block s b).round ≡ s.round)
      × ((append_block s b).last_committed_height ≡ s.last_committed_height)
      × ((append_block s b).last_round ≡ s.last_round)
unfolding append_block
append_block-keeps s b = ground arith

pub append_block-IsSound :
    (s : StateData) (b : BlockSample) → IsSound s → IsSound (append_block s b)
append_block-IsSound s b h =
    let k = append_block-keeps s b in
    rw (k.0, k.1, k.2, k.3)
      (record {
        history = append_block-IsHistory s b h.history;
        is_open = h.is_open;
        committed_from_zero = h.committed_from_zero;
        from_zero = h.from_zero;
        in_range = h.in_range;
        in_sync = h.in_sync;
      })

pub merge_validator_round-IsSound :
    (s : StateData) (rows : List ValidatorWithVote) (total height : ℤ)
    → IsSound s
    → IsSound (merge_validator_round s rows total height).0
unfolding merge_validator_round
merge_validator_round-IsSound s rows total height b =
    elim (Bool-cases (ltb height s.validator_height)) [
      | inl old ↦ rw old b
      | inr new ↦ rw new (record {
        history = b.history;
        is_open = b.is_open;
        committed_from_zero = b.committed_from_zero;
        from_zero = b.from_zero;
        in_range = b.in_range;
        in_sync = refl;
      })
    ]
