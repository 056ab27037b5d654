-- ===== src/Core/Transitions.antt =====
-- internal/core/transitions.go, and the two helpers of orchestrator.go on the round view. The
-- functions that mutate `*state.StateData` return the new record; the clock is an argument.
pub mod Rounds
pub mod Blocks
pub mod Rows
use cmt_top.Base.{
  ◌/◌, Bool, true, false, not, ◌&&◌, ◌||◌, List, [], ◌∷◌, ◌++◌, map, Option, none, some, String,
  if◌then◌else◌, ◌==◌, keep_last, last?,
}
use cmt_top.Base.{ltb as nat_ltb}
use cmt_top.Base.Int.{ℤ, pos, pos_part, ltb, leb, eqb, add64, max_int32, ℤ_eq}
use cmt_top.Base.{String_eq}
use cmt_top.Base.Maps.{Map, lookup, insert}
use cmt_top.State.Types.{
  Time, time_sub, Vote, vote_absent, RoundVote, ValidatorWithVote, RoundView, BlockSample,
  block_history_limit, StateData,
}
use mathlib.Core.Option

-- `state.Vote{}`
abbrev pub empty_vote : Vote
empty_vote = record { kind = vote_absent; block_id_hash = ""; timestamp = 0 }

-- `state.RoundVote{}`
abbrev pub empty_round_vote : RoundVote
empty_round_vote = record {
  address = "";
  prevote = empty_vote;
  precommit = empty_vote;
  is_proposer = false;
}

unfoldable pub clear_row : ValidatorWithVote → ValidatorWithVote
clear_row row = record row {
  round_vote = record (row.round_vote) {
    prevote = empty_vote;
    precommit = empty_vote;
    is_proposer = false;
  };
}

unfoldable pub clear_round_votes : Option RoundView → Option RoundView
clear_round_votes none = none
clear_round_votes (some rv) = some (record rv { validators = map clear_row rv.validators })

unfoldable pub mark_row : String → ValidatorWithVote → ValidatorWithVote
mark_row addr row = record row {
  round_vote = record (row.round_vote) { is_proposer = row.validator.address == addr };
}

unfoldable pub mark_proposer : Option RoundView → String → Option RoundView
mark_proposer none addr = none
mark_proposer (some rv) addr =
    if addr == ""
    then some rv
    else some (record rv { validators = map (mark_row addr) rv.validators })

-- The guards of `advanceRound` that drop an observation.
unfoldable pub is_stale : StateData → ℤ → ℤ → Bool
is_stale s height round =
    leb height s.last_committed_height
    || ltb height s.height
    || ltb round (pos 0)
    || ltb max_int32 round
    || (eqb height s.height && ltb round s.round)

abbrev pub is_same_round : StateData → ℤ → ℤ → Bool
is_same_round s height round = eqb height s.height && eqb round s.round

abbrev pub set_round : ℤ → RoundView → RoundView
set_round round rv = record rv { round = round }

-- The move to another height or round: no vote of the old one stays.
unfoldable pub enter_round : Time → StateData → ℤ → ℤ → ℤ → StateData
enter_round now s height round step = record s {
  height = height;
  round = round;
  step = step;
  start_time = now;
  last_round = Option.map (set_round round) (clear_round_votes s.last_round);
}

unfoldable pub advance_round : Time → StateData → ℤ → ℤ → ℤ → StateData × Bool
advance_round now s height round step =
    if is_stale s height round
    then (s, false)
    else if not (is_same_round s height round)
    then (enter_round now s height round step, true)
    else if ltb s.step step
    then (record s { step = step }, true)
    else (s, true)

-- `previous`: the last vote row of each address, kept only if the view is of the current round.
unfoldable pub previous_votes : List ValidatorWithVote → Map String RoundVote → Map String RoundVote
previous_votes [] m = m
previous_votes (row ∷ rows) m = previous_votes rows (insert row.validator.address row.round_vote m)

unfoldable pub previous_of : StateData → Map String RoundVote
previous_of s = elim s.last_round [
  | none ↦ []
  | some rv ↦ if eqb rv.round s.round then previous_votes rv.validators [] else []
]

unfoldable pub merge_row : Map String RoundVote → ValidatorWithVote → ValidatorWithVote
merge_row previous row = record row {
  round_vote = record (Option.get_or (lookup row.validator.address previous) empty_round_vote) {
    address = row.validator.address;
  };
}

unfoldable pub merge_validator_round : StateData → List ValidatorWithVote → ℤ → ℤ → StateData × Bool
merge_validator_round s rows total height = if ltb height s.validator_height then (s, false) else (
  record s {
    last_round = some (record {
      round = s.round;
      validators = map (merge_row (previous_of s)) rows;
      total_vp = total;
    });
    validator_height = height;
  },
  true,
)

-- The sample with the time since the last block, if that is the one before it.
unfoldable pub with_block_time : BlockSample → BlockSample → BlockSample
with_block_time last sample =
    if eqb sample.height (add64 last.height (pos 1)) && nat_ltb last.time sample.time
    then record sample { block_time_ms = pos (pos_part (time_sub sample.time last.time) / 1000000) }
    else sample

unfoldable pub append_block : StateData → BlockSample → StateData
append_block s sample = elim (last? s.blocks) [
  | none ↦ record s { blocks = keep_last block_history_limit (s.blocks ++ sample ∷ []) }
  | some last ↦ if leb sample.height last.height then s else record s {
    blocks = keep_last block_history_limit (s.blocks ++ with_block_time last sample ∷ []);
  }
]

unfoldable pub record_http_success : Time → StateData → String → StateData
record_http_success now s endpoint = record s {
  active_rpc = endpoint;
  health = record (s.health) {
    http_endpoint = endpoint;
    last_http_at = now;
    last_success_at = now;
    last_error = if s.health.ws_connected then s.health.last_error else "";
  };
}
