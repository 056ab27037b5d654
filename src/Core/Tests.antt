-- ===== src/Core/Tests.antt =====
-- The orchestrator of internal/core at concrete inputs.
use cmt_top.Base.{
  ◌≡◌, refl, ◌⊎◌, inl, true, false, List, [], ◌∷◌, String, none, some, last?, arith, ◌==◌,
  String_eq, if◌then◌else◌,
}
use cmt_top.Base.Int.{ℤ, pos, pos_part, ◌≤ℤ◌, ◌<ℤ◌}
use cmt_top.State.Types.{Time, vote_for_block, Vote, ValidatorWithVote, BlockSample, StateData}
use cmt_top.State.Health.{new_state}
use cmt_top.Divergence.Types.{Config, Floats, prevote}
use cmt_top.Core.Transitions.{
  empty_vote, empty_round_vote, advance_round, merge_validator_round, append_block,
}
use cmt_top.Core.Transitions.Rounds.{Advances, advance_round-Advances}
use cmt_top.Core.Transitions.Blocks.{
  IsTimed, IsHistory, append_block-IsHistory, append_block_newest,
}
use cmt_top.Core.Transitions.Rows.{Merges, merge_validator_round_votes}
use cmt_top.Core.Notices.{Texts, new_block_event, new_round_event, vote_event}
use cmt_top.Core.Handlers.{vote_rows}
use cmt_top.Core.Votes.{Lacks, HasCast, Kept, Takes, vote_rows-Kept}
use cmt_top.Core.Replies.{Reply, answered, refused, Library, StatusReply, BlockReply}
use cmt_top.Core.Inputs.{
  Input, heard, status_answer, validators_answer, consensus_answer, handle_all,
}
use cmt_top.Core.Validity.{IsValid}
use cmt_top.Core.Soundness.{start, handle_all-start-IsValid}
use cmt_top.Core.Comparison.{distinct, compare}
use cmt_top.Core.Offers.{reference_of}
use cmt_top.Core.Agreement.{Explains, compare-Explains}

abbrev no_floats : Floats
no_floats = record { of_int64 = pos_part; mul = λ a b. a; div = λ a b. a; geb = λ a b. true }

abbrev same_texts : Texts
same_texts = record { to_upper = λ s. s; to_lower = λ s. s }

abbrev three_parts : Library
three_parts = record {
  split = λ s sep. s ∷ s ∷ s ∷ [];
  parse_int = λ s. some (pos 3);
  share = λ a b. 0;
}

abbrev ten_percent : Config
ten_percent = record { threshold_pct = 10; history_size = pos 2; include_prevotes = false }

abbrev chain_status : StatusReply
chain_status = record {
  network = "chain";
  version = "1";
  moniker = "node";
  address = "A";
  catching_up = false;
  latest_height = pos 5;
  latest_block_time = 100;
}

abbrev chain_block : BlockReply
chain_block = record {
  height = pos 5;
  chain_id = "chain";
  time = 100;
  block_id_hash = "x";
  app_hash = "h";
  num_txs = 1;
}

abbrev some_inputs : List (Time × Input)
some_inputs =
    (200, status_answer (answered chain_status "rpc") (answered chain_block "rpc"))
    ∷ (
      210,
      validators_answer
          (answered (record { address = "A"; voting_power = pos 9 } ∷ [], pos 5) "rpc")
          (refused "none"),
    )
    ∷ (215, consensus_answer (answered "6/0/1" "rpc"))
    ∷ (
      220,
      heard (
          new_round_event (record {
            height = pos 6;
            round = pos 1;
            step = "RoundStepPropose";
            proposer_address = "A";
          })),
    )
    ∷ (
      230,
      heard (
          vote_event (record {
            type = prevote;
            height = pos 6;
            round = pos 1;
            block_id_hash = "y";
            timestamp = 7;
            validator_address = "A";
          })),
    )
    ∷ (
      240,
      heard (
          new_block_event (record {
            height = pos 6;
            time = 230;
            proposer_address = "A";
            app_hash = "g";
            block_id_hash = "y";
            num_txs = 0;
          })),
    )
    ∷ []

handle_all-start-IsValid_example :
    IsValid (handle_all no_floats same_texts three_parts some_inputs (start 1 ten_percent))
handle_all-start-IsValid_example =
    handle_all-start-IsValid no_floats same_texts three_parts 1 ten_percent some_inputs
      (tt, (tt, (tt, (tt, (tt, (ground arith, tt))))))

abbrev block_at : ℤ → Time → BlockSample
block_at height time = record {
  height = height;
  time = time;
  block_id_hash = "x";
  app_hash = "h";
  num_txs = 0;
  block_time_ms = pos 0;
}

abbrev two_blocks : StateData
two_blocks = record (new_state 1) { blocks = block_at (pos 3) 100 ∷ block_at (pos 4) 200 ∷ [] }

two_blocks-IsHistory : IsHistory two_blocks.blocks
two_blocks-IsHistory = record { rising = ground arith; bounded = ground arith }

append_block-IsHistory_example : IsHistory (append_block two_blocks (block_at (pos 5) 300)).blocks
append_block-IsHistory_example =
    append_block-IsHistory two_blocks (block_at (pos 5) 300) two_blocks-IsHistory

append_block_newest_example :
    ((pos 5 ≤ℤ pos 4) × (append_block two_blocks (block_at (pos 5) 300) ≡ two_blocks))
    ⊎ ((pos 4 <ℤ pos 5)
        × (kept : BlockSample) × (last? (append_block two_blocks (block_at (pos 5) 300)).blocks
            ≡ some kept)
        × IsTimed (block_at (pos 4) 200) (block_at (pos 5) 300) kept)
append_block_newest_example =
    append_block_newest two_blocks (block_at (pos 4) 200) (block_at (pos 5) 300) refl

advance_round-Advances_example :
    Advances 9 two_blocks
      (advance_round 9 two_blocks (pos 5) (pos 0) (pos 1))
      (pos 5)
      (pos 0)
      (pos 1)
advance_round-Advances_example = advance_round-Advances 9 two_blocks (pos 5) (pos 0) (pos 1)

abbrev first_vote : Vote
first_vote = record { kind = vote_for_block; block_id_hash = "x"; timestamp = 4 }

abbrev row_of : String → Vote → ValidatorWithVote
row_of addr vote = record {
  validator = record { address = addr; index = 0; voting_power = pos 9; voting_power_percent = 0 };
  round_vote = record empty_round_vote { address = addr; prevote = vote };
  chain_validator = none;
}

abbrev with_view : StateData
with_view = record (new_state 1) {
  last_round = some (record {
    round = pos 0;
    validators = row_of "A" first_vote ∷ row_of "B" empty_vote ∷ [];
    total_vp = pos 18;
  });
  validator_height = pos 4;
}

abbrev swapped_rows : List ValidatorWithVote
swapped_rows = row_of "B" empty_vote ∷ row_of "A" empty_vote ∷ []

merge_validator_round_votes_example :
    ((pos 5 <ℤ pos 4)
      × (merge_validator_round with_view swapped_rows (pos 18) (pos 5) ≡ (with_view, false)))
    ⊎ ((pos 4 ≤ℤ pos 5)
        × ((merge_validator_round with_view swapped_rows (pos 18) (pos 5)).1 ≡ true)
        × Merges with_view
            (merge_validator_round with_view swapped_rows (pos 18) (pos 5)).0
            swapped_rows
            (pos 18)
            (pos 5))
merge_validator_round_votes_example =
    merge_validator_round_votes with_view swapped_rows (pos 18) (pos 5)

abbrev two_rows : List ValidatorWithVote
two_rows = row_of "A" first_vote ∷ row_of "B" empty_vote ∷ []

vote_rows-Kept_example :
    Kept two_rows (vote_rows prevote "B" first_vote two_rows).0
    × (((vote_rows prevote "B" first_vote two_rows).1 ≡ true)
          × Lacks prevote "B" two_rows
          × Takes prevote "B" first_vote (vote_rows prevote "B" first_vote two_rows).0
        ⊎ (((vote_rows prevote "B" first_vote two_rows).1 ≡ false)
            × HasCast prevote "B" two_rows
            × ((vote_rows prevote "B" first_vote two_rows).0 ≡ two_rows)))
vote_rows-Kept_example = vote_rows-Kept prevote "B" first_vote two_rows (inl refl)

abbrev status_of : String → Reply StatusReply
status_of url = answered chain_status url

abbrev block_of : String → Reply BlockReply
block_of url = answered (record chain_block { app_hash = if url == "b" then "g" else "h" }) url

compare-Explains_example :
    Explains status_of block_of
      (reference_of (status_of "a") (block_of "a"))
      (distinct ("a" ∷ []) ("a" ∷ "b" ∷ []))
      (compare 9 status_of block_of "a" ("a" ∷ "b" ∷ []))
compare-Explains_example = compare-Explains status_of block_of 9 "a" ("a" ∷ "b" ∷ [])
