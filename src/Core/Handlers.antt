-- ===== src/Core/Handlers.antt =====
-- internal/core/orchestrator.go: what the orchestrator does with an event of the websocket.
-- A handler reads the clock once. Upper and lower case are Go's, of the record `Texts`.
use cmt_top.Base.{
  Bool, true, false, not, ◌&&◌, ◌||◌, String, List, [], ◌∷◌, Option, none, some, ◌==◌, String_eq,
  ℕ_eq, if◌then◌else◌, any_of,
}
use cmt_top.Base.Int.{ℤ, pos, negsuc, ltb, leb, eqb, add64}
use cmt_top.State.Types.{
  Time, vote_absent, vote_for_block, vote_nil, vote_zero, Vote, RoundVote, ValidatorWithVote,
  RoundView, BlockSample, StateData,
}
use cmt_top.Divergence.Types.{VoteType, prevote, precommit, VoteEvent, RoundReport, Floats}
use cmt_top.Divergence.Votes.{observe_vote, observe_round}
use cmt_top.Divergence.Tracker.{ingest_vote}
use cmt_top.Divergence.Resolve.{mark_round_advanced, resolve_commit}
use cmt_top.Core.Notices.{
  new_block, round_changed, vote_received, divergence_detected, divergence_resolved, Orchestrator,
  Texts, NewBlockData, NewRoundData, VoteData, WsEvent, new_block_event, new_round_event,
  vote_event, validator_set_updates_event, step_from_string, publish, set_state, hear,
}
use cmt_top.Core.Transitions.{advance_round, append_block, mark_proposer}

-- Every divergent report is published.
unfoldable pub publish_resolved : List RoundReport → Orchestrator → Orchestrator
publish_resolved [] o = o
publish_resolved (r ∷ rs) o =
    publish_resolved rs (if r.is_divergent then publish (divergence_resolved r) o else o)

-- A height behind the committed one, or one that the history has, is refused.
unfoldable pub is_known_block : ℤ → StateData → Bool
is_known_block h s = ltb h s.last_committed_height || any_of (λ b. eqb b.height h) s.blocks

unfoldable pub commit_state : Time → BlockSample → StateData → StateData
commit_state now sample s =
    let s1 = record s {
      last_committed_height =
          if ltb s.last_committed_height sample.height
          then sample.height
          else s.last_committed_height;
    } in
    (advance_round now (append_block s1 sample) (add64 sample.height (pos 1)) (pos 0) (pos 1)).0

-- The first row of an address takes the first vote of a type; whether the vote is accepted.
unfoldable pub has_voted : VoteType → RoundVote → Bool
has_voted vt rv = elim (if vt == prevote then rv.prevote.kind else rv.precommit.kind) [
  | vote_absent ↦ false
  | vote_for_block ↦ true
  | vote_nil ↦ true
  | vote_zero ↦ true
]

unfoldable pub cast_vote : VoteType → Vote → RoundVote → RoundVote
cast_vote vt cell rv =
    if vt == prevote then record rv { prevote = cell } else record rv { precommit = cell }

unfoldable pub vote_rows :
    VoteType → String → Vote → List ValidatorWithVote → List ValidatorWithVote × Bool
vote_rows vt addr cell [] = ([], true)
vote_rows vt addr cell (row ∷ rows) =
    let (rest, ok) = vote_rows vt addr cell rows in
    if not (row.validator.address == addr)
    then (row ∷ rest, ok)
    else if has_voted vt row.round_vote
    then (row ∷ rows, false)
    else (record row { round_vote = cast_vote vt cell row.round_vote } ∷ rows, true)

-- A view that is not there takes every vote.
unfoldable pub vote_view : VoteType → String → Vote → Option RoundView → Option RoundView × Bool
vote_view vt addr cell none = (none, true)
vote_view vt addr cell (some rv) =
    let (rows, ok) = vote_rows vt addr cell rv.validators in
    (some (record rv { validators = rows }), ok)

unfoldable pub vote_state : Time → VoteType → ℤ → VoteEvent → Vote → StateData → StateData × Bool
vote_state now vt step v cell s =
    let (s', accepted) = advance_round now s v.height v.round step in
    let (view, ok) = vote_view vt v.validator_addr cell s'.last_round in
    if not accepted then (s', false) else (record s' { last_round = view }, ok)

module _ (fl : Floats) where
  unfoldable pub accept_vote : Time → VoteEvent → Orchestrator → Orchestrator
  accept_vote now v o =
      let (t, rep, trigger) = ingest_vote fl now o.tracker v in
      let notice =
        vote_received v.height v.round v.type v.validator_addr v.block_id_hash v.timestamp in
      let o' = publish notice (record o { tracker = t }) in
      if trigger then publish (divergence_detected rep) o' else o'

  unfoldable pub take_vote : Time → VoteEvent → Vote → ℤ → Orchestrator → Orchestrator
  take_vote now v cell step o =
      let (s, accepted) = vote_state now v.type step v cell o.state in
      let o1 = record (set_state now s o) { tracker = observe_vote now o.tracker v } in
      if accepted then accept_vote now v o1 else o1

module _ (fl : Floats) (tx : Texts) where
  open tx use {to_upper, to_lower}

  unfoldable pub handle_new_block : Time → NewBlockData → Orchestrator → Orchestrator
  handle_new_block now d o =
      let hash = to_lower d.block_id_hash in
      let app_hash = to_lower d.app_hash in
      let sample : BlockSample = record {
        height = d.height;
        time = d.time;
        block_id_hash = hash;
        app_hash = app_hash;
        num_txs = d.num_txs;
        block_time_ms = pos 0;
      } in
      if leb d.height (pos 0)
      then o
      else if is_known_block d.height o.state
      then set_state now o.state o
      else (let (tracker, resolved) = resolve_commit fl now o.tracker d.height hash in
          let o1 = record (set_state now (commit_state now sample o.state) o) {
            tracker = tracker;
          } in
          let notice =
            new_block d.height hash app_hash (to_upper d.proposer_address) d.time d.num_txs in
          publish_resolved resolved (publish notice o1))

  unfoldable pub handle_new_round : Time → NewRoundData → Orchestrator → Orchestrator
  handle_new_round now d o =
      let step = step_from_string d.step in
      let proposer = to_upper d.proposer_address in
      let (s, accepted) = advance_round now o.state d.height d.round step in
      if not accepted
      then set_state now s o
      else (let s' = record s { last_round = mark_proposer s.last_round proposer } in
          let t = observe_round now o.tracker d.height d.round proposer in
          let t' =
            if ltb (pos 0) d.round
            then mark_round_advanced t d.height (add64 d.round (negsuc 0))
            else t in
          publish (round_changed d.height d.round step s'.start_time proposer)
            (record (set_state now s' o) { tracker = t' }))

  unfoldable pub handle_vote : Time → VoteData → Orchestrator → Orchestrator
  handle_vote now d o =
      let hash = to_lower d.block_id_hash in
      let v : VoteEvent = record {
        height = d.height;
        round = d.round;
        type = d.type;
        validator_addr = to_upper d.validator_address;
        block_id_hash = hash;
        timestamp = d.timestamp;
      } in
      let cell : Vote = record {
        kind = if hash == "" then vote_nil else vote_for_block;
        block_id_hash = hash;
        timestamp = d.timestamp;
      } in
      let step = if d.type == prevote then pos 4 else pos 6 in
      if not (d.type == prevote) && not (d.type == precommit)
      then o
      else take_vote fl now v cell step o

  unfoldable pub handle_ws_event : Time → WsEvent → Orchestrator → Orchestrator
  handle_ws_event now ev o =
      let o' = set_state now (hear now o.state) o in
      elim ev [
        | new_block_event d ↦ handle_new_block now d o'
        | new_round_event d ↦ handle_new_round now d o'
        | vote_event d ↦ handle_vote now d o'
        | validator_set_updates_event ↦ record o' { validator_refresh = true }
      ]
