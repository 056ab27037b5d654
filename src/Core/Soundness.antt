-- ===== src/Core/Soundness.antt =====
-- The orchestrator of internal/core after any sequence of inputs: its state and its tracker.
use cmt_top.Base.{
  refl, inl, inr, false, not, ◌&&◌, List, [], ◌∷◌, arith, String_eq, ℕ_eq, ◌==◌, Bool-cases, All,
}
use cmt_top.Base.Int.{ℤ, pos, negsuc, ltb, leb, max_int64, add64, ◌<ℤ◌}
use cmt_top.State.Types.{Time, Vote}
use cmt_top.State.Health.{new_state}
use cmt_top.Divergence.Types.{VoteEvent, Config, Floats, prevote, precommit}
use cmt_top.Divergence.Validators.{new}
use cmt_top.Divergence.Tracker.{ingest_vote}
use cmt_top.Divergence.VoteBounds.{observe_vote-IsBounded, observe_round-IsBounded}
use cmt_top.Divergence.Runs.{
  mark_round_advanced-IsBounded, new-IsBounded, ingest_vote-IsBounded, resolve_commit-IsBounded,
}
use cmt_top.Core.Transitions.{mark_proposer, advance_round}
use cmt_top.Core.Notices.{
  Orchestrator, Texts, NewBlockData, NewRoundData, VoteData, WsEvent, new_block_event,
  new_round_event, vote_event, validator_set_updates_event, step_from_string,
}
use cmt_top.Core.Handlers.{
  is_known_block, vote_state, handle_new_block, handle_new_round, accept_vote, take_vote,
  handle_vote, handle_ws_event,
}
use cmt_top.Core.Replies.{Library}
use cmt_top.Core.Inputs.{
  Input, heard, status_answer, validators_answer, upgrade_answer, block_time_answer,
  consensus_answer, handle, handle_all,
}
use cmt_top.Core.Invariant.{IsSound, mark_proposer-InSync, advance_round-IsSound}
use cmt_top.Core.Preserved.{commit_state-IsSound, vote_state-IsSound}
use cmt_top.Core.Validity.{
  IsValid, publish_resolved-IsValid, refresh_upgrade-IsValid, refresh_block_time-IsValid,
  refresh_validators-IsValid, refresh_consensus-IsValid, refresh_status-IsValid,
}

-- A block above the committed heights has a successor in int64.
abbrev pub InRange : Input → Type 0
InRange (heard ev) = elim ev [
  | new_block_event d ↦ d.height <ℤ max_int64
  | new_round_event d ↦ Unit
  | vote_event d ↦ Unit
  | validator_set_updates_event ↦ Unit
]
InRange (status_answer st block) = Unit
InRange (validators_answer vs chain) = Unit
InRange (upgrade_answer plan) = Unit
InRange (block_time_answer st latest earlier) = Unit
InRange (consensus_answer text) = Unit

module _ (fl : Floats) where
  accept_vote-IsValid :
      (now : Time) (v : VoteEvent) (o : Orchestrator) → IsValid o → IsValid (accept_vote fl now v o)
  unfolding accept_vote
  accept_vote-IsValid now v o h =
      let t = ingest_vote-IsBounded fl now o.tracker v h.1 in
      elim (Bool-cases (ingest_vote fl now o.tracker v).2) [
        | inl fires ↦ rw fires (h.0, t)
        | inr quiet ↦ rw quiet (h.0, t)
      ]

  take_vote-IsValid :
      (now : Time) (v : VoteEvent) (cell : Vote) (step : ℤ) (o : Orchestrator)
      → IsValid o
      → IsValid (take_vote fl now v cell step o)
  unfolding take_vote
  take_vote-IsValid now v cell step o h =
      let s = vote_state-IsSound now v.type step v cell o.state h.0 in
      let t = observe_vote-IsBounded now o.tracker v h.1 in
      elim (Bool-cases (vote_state now v.type step v cell o.state).1) [
        | inr late ↦ rw late (s, t)
        | inl taken ↦ rw taken (accept_vote-IsValid now v _ (s, t))
      ]

module _ (fl : Floats) (tx : Texts) where
  handle_new_block-IsValid :
      (now : Time) (d : NewBlockData) (o : Orchestrator)
      → d.height <ℤ max_int64
      → IsValid o
      → IsValid (handle_new_block fl tx now d o)
  unfolding handle_new_block
  handle_new_block-IsValid now d o fits h = elim (Bool-cases (leb d.height (pos 0))) [
    | inl none_ ↦ rw none_ h
    | inr some_ ↦ elim (Bool-cases (is_known_block d.height o.state)) [
      | inl known ↦ rw (some_, known) h
      | inr fresh ↦
          rw (some_, fresh)
            (publish_resolved-IsValid _ _ (
              commit_state-IsSound now _ o.state (ground arith) fits fresh h.0,
              resolve_commit-IsBounded fl now o.tracker d.height (tx.to_lower d.block_id_hash) h.1,
            ))
    ]
  ]

  handle_new_round-IsValid :
      (now : Time) (d : NewRoundData) (o : Orchestrator)
      → IsValid o
      → IsValid (handle_new_round fl tx now d o)
  unfolding handle_new_round
  handle_new_round-IsValid now d o h =
      let step = step_from_string d.step in
      let proposer = tx.to_upper d.proposer_address in
      let r = advance_round now o.state d.height d.round step in
      let s : IsSound r.0 = advance_round-IsSound now o.state d.height d.round step h.0 in
      let t = observe_round-IsBounded now o.tracker d.height d.round proposer h.1 in
      let s' : IsSound (record (r.0) { last_round = mark_proposer r.0.last_round proposer }) =
        record {
          history = s.history;
          is_open = s.is_open;
          committed_from_zero = s.committed_from_zero;
          from_zero = s.from_zero;
          in_range = s.in_range;
          in_sync = mark_proposer-InSync r.0.last_round proposer r.0.round s.in_sync;
        } in
      elim (Bool-cases r.1) [
        | inr late ↦ rw late (s, h.1)
        | inl taken ↦ elim (Bool-cases (ltb (pos 0) d.round)) [
          | inl later ↦
              rw (taken, later)
                (s', mark_round_advanced-IsBounded _ d.height (add64 d.round (negsuc 0)) t)
          | inr first ↦ rw (taken, first) (s', t)
        ]
      ]

  handle_vote-IsValid :
      (now : Time) (d : VoteData) (o : Orchestrator)
      → IsValid o
      → IsValid (handle_vote fl tx now d o)
  unfolding handle_vote
  handle_vote-IsValid now d o h =
      elim (Bool-cases (not (d.type == prevote) && not (d.type == precommit))) [
        | inl other ↦ rw other h
        | inr vote ↦ rw vote (take_vote-IsValid fl now _ _ _ o h)
      ]

  handle_ws_event-IsValid :
      (now : Time) (ev : WsEvent) (o : Orchestrator)
      → InRange (heard ev)
      → IsValid o
      → IsValid (handle_ws_event fl tx now ev o)
  unfolding handle_ws_event
  handle_ws_event-IsValid now (new_block_event d) o fits h = handle_new_block-IsValid now d _ fits h
  handle_ws_event-IsValid now (new_round_event d) o fits h = handle_new_round-IsValid now d _ h
  handle_ws_event-IsValid now (vote_event d) o fits h = handle_vote-IsValid now d _ h
  handle_ws_event-IsValid now validator_set_updates_event o fits h = h

module _ (fl : Floats) (tx : Texts) (lib : Library) where
  handle-IsValid :
      (now : Time) (input : Input) (o : Orchestrator)
      → InRange input
      → IsValid o
      → IsValid (handle fl tx lib now input o)
  unfolding handle
  handle-IsValid now (heard ev) o fits h = handle_ws_event-IsValid fl tx now ev o fits h
  handle-IsValid now (status_answer st block) o fits h =
      refresh_status-IsValid fl tx now st block o h
  handle-IsValid now (validators_answer vs chain) o fits h =
      refresh_validators-IsValid lib tx now vs chain o h
  handle-IsValid now (upgrade_answer plan) o fits h = refresh_upgrade-IsValid now plan o h
  handle-IsValid now (block_time_answer st latest earlier) o fits h =
      refresh_block_time-IsValid now st latest earlier o h
  handle-IsValid now (consensus_answer text) o fits h = refresh_consensus-IsValid lib now text o h

  handle_all-IsValid :
      (inputs : List (Time × Input)) (o : Orchestrator)
      → All (λ entry. InRange entry.1) inputs
      → IsValid o
      → IsValid (handle_all fl tx lib inputs o)
  unfolding handle_all
  handle_all-IsValid [] o fits h = h
  handle_all-IsValid ((now, input) ∷ inputs) o fits h =
      handle_all-IsValid inputs (handle fl tx lib now input o) fits.1
        (handle-IsValid now input o fits.0 h)

-- The orchestrator at its start.
abbrev pub start : Time → Config → Orchestrator
start now cfg = record {
  state = new_state now;
  tracker = new cfg;
  published = [];
  validator_refresh = false;
}

start-IsValid : (now : Time) (cfg : Config) → IsValid (start now cfg)
start-IsValid now cfg = (
  record {
    history = record { rising = tt; bounded = ground arith };
    is_open = inl refl;
    committed_from_zero = ground arith;
    from_zero = ground arith;
    in_range = ground arith;
    in_sync = tt;
  },
  new-IsBounded cfg,
)

-- From the start on, after any sequence of events and answers, errors included, at any times, of
-- which no block has the greatest height of int64: the height at hand is unknown (zero) or above
-- the committed one, its round is from zero to the greatest int32 and is the round of the view, the
-- block history has at most 120 blocks with rising heights, and the archive of votes keeps its
-- bounds.
pub handle_all-start-IsValid :
    (fl : Floats) (tx : Texts) (lib : Library) (now : Time) (cfg : Config)
    (inputs : List (Time × Input))
    → All (λ entry. InRange entry.1) inputs
    → IsValid (handle_all fl tx lib inputs (start now cfg))
handle_all-start-IsValid fl tx lib now cfg inputs fits =
    handle_all-IsValid fl tx lib inputs (start now cfg) fits (start-IsValid now cfg)
