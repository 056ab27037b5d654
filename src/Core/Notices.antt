-- ===== src/Core/Notices.antt =====
-- internal/events/payloads.go, the event records of internal/chain/cometws/eventdata.go that the
-- orchestrator reads, and the orchestrator: its state, its tracker and what it has published.
use cmt_top.Base.{
  ℕ, Bool, String, List, [], ◌∷◌, ◌++◌, Option, none, ◌==◌, String_eq, if◌then◌else◌,
}
use cmt_top.Base.Int.{ℤ, pos}
use cmt_top.State.Types.{Time, RpcComparison, StateData}
use cmt_top.Divergence.Types.{VoteType, RoundReport, Tracker}

pub data Notice : Type 0 where
  new_block : ℤ → String → String → String → Time → ℕ → Notice
  round_changed : ℤ → ℤ → ℤ → Time → String → Notice
  vote_received : ℤ → ℤ → VoteType → String → String → Time → Notice
  validator_set_updated : ℤ → Notice
  status_updated : String → String → String → Bool → ℤ → Notice
  upgrade_plan_updated : String → ℤ → Notice
  block_time_updated : ℤ → Notice
  divergence_detected divergence_resolved : RoundReport → Notice
  endpoint_apphash_divergence : RpcComparison → Notice
  connection_lost : String → Option String → Notice
  connection_restored : String → Notice

pub record Orchestrator : Type 0 where
  pub state : StateData
  pub tracker : Tracker
  pub published : List Notice
  pub validator_refresh : Bool

pub record Texts : Type 0 where
  pub to_upper : String → String
  pub to_lower : String → String

pub record NewBlockData : Type 0 where
  pub height : ℤ
  pub time : Time
  pub proposer_address : String
  pub app_hash : String
  pub block_id_hash : String
  pub num_txs : ℕ

pub record NewRoundData : Type 0 where
  pub height : ℤ
  pub round : ℤ
  pub step : String
  pub proposer_address : String

pub record VoteData : Type 0 where
  pub type : ℕ
  pub height : ℤ
  pub round : ℤ
  pub block_id_hash : String
  pub timestamp : Time
  pub validator_address : String

pub data WsEvent : Type 0 where
  new_block_event : NewBlockData → WsEvent
  new_round_event : NewRoundData → WsEvent
  vote_event : VoteData → WsEvent
  validator_set_updates_event : WsEvent

unfoldable pub step_from_string : String → ℤ
step_from_string s =
    if s == "RoundStepNewHeight"
    then pos 1
    else if s == "RoundStepNewRound"
    then pos 2
    else if s == "RoundStepPropose"
    then pos 3
    else if s == "RoundStepPrevote"
    then pos 4
    else if s == "RoundStepPrevoteWait"
    then pos 5
    else if s == "RoundStepPrecommit"
    then pos 6
    else if s == "RoundStepPrecommitWait"
    then pos 7
    else if s == "RoundStepCommit"
    then pos 8
    else pos 0

abbrev pub publish : Notice → Orchestrator → Orchestrator
publish n o = record o { published = o.published ++ n ∷ [] }

-- The state under `Mutate`.
abbrev pub set_state : Time → StateData → Orchestrator → Orchestrator
set_state now s o = record o { state = record s { last_update = now } }

-- What every event of the websocket does to the state.
abbrev pub hear : Time → StateData → StateData
hear now s = record s {
  health = record (s.health) { last_event_at = now; last_success_at = now; last_error = "" };
  consensus_error = none;
}
