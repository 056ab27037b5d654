-- ===== src/Core/Inputs.antt =====
-- internal/core/orchestrator.go: the inputs of the orchestrator as steps. `Run` starts a goroutine
-- for each source of inputs; a handler or a poller's answer is one step here, and what happens
-- between is any sequence of steps.
use cmt_top.Base.{String, List, [], ◌∷◌, Option}
use cmt_top.Base.Int.{ℤ}
use cmt_top.State.Types.{Time, ChainValidator, Upgrade}
use cmt_top.Divergence.Types.{Floats}
use cmt_top.Core.Notices.{WsEvent, Orchestrator, Texts}
use cmt_top.Core.Handlers.{handle_ws_event}
use cmt_top.Core.Replies.{
  Reply, StatusReply, ValidatorReply, BlockReply, Library, refresh_upgrade, refresh_block_time,
}
use cmt_top.Core.Pollers.{refresh_validators, refresh_status, refresh_consensus_via_http}

pub data Input : Type 0 where
  heard : WsEvent → Input
  status_answer : Reply StatusReply → Reply BlockReply → Input
  validators_answer : Reply (List ValidatorReply × ℤ) → Reply (List ChainValidator) → Input
  upgrade_answer : Reply (Option Upgrade) → Input
  block_time_answer : Reply StatusReply → Reply BlockReply → Reply BlockReply → Input
  consensus_answer : Reply String → Input

module _ (fl : Floats) (tx : Texts) (lib : Library) where
  unfoldable pub handle : Time → Input → Orchestrator → Orchestrator
  handle now (heard ev) o = handle_ws_event fl tx now ev o
  handle now (status_answer st block) o = refresh_status fl tx now st block o
  handle now (validators_answer vs chain) o = refresh_validators lib tx now vs chain o
  handle now (upgrade_answer plan) o = refresh_upgrade now plan o
  handle now (block_time_answer st latest earlier) o = refresh_block_time now st latest earlier o
  handle now (consensus_answer text) o = refresh_consensus_via_http lib now text o

  unfoldable pub handle_all : List (Time × Input) → Orchestrator → Orchestrator
  handle_all [] o = o
  handle_all ((now, input) ∷ inputs) o = handle_all inputs (handle now input o)
