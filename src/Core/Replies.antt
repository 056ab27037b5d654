-- ===== src/Core/Replies.antt =====
-- internal/core/orchestrator.go: what the pollers share, and the small ones. What an endpoint answers to the calls of a poller is
-- an argument, as is the clock. Byte strings are their hexadecimal text. An answer without the
-- block that was asked for, or with text that does not decode, is an error. Of an error that the
-- code formats the fixed words are kept.
use cmt_top.Base.{
  ℕ, Bool, true, false, not, ◌&&◌, ◌||◌, String, List, [], ◌∷◌, Option, none, some, ◌==◌, String_eq,
  if◌then◌else◌, last?,
}
use cmt_top.Base.Int.{ℤ, pos, ltb, leb, ◌+ℤ◌, quot}
use cmt_top.Base.Maps.{Map, insert}
use cmt_top.State.Types.{
  Time, time_sub, Float64, ChainValidator, Upgrade, BlockSample, streaming, unavailable, stale,
  polling, StateData,
}
use cmt_top.State.Health.{mode_at}
use cmt_top.Core.Transitions.{clear_round_votes, set_round, advance_round, record_http_success}
use cmt_top.Core.Notices.{
  upgrade_plan_updated, block_time_updated, Orchestrator, publish, set_state,
}
use mathlib.Core.Option

-- A value with the endpoint that gave it, or an error's text.
pub data Reply {ℓ} (A : Type ℓ) : Type ℓ where
  answered : A → String → Reply A
  refused : String → Reply A

pub record StatusReply : Type 0 where
  pub network : String
  pub version : String
  pub moniker : String
  pub address : String
  pub catching_up : Bool
  pub latest_height : ℤ
  pub latest_block_time : Time

pub record ValidatorReply : Type 0 where
  pub address : String
  pub voting_power : ℤ

pub record BlockReply : Type 0 where
  pub height : ℤ
  pub chain_id : String
  pub time : Time
  pub block_id_hash : String
  pub app_hash : String
  pub num_txs : ℕ

-- Of the libraries: `split` and `parse_int` are those of strings and strconv, `share` is the quotient
-- of two `big.Int` in per cent.
pub record Library : Type 0 where
  pub split : String → String → List String
  pub parse_int : String → Option ℤ
  pub share : ℤ → ℤ → Float64

abbrev pub is_streaming : Time → StateData → Bool
is_streaming now s = elim (mode_at s.health now) [
  | unavailable ↦ false
  | stale ↦ false
  | streaming ↦ true
  | polling ↦ false
]

unfoldable pub fail_status : Time → String → Orchestrator → Orchestrator
fail_status now err o =
    set_state now
      (record (o.state) {
        status_error = some err;
        health = record (o.state.health) { last_error = err };
      })
      o

-- A height that another endpoint has already committed is no longer open.
unfoldable pub commit_status : ℤ → StateData → StateData
commit_status latest s =
    let s1 = record s { last_committed_height = latest } in
    if not (ltb s.last_committed_height latest)
    then s
    else if ltb (pos 0) s.height && leb s.height latest
    then record s1 {
      height = pos 0;
      round = pos 0;
      step = pos 0;
      start_time = 0;
      last_round = Option.map (set_round (pos 0)) (clear_round_votes s.last_round);
    }
    else s1

unfoldable pub other_chain : StateData → String → Bool
other_chain s network = elim s.node_status [ none ↦ false | some ns ↦ not (ns.network == network) ]

unfoldable pub fail_validators : Time → String → Orchestrator → Orchestrator
fail_validators now err o = set_state now (record (o.state) { validators_error = some err }) o

-- `cvByCons`: the last chain validator of a consensus address.
unfoldable pub by_consensus :
    List ChainValidator → Map String ChainValidator → Map String ChainValidator
by_consensus [] m = m
by_consensus (cv ∷ cvs) m = by_consensus cvs (insert cv.raw_cons_addr cv m)

unfoldable pub total_power : List ValidatorReply → ℤ
total_power [] = pos 0
total_power (v ∷ vs) = v.voting_power +ℤ total_power vs

-- An answer of `ConsensusState`: three numbers, none negative.
unfoldable pub three_values : List (Option ℤ) → Option (ℤ × ℤ × ℤ)
three_values (some a ∷ some b ∷ some c ∷ []) =
    if ltb a (pos 0) || ltb b (pos 0) || ltb c (pos 0) then none else some (a, b, c)
three_values _ = none

unfoldable pub fail_consensus : Time → String → Orchestrator → Orchestrator
fail_consensus now err o =
    if is_streaming now o.state
    then set_state now o.state o
    else set_state now
        (record (o.state) {
          consensus_error = some err;
          health = record (o.state.health) { last_error = err };
        })
        o

-- Votes that the websocket showed are cleared: the answer says nothing of them.
unfoldable pub consensus_state : Time → String → ℤ → ℤ → ℤ → StateData → StateData × Bool
consensus_state now endpoint height round step s =
    let s1 = record_http_success now (record s { consensus_error = none }) endpoint in
    let (s2, accepted) = advance_round now s1 height round step in
    if is_streaming now s
    then (s, false)
    else if accepted && not (is_streaming now s2)
    then (record s2 { last_round = clear_round_votes s2.last_round }, accepted)
    else (s2, accepted)

-- The history reaches a height already.
unfoldable pub has_reached : ℤ → List BlockSample → Bool
has_reached height blocks = elim (last? blocks) [ none ↦ false | some b ↦ leb height b.height ]

unfoldable pub refresh_upgrade : Time → Reply (Option Upgrade) → Orchestrator → Orchestrator
refresh_upgrade now (refused err) o =
    set_state now (record (o.state) { upgrade_error = some err }) o
refresh_upgrade now (answered plan endpoint) o =
    let o' = set_state now (record (o.state) { upgrade_error = none; upgrade = plan }) o in
    elim plan [
      | none ↦ publish (upgrade_plan_updated "" (pos 0)) o'
      | some u ↦ publish (upgrade_plan_updated u.name u.height) o'
    ]

-- The mean time of the last hundred blocks, from the blocks at both ends.
unfoldable pub refresh_block_time :
    Time → Reply StatusReply → Reply BlockReply → Reply BlockReply → Orchestrator → Orchestrator
refresh_block_time now (answered st _) (answered latest _) (answered earlier _) o =
    let dt = quot (time_sub latest.time earlier.time) 100 in
    if leb st.latest_height (pos 100)
    then o
    else publish (block_time_updated dt) (set_state now (record (o.state) { block_time = dt }) o)
refresh_block_time now _ _ _ o = o
