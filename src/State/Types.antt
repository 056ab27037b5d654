-- ===== src/State/Types.antt =====
-- internal/state/types.go. A `time.Time` is its distance in nanoseconds from the zero time, an
-- `error` the text of its message, a `float64` its bit pattern, a nil pointer `none`. The strings
-- that name a mode or a comparison status are constructors.
use cmt_top.Base.{ℕ, Bool, String, List, Option, nat_eqb}
use cmt_top.Base.Int.{ℤ, sub_ℕ, min_int64, max_int64, ltb}
use cmt_top.Base.{if◌then◌else◌}

abbrev pub Time : Type 0
Time = ℕ

abbrev pub is_zero_time : Time → Bool
is_zero_time t = nat_eqb t 0

-- `t.Sub(u)`: nanoseconds, at the ends of int64 where they do not fit.
unfoldable pub time_sub : Time → Time → ℤ
time_sub t u =
    let d = sub_ℕ t u in
    if ltb max_int64 d then max_int64 else if ltb d min_int64 then min_int64 else d

abbrev pub Float64 : Type 0
Float64 = ℕ

pub data VoteKind : Type 0 where
  vote_absent vote_for_block vote_nil vote_zero : VoteKind

pub record Vote : Type 0 where
  pub kind : VoteKind
  pub block_id_hash : String
  pub timestamp : Time

pub record RoundVote : Type 0 where
  pub address : String
  pub prevote : Vote
  pub precommit : Vote
  pub is_proposer : Bool

pub record Validator : Type 0 where
  pub address : String
  pub index : ℕ
  pub voting_power : ℤ
  pub voting_power_percent : Float64

pub record ChainValidator : Type 0 where
  pub operator_address : String
  pub consensus_addr : String
  pub raw_cons_addr : String
  pub moniker : String
  pub jailed : Bool
  pub active : Bool
  pub commission_rate : String
  pub assigned_address : String

pub record ValidatorWithVote : Type 0 where
  pub validator : Validator
  pub round_vote : RoundVote
  pub chain_validator : Option ChainValidator

pub record AllRoundsView : Type 0 where
  pub validators : List Validator
  pub rounds_votes : List (List RoundVote)

pub record Upgrade : Type 0 where
  pub name : String
  pub height : ℤ

pub record NodeStatus : Type 0 where
  pub network : String
  pub comet_version : String
  pub app_version : String
  pub moniker : String
  pub our_validator : String
  pub catching_up : Bool
  pub latest_height : ℤ
  pub latest_block_ts : Time

pub data Mode : Type 0 where
  unavailable stale streaming polling : Mode

pub record Health : Type 0 where
  pub mode : Mode
  pub ws_connected : Bool
  pub ws_endpoint : String
  pub http_endpoint : String
  pub last_event_at : Time
  pub last_http_at : Time
  pub last_success_at : Time
  pub last_error : String
  pub stale_after_ms : ℤ

abbrev pub block_history_limit : ℕ
block_history_limit = 120

pub record BlockSample : Type 0 where
  pub height : ℤ
  pub time : Time
  pub block_id_hash : String
  pub app_hash : String
  pub num_txs : ℕ
  pub block_time_ms : ℤ

pub data CompareStatus : Type 0 where
  not_configured incomplete matching mismatching : CompareStatus

pub data EndpointStatus : Type 0 where
  failed pending chain_mismatch lagging compared reference match mismatch : EndpointStatus

pub record EndpointResult : Type 0 where
  pub endpoint : String
  pub status : EndpointStatus
  pub chain_id : String
  pub height : ℤ
  pub latest_height : ℤ
  pub app_hash : String
  pub failure : String

pub record RpcComparison : Type 0 where
  pub status : CompareStatus
  pub height : ℤ
  pub chain_id : String
  pub checked_at : Time
  pub endpoints : List EndpointResult

pub record RoundView : Type 0 where
  pub round : ℤ
  pub validators : List ValidatorWithVote
  pub total_vp : ℤ

pub record StateData : Type 0 where
  pub height : ℤ
  pub round : ℤ
  pub step : ℤ
  pub start_time : Time
  pub last_round : Option RoundView
  pub all_rounds : Option AllRoundsView
  pub chain_validators : List ChainValidator
  pub node_status : Option NodeStatus
  pub upgrade : Option Upgrade
  pub block_time : ℤ
  pub blocks : List BlockSample
  pub health : Health
  pub rpc_comparison : RpcComparison
  pub validator_height : ℤ
  pub consensus_error : Option String
  pub validators_error : Option String
  pub status_error : Option String
  pub upgrade_error : Option String
  pub last_committed_height : ℤ
  pub active_rpc : String
  pub ws_connected : Bool
  pub last_update : Time
