-- ===== src/Divergence/Types.antt =====
-- internal/divergence/types.go, and the records of tracker.go and archive.go. Maps are association
-- lists; `uint8` vote types are numbers. A voting power that the archive prints in decimal is kept
-- as the integer. The validator maps that rounds share are never written to after they are built.
use cmt_top.Base.{
  ℕ, ◌≡◌, ◌↔◌, Bool, true, false, ◌&&◌, String, List, [], Option, arith, Comparable, nat_eqb,
}
use cmt_top.Base.Int.{ℤ, pos, eqb, eqb_iff}
use cmt_top.Base.Maps.{Map}
use cmt_top.State.Types.{Time, Float64}

abbrev pub VoteType : Type 0
VoteType = ℕ

abbrev pub prevote : VoteType
prevote = 1

abbrev pub precommit : VoteType
precommit = 2

pub record VoteEvent : Type 0 where
  pub height : ℤ
  pub round : ℤ
  pub type : VoteType
  pub validator_addr : String
  pub block_id_hash : String
  pub timestamp : Time

pub record ValidatorPower : Type 0 where
  pub address : String
  pub power : ℤ
  pub moniker : String

pub record Group : Type 0 where
  pub block_id_hash : String
  pub voting_power : ℤ
  pub voting_power_pct : Float64
  pub validator_count : ℕ
  pub sample_monikers : List String
  pub validators : List String
  pub is_canonical : Bool

pub record RoundReport : Type 0 where
  pub height : ℤ
  pub round : ℤ
  pub type : VoteType
  pub groups : List Group
  pub total_voting_power : ℤ
  pub total_voted_power : ℤ
  pub resolved : Bool
  pub canonical_hash : String
  pub is_divergent : Bool

abbrev pub empty_report : RoundReport
empty_report = record {
  height = pos 0;
  round = pos 0;
  type = 0;
  groups = [];
  total_voting_power = pos 0;
  total_voted_power = pos 0;
  resolved = false;
  canonical_hash = "";
  is_divergent = false;
}

pub record Report : Type 0 where
  pub live : List RoundReport
  pub history : List RoundReport

pub record Config : Type 0 where
  pub threshold_pct : Float64
  pub history_size : ℤ
  pub include_prevotes : Bool

pub record RoundKey : Type 0 where
  pub height : ℤ
  pub round : ℤ
  pub type : VoteType

abbrev pub key_eqb : RoundKey → RoundKey → Bool
key_eqb a b = eqb a.height b.height && (eqb a.round b.round && nat_eqb a.type b.type)

pub key_eqb_iff : (a b : RoundKey) → (key_eqb a b ≡ true) ↔ (a ≡ b)
key_eqb_iff a b = (
  λ h. ground (arith, eqb_iff a.height b.height, eqb_iff a.round b.round),
  λ e. ground (arith, eqb_iff a.height b.height, eqb_iff a.round b.round),
)

instance abbrev pub RoundKey_eq : Comparable RoundKey
RoundKey_eq = record { equals = key_eqb; decides = key_eqb_iff }

pub record GroupData : Type 0 where
  pub hash : String
  pub voting_power : ℤ
  pub validators : List String
  pub monikers : List String

pub record RoundData : Type 0 where
  pub key : RoundKey
  pub groups : Map String GroupData
  pub seen : Map String (Unit {0})
  pub total_voting_power : ℤ
  pub total_voted_power : ℤ
  pub validators : Map String ValidatorPower
  pub resolved : Bool
  pub canonical_hash : String
  pub committed : Bool
  pub advanced : Bool
  pub detected : Bool

pub record InvestigationHash : Type 0 where
  pub hash : String
  pub first_seen_at : Time
  pub last_seen_at : Time
  pub vote_timestamp : Option Time

pub record InvestigationVote : Type 0 where
  pub observed : Bool
  pub hashes : List InvestigationHash
  pub conflicting : Bool
  pub truncated : Bool

pub record ArchivedRound : Type 0 where
  pub round : ℤ
  pub proposer : String
  pub first_seen_at : Time
  pub last_seen_at : Time
  pub roster : Map String ValidatorPower
  pub votes : Map String (Map VoteType InvestigationVote)
  pub truncated : Bool

pub record ArchivedHeight : Type 0 where
  pub revision : ℕ
  pub height : ℤ
  pub rounds : Map ℤ ArchivedRound
  pub first_seen_at : Time
  pub last_seen_at : Time
  pub committed : Bool
  pub canonical_hash : String
  pub first_round : ℤ
  pub last_round : ℤ
  pub rounds_observed : ℕ
  pub rounds_evicted : ℕ
  pub evicted_through : ℤ

pub record Tracker : Type 0 where
  pub cfg : Config
  pub rounds : Map RoundKey RoundData
  pub history : List RoundReport
  pub default_validators : Map String ValidatorPower
  pub default_total_power : ℤ
  pub committed_height : ℤ
  pub archive : Map ℤ ArchivedHeight
  pub archive_evicted_through : ℤ
  pub archive_latest_height : ℤ
  pub catalogue_revision : ℕ

-- Go's arithmetic on float64, which the language implements and the model takes as it is.
pub record Floats : Type 0 where
  pub of_int64 : ℤ → Float64
  pub mul : Float64 → Float64 → Float64
  pub div : Float64 → Float64 → Float64
  pub geb : Float64 → Float64 → Bool
