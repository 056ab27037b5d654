-- ===== src/Divergence/Evidence.antt =====
-- internal/divergence/archive.go: the report on one height, and what it says of a round's votes. A
-- voting power, which the report prints in decimal, is the integer.
use cmt_top.Base.{
  ℕ, suc, ◌+◌, Bool, true, false, not, ◌&&◌, String, List, [], ◌∷◌, ◌++◌, map, Option, none, some,
  ◌==◌, String_eq, ℕ_eq, if◌then◌else◌, length, sort_by, text_ltb,
}
use cmt_top.Base.{ltb as nat_ltb}
use cmt_top.Base.Int.{ℤ, pos, ltb, eqb, ◌+ℤ◌}
use cmt_top.Base.Maps.{Map, lookup, insert}
use cmt_top.State.Types.{Time}
use cmt_top.Divergence.Types.{
  VoteType, prevote, precommit, ValidatorPower, InvestigationHash, InvestigationVote, ArchivedRound,
}
use cmt_top.Divergence.Archive.{is_some}
use cmt_top.Divergence.Validators.{power_of, moniker_of}

pub record InvestigationValidator : Type 0 where
  pub address : String
  pub moniker : String
  pub voting_power : ℤ
  pub known_to_roster : Bool
  pub prevote_seen : InvestigationVote
  pub precommit_seen : InvestigationVote

pub record InvestigationGroup : Type 0 where
  pub hash : String
  pub voting_power : ℤ
  pub validator_count : ℕ
  pub validators : List String
  pub is_canonical : Bool

pub record InvestigationPhase : Type 0 where
  pub groups : List InvestigationGroup
  pub observed_voting_power : ℤ
  pub observed_validator_count : ℕ
  pub not_observed_voting_power : ℤ
  pub not_observed_validators : List String
  pub conflicting_validators : List String

pub record InvestigationRound : Type 0 where
  pub round : ℤ
  pub proposer : String
  pub first_seen_at : Time
  pub last_seen_at : Time
  pub validator_roster_complete : Bool
  pub total_voting_power : ℤ
  pub validators : List InvestigationValidator
  pub prevotes : InvestigationPhase
  pub precommits : InvestigationPhase
  pub truncated : Bool

-- `cloneInvestigationVote`, with the empty vote for a nil pointer.
abbrev pub clone_vote : Option InvestigationVote → InvestigationVote
clone_vote none = record { observed = false; hashes = []; conflicting = false; truncated = false }
clone_vote (some v) = v

abbrev pub vote_of : VoteType → InvestigationValidator → InvestigationVote
vote_of kind v = if kind == precommit then v.precommit_seen else v.prevote_seen

-- A power that is not negative.
abbrev pub weight : InvestigationValidator → ℤ
weight v = if ltb v.voting_power (pos 0) then pos 0 else v.voting_power

abbrev pub new_investigation_group : String → Bool → String → InvestigationGroup
new_investigation_group canonical committed hash = record {
  hash = hash;
  voting_power = pos 0;
  validator_count = 0;
  validators = [];
  is_canonical = committed && not (hash == "") && canonical == hash;
}

abbrev pub sign : String → ℤ → InvestigationGroup → InvestigationGroup
sign addr power g = record g {
  validators = g.validators ++ addr ∷ [];
  validator_count = g.validator_count + 1;
  voting_power = g.voting_power +ℤ power;
}

abbrev pub group_or_new : String → Bool → String → Option InvestigationGroup → InvestigationGroup
group_or_new canonical committed hash none = new_investigation_group canonical committed hash
group_or_new canonical committed hash (some g) = g

-- The hashes of one validator's vote, each into its group.
unfoldable pub add_hashes :
    String
    → Bool
    → String
    → ℤ
    → List InvestigationHash
    → Map String InvestigationGroup
    → Map String InvestigationGroup
add_hashes canonical committed addr power [] groups = groups
add_hashes canonical committed addr power (h ∷ hashes) groups =
    add_hashes canonical committed addr power hashes (
      insert h.hash
        (sign addr power (group_or_new canonical committed h.hash (lookup h.hash groups))) groups)

-- The groups of the loop over the validators.
unfoldable pub phase_groups :
    VoteType
    → String
    → Bool
    → List InvestigationValidator
    → Map String InvestigationGroup
    → Map String InvestigationGroup
phase_groups kind canonical committed [] groups = groups
phase_groups kind canonical committed (v ∷ vs) groups =
    let vote = vote_of kind v in
    phase_groups kind canonical committed vs (
      if vote.observed
      then add_hashes canonical committed v.address (weight v) vote.hashes groups
      else groups)

-- The sums and lists of the loop, from the back.
unfoldable pub observed_power : VoteType → List InvestigationValidator → ℤ
observed_power kind [] = pos 0
observed_power kind (v ∷ vs) =
    if (vote_of kind v).observed then weight v +ℤ observed_power kind vs else observed_power kind vs

unfoldable pub absent_power : VoteType → List InvestigationValidator → ℤ
absent_power kind [] = pos 0
absent_power kind (v ∷ vs) =
    if (vote_of kind v).observed then absent_power kind vs else weight v +ℤ absent_power kind vs

unfoldable pub observed_count : VoteType → List InvestigationValidator → ℕ
observed_count kind [] = 0
observed_count kind (v ∷ vs) =
    let rest = observed_count kind vs in if (vote_of kind v).observed then suc rest else rest

unfoldable pub absent_addresses : VoteType → List InvestigationValidator → List String
absent_addresses kind [] = []
absent_addresses kind (v ∷ vs) =
    let rest = absent_addresses kind vs in
    if (vote_of kind v).observed then rest else v.address ∷ rest

unfoldable pub conflicting_addresses : VoteType → List InvestigationValidator → List String
conflicting_addresses kind [] = []
conflicting_addresses kind (v ∷ vs) =
    let rest = conflicting_addresses kind vs in
    let vote = vote_of kind v in
    if vote.observed && vote.conflicting then v.address ∷ rest else rest

-- The group with more power first; of equal power the smaller hash.
abbrev pub investigation_before : InvestigationGroup → InvestigationGroup → Bool
investigation_before a b =
    if eqb a.voting_power b.voting_power
    then text_ltb a.hash b.hash
    else ltb b.voting_power a.voting_power

abbrev pub values_of {ℓ κ} : {K : Type ℓ} {V : Type κ} → Map K V → List V
values_of [] = []
values_of ((_, v) ∷ m) = v ∷ values_of m

unfoldable pub snapshot_phase :
    List InvestigationValidator → VoteType → String → Bool → InvestigationPhase
snapshot_phase vs kind canonical committed = record {
  groups = sort_by investigation_before (values_of (phase_groups kind canonical committed vs []));
  observed_voting_power = observed_power kind vs;
  observed_validator_count = observed_count kind vs;
  not_observed_voting_power = absent_power kind vs;
  not_observed_validators = absent_addresses kind vs;
  conflicting_validators = conflicting_addresses kind vs;
}

-- The addresses of the roster, then the others that have voted.
unfoldable pub voters_without_place :
    Map String ValidatorPower → Map String (Map VoteType InvestigationVote) → List String
voters_without_place roster [] = []
voters_without_place roster ((addr, _) ∷ votes) =
    let rest = voters_without_place roster votes in
    if is_some (lookup addr roster) then rest else addr ∷ rest

abbrev pub keys_of {ℓ κ} : {K : Type ℓ} {V : Type κ} → Map K V → List K
keys_of [] = []
keys_of ((k, _) ∷ m) = k ∷ keys_of m

abbrev pub phase_of : VoteType → Option (Map VoteType InvestigationVote) → Option InvestigationVote
phase_of kind none = none
phase_of kind (some phases) = lookup kind phases

abbrev pub validator_row : ArchivedRound → String → InvestigationValidator
validator_row rd addr = record {
  address = addr;
  moniker = moniker_of rd.roster addr;
  voting_power = power_of rd.roster addr;
  known_to_roster = is_some (lookup addr rd.roster);
  prevote_seen = clone_vote (phase_of prevote (lookup addr rd.votes));
  precommit_seen = clone_vote (phase_of precommit (lookup addr rd.votes));
}

-- The positive powers of the validators that the roster knows.
unfoldable pub roster_power : List InvestigationValidator → ℤ
roster_power [] = pos 0
roster_power (v ∷ vs) =
    if v.known_to_roster && ltb (pos 0) v.voting_power
    then v.voting_power +ℤ roster_power vs
    else roster_power vs

unfoldable pub all_known : List InvestigationValidator → Bool
all_known [] = true
all_known (v ∷ vs) = v.known_to_roster && all_known vs

unfoldable pub snapshot_archive_round : ArchivedRound → String → Bool → InvestigationRound
snapshot_archive_round rd canonical committed =
    let found =
      map (validator_row rd) (keys_of rd.roster ++ voters_without_place rd.roster rd.votes) in
    let rows = sort_by (λ a b. text_ltb a.address b.address) found in
    record {
      round = rd.round;
      proposer = rd.proposer;
      first_seen_at = rd.first_seen_at;
      last_seen_at = rd.last_seen_at;
      validator_roster_complete = nat_ltb 0 (length rd.roster) && all_known found;
      total_voting_power = roster_power found;
      validators = rows;
      prevotes = snapshot_phase rows prevote canonical committed;
      precommits = snapshot_phase rows precommit canonical committed;
      truncated = rd.truncated;
    }
