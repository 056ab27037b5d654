-- ===== src/Divergence/Balance.antt =====
-- internal/divergence/archive.go: the power that a phase observed and the power that it did not
-- are together the power of the roster.
use cmt_top.Base.{
  suc, ◌+◌, Bool, ◌&&◌, String, List, [], ◌∷◌, ◌++◌, map, Option, none, some, String_eq, ℕ_eq, ◌≡◌,
  refl, ap, ◌∙◌, sort_by, sort_by-fold, arith, Bool-cases, inl, inr, if◌then◌else◌, length, sort_by,
  text_ltb,
}
use cmt_top.Base.Int.{ℤ, pos, ltb, ◌+ℤ◌, +ℤ_swap, +ℤ_assoc, pos_zero_+ℤ, eq_of_parts}
use cmt_top.Base.Maps.{lookup}
use cmt_top.Divergence.Archive.{is_some}
use cmt_top.Divergence.Types.{VoteType, prevote, precommit, ValidatorPower, ArchivedRound}
use cmt_top.Divergence.Evidence.{
  InvestigationValidator, InvestigationPhase, InvestigationRound, weight, vote_of, observed_power,
  absent_power, observed_count, absent_addresses, roster_power, snapshot_phase,
  snapshot_archive_round, validator_row, keys_of, voters_without_place,
}

unfoldable total_weight : List InvestigationValidator → ℤ
total_weight [] = pos 0
total_weight (v ∷ vs) = weight v +ℤ total_weight vs

observed_power-absent_power :
    (kind : VoteType) (vs : List InvestigationValidator)
    → observed_power kind vs +ℤ absent_power kind vs ≡ total_weight vs
unfolding observed_power absent_power total_weight
observed_power-absent_power kind [] = pos_zero_+ℤ (pos 0)
observed_power-absent_power kind (v ∷ vs) = elim (Bool-cases (vote_of kind v).observed) [
  | inl e ↦ rw e (
      +ℤ_assoc (weight v) (observed_power kind vs) (absent_power kind vs)
      ∙ ap (λ s. weight v +ℤ s) (observed_power-absent_power kind vs))
  | inr e ↦ rw e (
      +ℤ_swap (observed_power kind vs) (weight v) (absent_power kind vs)
      ∙ ap (λ s. weight v +ℤ s) (observed_power-absent_power kind vs))
]

observed_count-absent :
    (kind : VoteType) (vs : List InvestigationValidator)
    → observed_count kind vs + length (absent_addresses kind vs) ≡ length vs
unfolding observed_count absent_addresses
observed_count-absent kind [] = refl
observed_count-absent kind (v ∷ vs) = ground (arith, observed_count-absent kind vs)

total_weight-sort_by :
    (less : InvestigationValidator → InvestigationValidator → Bool)
    (vs : List InvestigationValidator)
    → total_weight (sort_by less vs) ≡ total_weight vs
unfolding total_weight
total_weight-sort_by less vs =
    sort_by-fold total_weight (λ v s. weight v +ℤ s) (λ v w s. +ℤ_swap (weight v) (weight w) s)
      (λ v ws. refl) less vs

length-sort_by :
    (less : InvestigationValidator → InvestigationValidator → Bool)
    (vs : List InvestigationValidator)
    → length (sort_by less vs) ≡ length vs
length-sort_by less vs = sort_by-fold length (λ v. suc) (λ v w n. refl) (λ v ws. refl) less vs

power_or_none :
    (entry : Option ValidatorPower) (rest : ℤ)
    → let power : ℤ = elim entry [ none ↦ pos 0 | some v ↦ v.power ] in
      (if ltb power (pos 0) then pos 0 else power) +ℤ rest
      ≡ (if is_some entry && ltb (pos 0) power then power +ℤ rest else rest)
power_or_none none rest = pos_zero_+ℤ rest
power_or_none (some v) rest = ground (arith, pos_zero_+ℤ rest, eq_of_parts v.power (pos 0))

positive_or_none :
    (rd : ArchivedRound) (addr : String) (rest : ℤ)
    → weight (validator_row rd addr) +ℤ rest ≡ (
        if (validator_row rd addr).known_to_roster
          && ltb (pos 0) (validator_row rd addr).voting_power
        then (validator_row rd addr).voting_power +ℤ rest
        else rest)
positive_or_none rd addr rest = power_or_none (lookup addr rd.roster) rest

total_weight-rows :
    (rd : ArchivedRound) (addrs : List String)
    → total_weight (map (validator_row rd) addrs) ≡ roster_power (map (validator_row rd) addrs)
unfolding total_weight roster_power
total_weight-rows rd [] = refl
total_weight-rows rd (addr ∷ addrs) =
    ap (λ s. weight (validator_row rd addr) +ℤ s) (total_weight-rows rd addrs)
    ∙ positive_or_none rd addr (roster_power (map (validator_row rd) addrs))

-- What a phase of a report says adds up: the power observed and the power not observed are the total.
unfoldable pub IsBalanced : InvestigationRound → InvestigationPhase → Type 0
IsBalanced round phase =
    (phase.observed_voting_power +ℤ phase.not_observed_voting_power ≡ round.total_voting_power)
    × (phase.observed_validator_count + length phase.not_observed_validators
        ≡ length round.validators)

rows_of : ArchivedRound → List InvestigationValidator
rows_of rd = map (validator_row rd) (keys_of rd.roster ++ voters_without_place rd.roster rd.votes)

module _ (rd : ArchivedRound) (canonical : String) (committed : Bool) where
  snapshot_phase-IsBalanced :
      (kind : VoteType)
      → IsBalanced (snapshot_archive_round rd canonical committed) (
          snapshot_phase
            (snapshot_archive_round rd canonical committed).validators
            kind
            canonical
            committed)
  unfolding snapshot_phase snapshot_archive_round IsBalanced rows_of
  snapshot_phase-IsBalanced kind =
      let rows : List InvestigationValidator =
        (snapshot_archive_round rd canonical committed).validators in
      (
        observed_power-absent_power kind rows
            ∙ total_weight-sort_by (λ a b. text_ltb a.address b.address) (rows_of rd)
            ∙ total_weight-rows rd (keys_of rd.roster ++ voters_without_place rd.roster rd.votes),
        observed_count-absent kind rows,
      )

  -- The report on any round adds up, for prevotes and for precommits: the power that was observed and
  -- the power that was not are together the total power of the round's roster, and the validators
  -- counted as observed and those listed as not observed are together the validators of the round.
  pub snapshot_archive_round-IsBalanced :
      IsBalanced
        (snapshot_archive_round rd canonical committed)
        (snapshot_archive_round rd canonical committed).prevotes
      × IsBalanced
          (snapshot_archive_round rd canonical committed)
          (snapshot_archive_round rd canonical committed).precommits
  unfolding snapshot_archive_round
  snapshot_archive_round-IsBalanced =
      (snapshot_phase-IsBalanced prevote, snapshot_phase-IsBalanced precommit)
