-- ===== src/Core/Transitions/Rows.antt =====
-- Votes follow a validator by its address when `mergeValidatorRound` replaces the rows.
use mathlib.Core.Option
use cmt_top.Base.{
  ◌≡◌, refl, ap, ◌∙◌, ◌⊎◌, inl, inr, true, false, List, [], ◌∷◌, map, Option, none, some, arith,
  String, Option-cases, Bool-cases, if◌then◌else◌, ◌==◌, String_eq,
}
use text.Mathlib.TextEquality.{eq_iff}
use cmt_top.Base.Int.{ℤ, ltb, eqb, eqb_refl, ◌≤ℤ◌, ◌<ℤ◌}
use cmt_top.Base.Maps.{Map, lookup, insert, lookup-insert}
use cmt_top.State.Types.{Vote, RoundVote, ValidatorWithVote, RoundView, StateData}
use cmt_top.Core.Transitions.{
  empty_vote, previous_votes, previous_of, merge_row, merge_validator_round,
}

-- The last row of an address.
unfoldable pub find_row : String → List ValidatorWithVote → Option ValidatorWithVote
find_row addr [] = none
find_row addr (row ∷ rows) = elim (find_row addr rows) [
  | some r ↦ some r
  | none ↦ if row.validator.address == addr then some row else none
]

abbrev pub votes_of : Option ValidatorWithVote → Vote × Vote
votes_of none = (empty_vote, empty_vote)
votes_of (some row) = (row.round_vote.prevote, row.round_vote.precommit)

-- The prevote and the precommit that the state shows for an address in the current round.
unfoldable pub shown : StateData → String → Vote × Vote
shown s addr = elim s.last_round [
  | none ↦ (empty_vote, empty_vote)
  | some rv ↦
      if eqb rv.round s.round
      then votes_of (find_row addr rv.validators)
      else (empty_vote, empty_vote)
]

abbrev pub vote_pair : Option RoundVote → Vote × Vote
vote_pair none = (empty_vote, empty_vote)
vote_pair (some v) = (v.prevote, v.precommit)

lookup-previous_votes :
    (addr : String) (rows : List ValidatorWithVote) (m : Map String RoundVote)
    → vote_pair (lookup addr (previous_votes rows m)) ≡ elim (find_row addr rows) [
      | some r ↦ (r.round_vote.prevote, r.round_vote.precommit)
      | none ↦ vote_pair (lookup addr m)
    ]
unfolding previous_votes find_row
lookup-previous_votes addr [] m = refl
lookup-previous_votes addr (row ∷ rows) m = ground (
  arith,
  lookup-previous_votes addr rows (insert row.validator.address row.round_vote m),
  lookup-insert row.validator.address addr row.round_vote m,
)

previous_of-shown :
    (s : StateData) (addr : String) → vote_pair (lookup addr (previous_of s)) ≡ shown s addr
unfolding previous_of shown lookup
previous_of-shown s addr = elim (Option-cases s.last_round) [
  | inl e ↦ rw (e, previous_of, shown) refl
  | inr (rv, e) ↦
      rw (e, previous_of, shown)
        (ground (
          arith,
          lookup-previous_votes addr rv.validators [],
          Option-cases (find_row addr rv.validators),
        ))
]

find_row-map :
    (addr : String) (previous : Map String RoundVote) (rows : List ValidatorWithVote)
    → find_row addr (map (merge_row previous) rows)
      ≡ Option.map (merge_row previous) (find_row addr rows)
unfolding find_row merge_row
find_row-map addr previous [] = refl
find_row-map addr previous (row ∷ rows) = ground (arith, find_row-map addr previous rows)

find_row-address :
    (addr : String) (rows : List ValidatorWithVote) (row : ValidatorWithVote)
    → find_row addr rows ≡ some row
    → row.validator.address ≡ addr
unfolding find_row
find_row-address addr [] row h = cc
find_row-address addr (r ∷ rows) row h =
    ground (arith, eq_iff r.validator.address addr, find_row-address addr rows row)

merge_row-votes :
    (addr : String) (previous : Map String RoundVote) (row : ValidatorWithVote)
    → row.validator.address ≡ addr
    → votes_of (some (merge_row previous row)) ≡ vote_pair (lookup addr previous)
unfolding merge_row
merge_row-votes addr previous row h = rw (← h) (ground arith)

-- The new rows in any order and number: an address that has one shows the votes that it showed
-- before in this round, and one that has none shows no vote.
shown-merge_rows :
    (s : StateData) (rows : List ValidatorWithVote) (addr : String)
    → votes_of (find_row addr (map (merge_row (previous_of s)) rows))
      ≡ elim (find_row addr rows) [ some _ ↦ shown s addr | none ↦ (empty_vote, empty_vote) ]
shown-merge_rows s rows addr = elim (Option-cases (find_row addr rows)) [
  | inl e ↦ rw (find_row-map addr (previous_of s) rows, e) refl
  | inr (row, e) ↦
      rw (find_row-map addr (previous_of s) rows, e)
        (merge_row-votes addr (previous_of s) row (find_row-address addr rows row e)
          ∙ previous_of-shown s addr)
]

-- What a state shows after the rows of a validator set have replaced those of its view: the view is of
-- the current round, stands for the validators of the rows in their order, and has the total power.
pub record Merges (s s' : StateData) (rows : List ValidatorWithVote) (total height : ℤ)
    : Type 0 where
  pub view : RoundView
  pub is_view : s'.last_round ≡ some view
  pub same_round : s'.round ≡ s.round
  pub of_round : view.round ≡ s'.round
  pub of_total : view.total_vp ≡ total
  pub of_validators : map (λ row. row.validator) view.validators ≡ map (λ row. row.validator) rows
  pub at_height : s'.validator_height ≡ height
  -- An address with a row shows the votes that it showed before, and one without shows none.
  pub keeps_votes :
      (addr : String)
      → shown s' addr
        ≡ elim (find_row addr rows) [ some _ ↦ shown s addr | none ↦ (empty_vote, empty_vote) ]

merged-validators :
    (previous : Map String RoundVote) (rows : List ValidatorWithVote)
    → map (λ row. row.validator) (map (merge_row previous) rows) ≡ map (λ row. row.validator) rows
unfolding merge_row
merged-validators previous [] = refl
merged-validators previous (row ∷ rows) =
    ap (λ l. row.validator ∷ l) (merged-validators previous rows)

abbrev merged_state : StateData → List ValidatorWithVote → ℤ → ℤ → StateData
merged_state s rows total height = record s {
  last_round = some (record {
    round = s.round;
    validators = map (merge_row (previous_of s)) rows;
    total_vp = total;
  });
  validator_height = height;
}

shown-merged :
    (s : StateData) (rows : List ValidatorWithVote) (total height : ℤ) (addr : String)
    → shown (merged_state s rows total height) addr
      ≡ elim (find_row addr rows) [ some _ ↦ shown s addr | none ↦ (empty_vote, empty_vote) ]
unfolding shown
shown-merged s rows total height addr = rw (eqb_refl s.round) (shown-merge_rows s rows addr)

merged_state-Merges :
    (s : StateData) (rows : List ValidatorWithVote) (total height : ℤ)
    → Merges s (merged_state s rows total height) rows total height
merged_state-Merges s rows total height = record {
  view = record {
    round = s.round;
    validators = map (merge_row (previous_of s)) rows;
    total_vp = total;
  };
  is_view = refl;
  same_round = refl;
  of_round = refl;
  of_total = refl;
  of_validators = merged-validators (previous_of s) rows;
  at_height = refl;
  keeps_votes = shown-merged s rows total height;
}

-- A validator set that is older than the one at hand is refused and changes nothing. Any other
-- replaces the rows: the view is of the current round, which stays, with the validators of the rows in
-- their order and the total power that came with them; an address with a row shows the votes that it
-- showed before in this round, in whatever place the row stands, an address without one shows no vote;
-- and the height of the validator set is the new one.
pub merge_validator_round_votes :
    (s : StateData) (rows : List ValidatorWithVote) (total height : ℤ)
    → ((height <ℤ s.validator_height) × (merge_validator_round s rows total height ≡ (s, false)))
      ⊎ ((s.validator_height ≤ℤ height)
          × ((merge_validator_round s rows total height).1 ≡ true)
          × Merges s (merge_validator_round s rows total height).0 rows total height)
unfolding merge_validator_round
merge_validator_round_votes s rows total height =
    elim (Bool-cases (ltb height s.validator_height)) [
      | inl old ↦ inl (ground arith, rw old)
      | inr new ↦ rw new (inr (ground arith, refl, merged_state-Merges s rows total height))
    ]
