-- ===== src/Core/Votes.antt =====
-- The votes of the view under `handleVote` of internal/core/orchestrator.go: the first one stands.
use cmt_top.Base.{
  ◌≡◌, ◌≢◌, refl, ap, true, false, String, List, [], ◌∷◌, arith, ◌==◌, String_eq, ℕ_eq,
  if◌then◌else◌, Bool-cases, ◌⊎◌, inl, inr,
}
use cmt_top.State.Types.{
  VoteKind, vote_absent, vote_for_block, vote_nil, vote_zero, Vote, RoundVote, ValidatorWithVote,
}
use cmt_top.Divergence.Types.{VoteType, prevote, precommit}
use cmt_top.Core.Handlers.{has_voted, cast_vote, vote_rows}

-- A vote cell that is not empty, whether it is for a block, for nil or for the zero hash.
abbrev pub IsCast : Vote → Type 0
IsCast vote = vote.kind ≢ vote_absent

abbrev pub cell_of : VoteType → RoundVote → Vote
cell_of vt rv = if vt == prevote then rv.prevote else rv.precommit

-- A vote that is cast stays.
abbrev pub Stays : RoundVote → RoundVote → Type 0
Stays old new =
    ((old.prevote.kind ≡ vote_absent) ⊎ (new.prevote ≡ old.prevote))
    × ((old.precommit.kind ≡ vote_absent) ⊎ (new.precommit ≡ old.precommit))

-- Row by row, the same validators, and no cast vote changed.
abbrev pub Kept : List ValidatorWithVote → List ValidatorWithVote → Type 0
Kept [] [] = Unit
Kept (a ∷ l) (b ∷ m) =
    (b.validator ≡ a.validator)
    × (b.chain_validator ≡ a.chain_validator)
    × Stays a.round_vote b.round_vote
    × Kept l m
Kept _ _ = ⊥

Kept-refl : (rows : List ValidatorWithVote) → Kept rows rows
Kept-refl [] = tt
Kept-refl (row ∷ rows) = (refl, refl, (inr refl, inr refl), Kept-refl rows)

-- The first row of the address, if there is one, shows the vote.
abbrev pub Takes : VoteType → String → Vote → List ValidatorWithVote → Type 0
Takes vt addr cell [] = Unit
Takes vt addr cell (row ∷ rows) =
    if row.validator.address == addr
    then cell_of vt row.round_vote ≡ cell
    else Takes vt addr cell rows

-- The first row of the address has no vote of the type, or there is no such row.
abbrev pub Lacks : VoteType → String → List ValidatorWithVote → Type 0
Lacks vt addr [] = Unit
Lacks vt addr (row ∷ rows) =
    if row.validator.address == addr
    then (cell_of vt row.round_vote).kind ≡ vote_absent
    else Lacks vt addr rows

-- There is a row of the address, and the first one has cast a vote of the type.
abbrev pub HasCast : VoteType → String → List ValidatorWithVote → Type 0
HasCast vt addr [] = ⊥
HasCast vt addr (row ∷ rows) =
    if row.validator.address == addr
    then IsCast (cell_of vt row.round_vote)
    else HasCast vt addr rows

kind-cases : (k : VoteKind) → (k ≡ vote_absent) ⊎ (k ≢ vote_absent)
kind-cases vote_absent = inl refl
kind-cases vote_for_block = inr (λ e. ground (arith, e))
kind-cases vote_nil = inr (λ e. ground (arith, e))
kind-cases vote_zero = inr (λ e. ground (arith, e))

not_voted :
    (vt : VoteType) (rv : RoundVote) → has_voted vt rv ≡ false → (cell_of vt rv).kind ≡ vote_absent
unfolding has_voted
not_voted vt rv h = ground (arith, h)

voted-IsCast : (vt : VoteType) (rv : RoundVote) → has_voted vt rv ≡ true → IsCast (cell_of vt rv)
unfolding has_voted
voted-IsCast vt rv h e = ground (arith, h, e)

cast_vote-Stays :
    (vt : VoteType) (cell : Vote) (rv : RoundVote)
    → (vt == prevote ≡ true) ⊎ (vt == precommit ≡ true)
    → (cell_of vt rv).kind ≡ vote_absent
    → Stays rv (cast_vote vt cell rv)
unfolding cast_vote
cast_vote-Stays vt cell rv k h = elim (Bool-cases (vt == prevote)) [
  | inl pre ↦ (inl (rw pre at h), inr (rw pre refl))
  | inr other ↦ (inr (rw other refl), inl (rw other at h))
]

cast_vote_shown :
    (vt : VoteType) (cell : Vote) (rv : RoundVote)
    → (if vt == prevote then (cast_vote vt cell rv).prevote else (cast_vote vt cell rv).precommit)
      ≡ cell
unfolding cast_vote
cast_vote_shown vt cell rv = elim (Bool-cases (vt == prevote)) [
  | inl pre ↦ rw pre refl
  | inr other ↦ rw other refl
]

-- A vote of a validator, whichever rows the view has: no vote that a row has cast is changed, be it for
-- a block, for nil or for the zero hash, and the rows stand for the same validators in the same order.
-- The vote is accepted if the first row of its address has cast no vote of its type, or if there is no
-- such row, and that row then shows it; it is refused if that row has cast one, and then nothing has
-- changed.
pub vote_rows-Kept :
    (vt : VoteType) (addr : String) (cell : Vote) (rows : List ValidatorWithVote)
    → (vt == prevote ≡ true) ⊎ (vt == precommit ≡ true)
    → Kept rows (vote_rows vt addr cell rows).0
      × (((vote_rows vt addr cell rows).1 ≡ true)
            × Lacks vt addr rows
            × Takes vt addr cell (vote_rows vt addr cell rows).0
          ⊎ (((vote_rows vt addr cell rows).1 ≡ false)
              × HasCast vt addr rows
              × ((vote_rows vt addr cell rows).0 ≡ rows)))
unfolding vote_rows
vote_rows-Kept vt addr cell [] k = (tt, inl (refl, tt, tt))
vote_rows-Kept vt addr cell (row ∷ rows) k = elim (Bool-cases (row.validator.address == addr)) [
  | inr other ↦
      let (kept, what) = vote_rows-Kept vt addr cell rows k in
      elim what [
        | inl (ok, lacks, shows) ↦
            rw other ((refl, refl, (inr refl, inr refl), kept), inl (ok, lacks, rw other shows))
        | inr (ok, cast, e) ↦
            rw other ((refl, refl, (inr refl, inr refl), kept), inr (ok, cast, ap (λ l. row ∷ l) e))
      ]
  | inl same ↦ elim (Bool-cases (has_voted vt row.round_vote)) [
    | inl voted ↦
        rw (same, voted)
          (Kept-refl (row ∷ rows), inr (refl, voted-IsCast vt row.round_vote voted, refl))
    | inr first ↦
        let empty = not_voted vt row.round_vote first in
        rw (same, first)
          (
            (refl, refl, cast_vote-Stays vt cell row.round_vote k empty, Kept-refl rows),
            inl (refl, empty, rw same (cast_vote_shown vt cell row.round_vote)),
          )
  ]
]
