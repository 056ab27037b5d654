-- ===== src/Core/Transitions/Rounds.antt =====
-- When `advanceRound` of internal/core/transitions.go takes an observation, and what it does then.
use mathlib.Core.Option
use mathlib.Core.Bool.{false≢true}
use cmt_top.Base.{
  ◌≡◌, ◌≢◌, refl, sym, ◌∙◌, ◌⊎◌, inl, inr, Bool, true, false, List, [], ◌∷◌, map, Option, none,
  some, arith, All, if◌then◌else◌, Bool-cases,
}
use cmt_top.Base.Int.{eqb, ℤ, pos, ltb, eqb_iff, max_int32, ◌≤ℤ◌, ◌<ℤ◌}
use cmt_top.State.Types.{Time, ValidatorWithVote, RoundView, StateData}
use cmt_top.Core.Transitions.{
  empty_vote, clear_row, clear_round_votes, is_stale, is_same_round, set_round, enter_round,
  advance_round,
}

-- The observation is of an open height, not behind the one at hand, and in the range of a round.
pub record Admits (s : StateData) (height round : ℤ) : Type 0 where
  pub is_open : s.last_committed_height <ℤ height
  pub from_zero : pos 0 ≤ℤ round
  pub in_range : round ≤ℤ max_int32
  pub forward : (s.height <ℤ height) ⊎ ((height ≡ s.height) × (s.round ≤ℤ round))

-- A row without votes and without the proposer's mark.
abbrev pub IsBlank : ValidatorWithVote → Type 0
IsBlank row =
    (row.round_vote.prevote ≡ empty_vote)
    × (row.round_vote.precommit ≡ empty_vote)
    × (row.round_vote.is_proposer ≡ false)

abbrev pub ShowsNoVote : Option RoundView → Type 0
ShowsNoVote none = Unit
ShowsNoVote (some rv) = All IsBlank rv.validators

clear_row-IsBlank : (rows : List ValidatorWithVote) → All IsBlank (map clear_row rows)
unfolding clear_row
clear_row-IsBlank [] = tt
clear_row-IsBlank (row ∷ rows) = ((refl, refl, refl), clear_row-IsBlank rows)

pub clear_round_votes_blank : (o : Option RoundView) → ShowsNoVote (clear_round_votes o)
unfolding clear_round_votes
clear_round_votes_blank none = tt
clear_round_votes_blank (some rv) = clear_row-IsBlank rv.validators

-- The view, if there is one, is of a round.
abbrev pub IsOfRound : ℤ → Option RoundView → Type 0
IsOfRound round none = Unit
IsOfRound round (some rv) = rv.round ≡ round

enter_round_blank :
    (round : ℤ) (o : Option RoundView)
    → ShowsNoVote (Option.map (set_round round) (clear_round_votes o))
      × IsOfRound round (Option.map (set_round round) (clear_round_votes o))
unfolding clear_round_votes
enter_round_blank round none = (tt, tt)
enter_round_blank round (some rv) = (clear_row-IsBlank rv.validators, refl)

-- The observation is of the round at hand: the view and the start stay, and the step is the later one.
pub record Stays (s s' : StateData) (height round step : ℤ) : Type 0 where
  pub same_height : s.height ≡ height
  pub same_round : s.round ≡ round
  pub view_kept : s'.last_round ≡ s.last_round
  pub start_kept : s'.start_time ≡ s.start_time
  pub later_step : ((s.step <ℤ step) × (s'.step ≡ step)) ⊎ ((step ≤ℤ s.step) × (s'.step ≡ s.step))

-- The observation is of another height or round: the view is of that round and shows no vote.
pub record Moves (now : Time) (s s' : StateData) (height round step : ℤ) : Type 0 where
  pub elsewhere : (s.height ≢ height) ⊎ (s.round ≢ round)
  pub no_vote : ShowsNoVote s'.last_round
  pub of_round : IsOfRound round s'.last_round
  pub started : s'.start_time ≡ now
  pub new_step : s'.step ≡ step

-- What an accepted observation leaves.
pub record Entered (now : Time) (s s' : StateData) (height round step : ℤ) : Type 0 where
  pub at_height : s'.height ≡ height
  pub at_round : s'.round ≡ round
  pub committed_kept : s'.last_committed_height ≡ s.last_committed_height
  pub votes : Stays s s' height round step ⊎ Moves now s s' height round step

abbrev pub Advances : Time → StateData → StateData × Bool → ℤ → ℤ → ℤ → Type 0
Advances now s r height round step =
    ((¬ Admits s height round) × (r ≡ (s, false)))
    ⊎ (Admits s height round × (r.1 ≡ true) × Entered now s r.0 height round step)

not-stale-Admits :
    (s : StateData) (height round : ℤ) → is_stale s height round ≡ false → Admits s height round
unfolding is_stale
not-stale-Admits s height round h = ground (arith, eqb_iff height s.height)

stale-not-Admits :
    (s : StateData) (height round : ℤ) → is_stale s height round ≡ true → ¬ Admits s height round
unfolding is_stale
stale-not-Admits s height round h a =
    ground (arith, eqb_iff height s.height, a.is_open, a.from_zero, a.in_range, a.forward)

is_same_round-false :
    (s : StateData) (height round : ℤ)
    → is_same_round s height round ≡ false
    → (s.height ≢ height) ⊎ (s.round ≢ round)
is_same_round-false s height round h = elim (Bool-cases (eqb height s.height)) [
  | inr other ↦ inl (λ e. false≢true (sym other ∙ (eqb_iff height s.height).1 (sym e)))
  | inl same ↦ inr (λ e. false≢true (sym (rw same at h) ∙ (eqb_iff round s.round).1 (sym e)))
]

enter_round-Entered :
    (now : Time) (s : StateData) (height round step : ℤ)
    → is_same_round s height round ≡ false
    → Entered now s (enter_round now s height round step) height round step
unfolding enter_round
enter_round-Entered now s height round step h =
    let (blank, here) = enter_round_blank round s.last_round in
    record {
      at_height = refl;
      at_round = refl;
      committed_kept = refl;
      votes = inr (record {
        elsewhere = is_same_round-false s height round h;
        no_vote = blank;
        of_round = here;
        started = refl;
        new_step = refl;
      });
    }

stay-Entered :
    (now : Time) (s : StateData) (height round step : ℤ)
    → is_same_round s height round ≡ true
    → Entered now s (if ltb s.step step then record s { step = step } else s) height round step
stay-Entered now s height round step same =
    let h : s.height ≡ height = ground (arith, eqb_iff height s.height) in
    let r : s.round ≡ round = ground (arith, eqb_iff round s.round) in
    elim (Bool-cases (ltb s.step step)) [
      | inl later ↦ rw later (record {
        at_height = h;
        at_round = r;
        committed_kept = refl;
        votes = inl (record {
          same_height = h;
          same_round = r;
          view_kept = refl;
          start_kept = refl;
          later_step = inl (ground arith, refl);
        });
      })
      | inr earlier ↦ rw earlier (record {
        at_height = h;
        at_round = r;
        committed_kept = refl;
        votes = inl (record {
          same_height = h;
          same_round = r;
          view_kept = refl;
          start_kept = refl;
          later_step = inr (ground arith, refl);
        });
      })
    ]

advance_round-stale :
    (now : Time) (s : StateData) (height round step : ℤ)
    → is_stale s height round ≡ true
    → advance_round now s height round step ≡ (s, false)
unfolding advance_round
advance_round-stale now s height round step h = rw h refl

advance_round-stays :
    (now : Time) (s : StateData) (height round step : ℤ)
    → is_stale s height round ≡ false
    → is_same_round s height round ≡ true
    → advance_round now s height round step
      ≡ (if ltb s.step step then record s { step = step } else s, true)
unfolding advance_round
advance_round-stays now s height round step h same = rw (h, same) (ground arith)

advance_round-moves :
    (now : Time) (s : StateData) (height round step : ℤ)
    → is_stale s height round ≡ false
    → is_same_round s height round ≡ false
    → advance_round now s height round step ≡ (enter_round now s height round step, true)
unfolding advance_round
advance_round-moves now s height round step h other = rw (h, other) refl

-- `advance_round` takes exactly the observations that are admitted. One that it refuses changes
-- nothing. One that it takes sets height and round. Within the same height and round the view and the
-- start stay and the step is the later one; and only a move to another height or round leaves a view
-- of that round without a vote and without a proposer, starts the clock anew and sets the step.
pub advance_round-Advances :
    (now : Time) (s : StateData) (height round step : ℤ)
    → Advances now s (advance_round now s height round step) height round step
advance_round-Advances now s height round step = elim (Bool-cases (is_stale s height round)) [
  | inl stale ↦
      inl (stale-not-Admits s height round stale, advance_round-stale now s height round step stale)
  | inr taken ↦
      let admitted = not-stale-Admits s height round taken in
      elim (Bool-cases (is_same_round s height round)) [
        | inl same ↦
            rw (advance_round-stays now s height round step taken same)
              (inr (admitted, refl, stay-Entered now s height round step same))
        | inr moved ↦
            rw (advance_round-moves now s height round step taken moved)
              (inr (admitted, refl, enter_round-Entered now s height round step moved))
      ]
]
