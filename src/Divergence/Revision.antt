-- ===== src/Divergence/Revision.antt =====
-- internal/divergence/archive.go: the revision of a block moves with the block.
use cmt_top.Base.{
  ℕ, ◌+◌, ◌%◌, ◌≤◌, ◌<◌, ◌≡◌, refl, sym, ap, ◌∙◌, ◌⊎◌, inl, inr, Bool, true, false, not, ◌&&◌, ◌||◌,
  String, [], ◌∷◌, none, some, String_eq, ℕ_eq, arith, Bool-cases, Option-cases, if◌then◌else◌,
  length,
}
use cmt_top.Base.{ltb as nat_ltb, leb as nat_leb}
use cmt_top.Base.Int.{ℤ, ℤ_eq, next64}
use cmt_top.Base.Maps.{Map, lookup, insert, insert_same, map_values}
use cmt_top.State.Types.{Time}
use cmt_top.Divergence.Types.{
  VoteType, VoteEvent, ValidatorPower, InvestigationVote, ArchivedRound, ArchivedHeight,
}
use cmt_top.Divergence.Archive.{
  is_some, investigation_hash_limit, investigation_unknown_validator_limit,
}
use cmt_top.Divergence.Votes.{
  VoteEffect, quiet, noted, recorded, admit_vote, record_vote, count_effect, put_round,
  unknown_voters, has_hash, store_vote,
}
use cmt_top.Divergence.Validators.{has_no_roster, set_roster, count_rosters, set_block_validators}

empty_of_no_roster : (rd : ArchivedRound) → has_no_roster rd ≡ true → rd.roster ≡ []
empty_of_no_roster rd h = go rd.roster h
  where
    go : (l : Map String ValidatorPower) → nat_leb (length l) 0 ≡ true → l ≡ []
    go [] k = refl
    go (x ∷ l) k = absurd (ground arith)

-- The block is the same, or its revision has moved at least once and at most `n` times.
abbrev pub IsAdvanced : ℕ → ArchivedHeight → ArchivedHeight → Type 0
IsAdvanced n old new =
    (new ≡ old)
    ⊎ ((k : ℕ) × (0 < k) × (k ≤ n) × (new.revision ≡ (old.revision + k) % 18446744073709551616))

pub IsAdvanced-once :
    (n : ℕ) (old new : ArchivedHeight)
    → 1 ≤ n
    → new.revision ≡ next64 old.revision
    → IsAdvanced n old new
unfolding next64
IsAdvanced-once n old new h e = inr (1, omega arith, h, e)

pub IsAdvanced-trans :
    (n m : ℕ) (a b c : ArchivedHeight)
    → IsAdvanced n a b
    → IsAdvanced m b c
    → IsAdvanced (n + m) a c
IsAdvanced-trans n m a b c (inl e) (inl f) = inl (f ∙ e)
IsAdvanced-trans n m a b c (inl e) (inr (k, p, q, r)) =
    inr (k, p, omega arith, r ∙ ap (λ x. (x.revision + k) % 18446744073709551616) e)
IsAdvanced-trans n m a b c (inr (k, p, q, r)) (inl f) =
    inr (k, p, omega arith, ap (λ x. x.revision) f ∙ r)
IsAdvanced-trans n m a b c (inr (k, p, q, r)) (inr (j, s, t, u)) =
    inr (k + j, omega arith, omega arith, omega arith)

pub IsAdvanced-same :
    (n : ℕ) (old new : ArchivedHeight)
    → n < 18446744073709551616
    → IsAdvanced n old new
    → new.revision ≡ old.revision
    → new ≡ old
IsAdvanced-same n old new h (inl e) q = e
IsAdvanced-same n old new h (inr (k, p, l, r)) q = absurd (omega arith)

-- Writing back a vote that is marked already changes nothing.
store_same :
    (v : VoteEvent) (rd : ArchivedRound) (phases : Map VoteType InvestigationVote)
    (vote : InvestigationVote)
    → lookup v.validator_addr rd.votes ≡ some phases
    → lookup v.type phases ≡ some vote
    → store_vote v phases vote rd ≡ rd
store_same v rd phases vote f e =
    ap (λ votes. record rd { votes = votes })
      (ap (λ p. insert v.validator_addr p rd.votes) (insert_same v.type vote phases e)
        ∙ insert_same v.validator_addr phases rd.votes f)

marked_same :
    (vote : InvestigationVote)
    → vote.truncated ≡ true
    → vote.conflicting ≡ true
    → (record vote { truncated = true; conflicting = true }) ≡ vote
marked_same vote a b = ground arith

truncated_same : (rd : ArchivedRound) → rd.truncated ≡ true → (record rd { truncated = true }) ≡ rd
truncated_same rd a = ground arith

marked_of_quiet :
    (a b c : Bool)
    → (if not a || not b || not c then noted else quiet) ≡ quiet
    → (a ≡ true) × (b ≡ true) × (c ≡ true)
marked_of_quiet a b c q = ground arith

-- A vote that counts as nothing leaves the round as it was.
admit_vote-quiet :
    (now : Time) (v : VoteEvent) (rd : ArchivedRound) (phases : Map VoteType InvestigationVote)
    (vote : InvestigationVote)
    → lookup v.validator_addr rd.votes ≡ some phases
    → lookup v.type phases ≡ some vote
    → (admit_vote now v rd phases).1 ≡ quiet
    → (admit_vote now v rd phases).0 ≡ rd
unfolding admit_vote
admit_vote-quiet now v rd phases vote f e q =
    elim (Bool-cases (has_hash v.block_id_hash vote.hashes)) [
      | inl h ↦ rw (e, h) refl
      | inr h ↦ elim (Bool-cases (nat_leb investigation_hash_limit (length vote.hashes))) [
        | inr fits ↦ absurd (ground arith)
        | inl full ↦
            let (a, b, c) =
              marked_of_quiet vote.truncated vote.conflicting rd.truncated (rw (e, h, full) at q) in
            let mark_round : ArchivedRound → ArchivedRound = (λ r. record r { truncated = true }) in
            let mark : InvestigationVote → ArchivedRound =
              (λ x. mark_round (store_vote v phases x rd)) in
            rw (e, h, full)
              (ap mark (marked_same vote a b)
                ∙ ap mark_round (store_same v rd phases vote f e)
                ∙ truncated_same rd c)
      ]
    ]

admit_vote-new :
    (now : Time) (v : VoteEvent) (rd : ArchivedRound) (phases : Map VoteType InvestigationVote)
    → lookup v.type phases ≡ none
    → (admit_vote now v rd phases).1 ≡ recorded
unfolding admit_vote
admit_vote-new now v rd phases e = rw e refl

admit_vote-fresh :
    (now : Time) (v : VoteEvent) (rd : ArchivedRound) → (admit_vote now v rd []).1 ≡ recorded
unfolding lookup
admit_vote-fresh now v rd = admit_vote-new now v rd [] refl

recorded≢quiet : recorded ≡ quiet → ⊥
recorded≢quiet e = ground arith

truncated_of_quiet : (b : Bool) → (if b then quiet else noted) ≡ quiet → b ≡ true
truncated_of_quiet b q = ground arith

-- A voter that the roster lacks, where as many such have voted as may.
abbrev has_no_place : VoteEvent → ArchivedRound → Bool
has_no_place v rd =
    not (is_some (lookup v.validator_addr rd.roster))
    && nat_leb investigation_unknown_validator_limit (unknown_voters rd.roster rd.votes)

record_vote-again :
    (now : Time) (v : VoteEvent) (rd : ArchivedRound) (phases : Map VoteType InvestigationVote)
    → lookup v.validator_addr rd.votes ≡ some phases
    → record_vote now v rd ≡ admit_vote now v rd phases
unfolding record_vote
record_vote-again now v rd phases f = ground arith

record_vote-full :
    (now : Time) (v : VoteEvent) (rd : ArchivedRound)
    → lookup v.validator_addr rd.votes ≡ none
    → has_no_place v rd ≡ true
    → record_vote now v rd ≡ (record rd { truncated = true }, if rd.truncated then quiet else noted)
unfolding record_vote
record_vote-full now v rd f full = ground arith

record_vote-fits :
    (now : Time) (v : VoteEvent) (rd : ArchivedRound)
    → lookup v.validator_addr rd.votes ≡ none
    → has_no_place v rd ≡ false
    → record_vote now v rd ≡ admit_vote now v rd []
unfolding record_vote
record_vote-fits now v rd f fits = ground arith

record_vote-quiet :
    (now : Time) (v : VoteEvent) (rd : ArchivedRound)
    → (record_vote now v rd).1 ≡ quiet
    → (record_vote now v rd).0 ≡ rd
record_vote-quiet now v rd q = elim (Option-cases (lookup v.validator_addr rd.votes)) [
  | inr (phases, f) ↦
      let again = record_vote-again now v rd phases f in
      let q' : (admit_vote now v rd phases).1 ≡ quiet = ap (λ r. r.1) (sym again) ∙ q in
      elim (Option-cases (lookup v.type phases)) [
        | inr (vote, e) ↦ ap (λ r. r.0) again ∙ admit_vote-quiet now v rd phases vote f e q'
        | inl e ↦ absurd (recorded≢quiet (sym (admit_vote-new now v rd phases e) ∙ q'))
      ]
  | inl f ↦ elim (Bool-cases (has_no_place v rd)) [
    | inl full ↦
        let e = record_vote-full now v rd f full in
        ap (λ r. r.0) e
        ∙ truncated_same rd (truncated_of_quiet rd.truncated (ap (λ r. r.1) (sym e) ∙ q))
    | inr fits ↦ absurd (
        recorded≢quiet (
          sym (admit_vote-fresh now v rd)
          ∙ ap (λ r. r.1) (sym (record_vote-fits now v rd f fits))
          ∙ q))
  ]
]

-- A vote that is counted moves the revision of its block; any other leaves the block as it was.
pub record_vote-IsAdvanced :
    (now : Time) (v : VoteEvent) (block : ArchivedHeight) (rd : ArchivedRound)
    → lookup rd.round block.rounds ≡ some rd
    → IsAdvanced 1 block
        (count_effect now (record_vote now v rd).1 (put_round (record_vote now v rd).0 block))
unfolding count_effect next64
record_vote-IsAdvanced now v block rd at = go (record_vote now v rd).1 refl
  where
    go :
        (effect : VoteEffect)
        → (record_vote now v rd).1 ≡ effect
        → IsAdvanced 1 block (count_effect now effect (put_round (record_vote now v rd).0 block))
    go quiet e = inl (
        ap (λ r. put_round r block) (record_vote-quiet now v rd e)
        ∙ ap (λ rounds. record block { rounds = rounds }) (insert_same rd.round rd block.rounds at))
    go noted e = IsAdvanced-once 1 block _ (omega arith) refl
    go recorded e = IsAdvanced-once 1 block _ (omega arith) refl

-- Rosters that are set.
set_roster-id :
    (m : Map String ValidatorPower) (rd : ArchivedRound)
    → (has_no_roster rd && nat_ltb 0 (length m)) ≡ false
    → set_roster m rd ≡ rd
unfolding set_roster
set_roster-id [] rd e = elim (Bool-cases (has_no_roster rd)) [
  | inl h ↦ rw h (ap (λ roster. record rd { roster = roster }) (sym (empty_of_no_roster rd h)))
  | inr h ↦ rw h refl
]
set_roster-id (x ∷ m) rd e = elim (Bool-cases (has_no_roster rd)) [
  | inl h ↦ absurd (ground arith)
  | inr h ↦ rw h refl
]

-- Setting the rosters of a block's rounds moves its revision once for each round that changes.
count_rosters_lem :
    (m : Map String ValidatorPower) (rounds : Map ℤ ArchivedRound) (revision : ℕ)
    → ((map_values (set_roster m) rounds ≡ rounds) × (count_rosters m rounds revision ≡ revision))
      ⊎ ((k : ℕ) × (0 < k)
          × (k ≤ length rounds)
          × (count_rosters m rounds revision ≡ (revision + k) % 18446744073709551616))
unfolding count_rosters next64
count_rosters_lem m [] revision = inl (refl, refl)
count_rosters_lem m ((n, rd) ∷ rounds) revision =
    elim (Bool-cases (has_no_roster rd && nat_ltb 0 (length m))) [
      | inr h ↦ rw h (elim (count_rosters_lem m rounds revision) [
        | inl (same, e) ↦ inl (
          ap (λ r. (n, r) ∷ map_values (set_roster m) rounds) (set_roster-id m rd h)
              ∙ ap (λ r. (n, rd) ∷ r) same,
          e,
        )
        | inr (k, p, l, e) ↦ inr (k, p, omega arith, e)
      ])
      | inl h ↦ rw h (elim (count_rosters_lem m rounds ((revision + 1) % 18446744073709551616)) [
        | inl (same, e) ↦ inr (1, omega arith, omega arith, e)
        | inr (k, p, l, e) ↦ inr (k + 1, omega arith, omega arith, omega arith)
      ])
    ]

pub set_block_validators-IsAdvanced :
    (m : Map String ValidatorPower) (n : ℕ) (block : ArchivedHeight)
    → length block.rounds ≤ n
    → IsAdvanced n block (set_block_validators m block)
unfolding set_block_validators
set_block_validators-IsAdvanced m n block l =
    elim (count_rosters_lem m block.rounds block.revision) [
      | inl (same, e) ↦ inl (
          ap
            (λ rounds. record block {
              rounds = rounds;
              revision = count_rosters m block.rounds block.revision;
            })
            same
          ∙ ap (λ r. record block { revision = r }) e)
      | inr (k, p, q, e) ↦ inr (k, p, omega arith, e)
    ]
