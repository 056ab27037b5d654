-- ===== src/Divergence/Resend.antt =====
-- A vote that is recorded twice leaves its round in internal/divergence/archive.go as one does.
use mathlib.Core.Option
use cmt_top.Base.{
  ◌≤◌, ◌≡◌, refl, sym, ◌⊎◌, inl, inr, Bool, true, false, not, ◌&&◌, List, [], ◌∷◌, ◌++◌, none, some,
  arith, String, String_eq, ℕ_eq, Bool-cases, Option-cases, length, equals_refl, subst,
}
use cmt_top.Base.{ltb as nat_ltb, leb as nat_leb}
use cmt_top.Base.Int.{ℤ_eq}
use cmt_top.Base.Maps.{Map, lookup, insert, lookup-insert_self, insert_same}
use cmt_top.State.Types.{Time}
use cmt_top.Divergence.Types.{
  VoteType, VoteEvent, InvestigationHash, InvestigationVote, ArchivedRound,
}
use cmt_top.Divergence.Archive.{
  is_some, investigation_hash_limit, investigation_unknown_validator_limit,
}
use cmt_top.Divergence.Votes.{
  unknown_voters, quiet, new_vote, has_hash, new_hash, store_vote, admit_vote, record_vote,
}

has_hash-append :
    (hash : String) (hs : List InvestigationHash) (h : InvestigationHash)
    → h.hash ≡ hash
    → has_hash hash (hs ++ h ∷ []) ≡ true
has_hash-append hash [] h e = rw (e, equals_refl hash)
has_hash-append hash (x ∷ hs) h e = ground (arith, has_hash-append hash hs h e)

-- A slot that holds the hash, or that is full and marked so, takes the same vote without a change.
abbrev IsSettled : VoteEvent → ArchivedRound → InvestigationVote → Type 0
IsSettled v rd vote =
    (has_hash v.block_id_hash vote.hashes ≡ true)
    ⊎ ((has_hash v.block_id_hash vote.hashes ≡ false)
        × (investigation_hash_limit ≤ length vote.hashes)
        × (vote.truncated ≡ true)
        × (vote.conflicting ≡ true)
        × (rd.truncated ≡ true))

store_same :
    (v : VoteEvent) (rd : ArchivedRound) (phases : Map VoteType InvestigationVote)
    (vote : InvestigationVote)
    → lookup v.validator_addr rd.votes ≡ some phases
    → lookup v.type phases ≡ some vote
    → store_vote v phases vote rd ≡ rd
store_same v rd phases vote h k =
    ground (arith, insert_same v.type vote phases k, insert_same v.validator_addr phases rd.votes h)

admit_settled :
    (later : Time) (v : VoteEvent) (rd : ArchivedRound) (phases : Map VoteType InvestigationVote)
    (vote : InvestigationVote)
    → lookup v.validator_addr rd.votes ≡ some phases
    → lookup v.type phases ≡ some vote
    → IsSettled v rd vote
    → admit_vote later v rd phases ≡ (rd, quiet)
unfolding admit_vote
admit_settled later v rd phases vote h k (inl known) = ground arith
admit_settled later v rd phases vote h k (inr (fresh, full, t, c, r)) =
    let same : record vote { truncated = true; conflicting = true } ≡ vote = ground arith in
    let stored = store_same v rd phases vote h k in ground (arith, same, stored)

record_settled :
    (later : Time) (v : VoteEvent) (rd : ArchivedRound) (phases : Map VoteType InvestigationVote)
    (vote : InvestigationVote)
    → lookup v.validator_addr rd.votes ≡ some phases
    → lookup v.type phases ≡ some vote
    → IsSettled v rd vote
    → record_vote later v rd ≡ (rd, quiet)
unfolding record_vote
record_settled later v rd phases vote h k s =
    ground (arith, admit_settled later v rd phases vote h k s)

abbrev Settles : VoteEvent → ArchivedRound → Type 0
Settles v rd =
    (phases : Map VoteType InvestigationVote) × (vote : InvestigationVote) × (lookup
        v.validator_addr rd.votes
      ≡ some phases)
    × (lookup v.type phases ≡ some vote)
    × IsSettled v rd vote

abbrev slot_of : VoteEvent → Map VoteType InvestigationVote → InvestigationVote
slot_of v phases = Option.get_or (lookup v.type phases) new_vote

known_slot :
    (v : VoteEvent) (phases : Map VoteType InvestigationVote)
    → has_hash v.block_id_hash (slot_of v phases).hashes ≡ true
    → lookup v.type phases ≡ some (slot_of v phases)
known_slot v phases h = ground arith

abbrev full_slot : InvestigationVote → InvestigationVote
full_slot vote = record vote { truncated = true; conflicting = true }

abbrev grown_slot : Time → VoteEvent → InvestigationVote → InvestigationVote
grown_slot now v vote =
    let hashes = vote.hashes ++ new_hash now v ∷ [] in
    record vote { hashes = hashes; conflicting = nat_ltb 1 (length hashes) }

admit-Settles :
    (now : Time) (v : VoteEvent) (rd : ArchivedRound) (phases : Map VoteType InvestigationVote)
    → (lookup v.validator_addr rd.votes ≡ some phases) ⊎ (lookup v.type phases ≡ none)
    → Settles v (admit_vote now v rd phases).0
unfolding admit_vote
admit-Settles now v rd phases from =
    let vote = slot_of v phases in
    elim (Bool-cases (has_hash v.block_id_hash vote.hashes)) [
      | inl known ↦ rw known (
        phases,
        vote,
        ground (arith, known_slot v phases known),
        known_slot v phases known,
        inl known,
      )
      | inr fresh ↦ elim (Bool-cases (nat_leb investigation_hash_limit (length vote.hashes))) [
        | inl full ↦
            rw (fresh, full)
              (
                insert v.type (full_slot vote) phases,
                full_slot vote,
                lookup-insert_self _ _ _,
                lookup-insert_self _ _ _,
                inr (fresh, ground arith, refl, refl, refl),
              )
        | inr room ↦
            rw (fresh, room)
              (
                insert v.type (grown_slot now v vote) phases,
                grown_slot now v vote,
                lookup-insert_self _ _ _,
                lookup-insert_self _ _ _,
                inl (has_hash-append v.block_id_hash vote.hashes (new_hash now v) refl),
              )
      ]
    ]

over_limit :
    (later : Time) (v : VoteEvent) (rd : ArchivedRound)
    → lookup v.validator_addr rd.votes ≡ none
    → (not (is_some (lookup v.validator_addr rd.roster))
        && nat_leb investigation_unknown_validator_limit (unknown_voters rd.roster rd.votes))
      ≡ true
    → rd.truncated ≡ true
    → record_vote later v rd ≡ (rd, quiet)
unfolding record_vote
over_limit later v rd h k t = ground arith

pub record-some :
    (now : Time) (v : VoteEvent) (rd : ArchivedRound) (phases : Map VoteType InvestigationVote)
    → lookup v.validator_addr rd.votes ≡ some phases
    → record_vote now v rd ≡ admit_vote now v rd phases
unfolding record_vote
record-some now v rd phases h = ground arith

abbrev pub is_over_limit : VoteEvent → ArchivedRound → Bool
is_over_limit v rd =
    not (is_some (lookup v.validator_addr rd.roster))
    && nat_leb investigation_unknown_validator_limit (unknown_voters rd.roster rd.votes)

pub record-none :
    (now : Time) (v : VoteEvent) (rd : ArchivedRound)
    → lookup v.validator_addr rd.votes ≡ none
    → is_over_limit v rd ≡ false
    → record_vote now v rd ≡ admit_vote now v rd []
unfolding record_vote
record-none now v rd h room = ground arith

pub record-over :
    (now : Time) (v : VoteEvent) (rd : ArchivedRound)
    → lookup v.validator_addr rd.votes ≡ none
    → is_over_limit v rd ≡ true
    → (record_vote now v rd).0 ≡ record rd { truncated = true }
unfolding record_vote
record-over now v rd h over = ground arith

lookup-nil : (k : VoteType) → lookup {V = InvestigationVote} k [] ≡ none
unfolding lookup
lookup-nil k = refl

pub record_twice :
    (now later : Time) (v : VoteEvent) (rd : ArchivedRound)
    → record_vote later v (record_vote now v rd).0 ≡ ((record_vote now v rd).0, quiet)
record_twice now later v rd = elim (Option-cases (lookup v.validator_addr rd.votes)) [
  | inr (phases, h) ↦ settle (record_vote now v rd).0 (
      subst (λ r. Settles v r.0) (sym (record-some now v rd phases h))
        (admit-Settles now v rd phases (inl h)))
  | inl h ↦
      elim (Bool-cases (
        not (is_some (lookup v.validator_addr rd.roster))
        && nat_leb investigation_unknown_validator_limit (unknown_voters rd.roster rd.votes))) [
          | inl over ↦
              subst (λ r. record_vote later v r ≡ (r, quiet)) (sym (record-over now v rd h over))
                (over_limit later v (record rd { truncated = true }) h over refl)
          | inr room ↦ settle (record_vote now v rd).0 (
              subst (λ r. Settles v r.0) (sym (record-none now v rd h room))
                (admit-Settles now v rd [] (inr (lookup-nil v.type))))
        ]
]
  where
    settle : (rd' : ArchivedRound) → Settles v rd' → record_vote later v rd' ≡ (rd', quiet)
    settle rd' (phases, vote, h, k, s) = record_settled later v rd' phases vote h k s
