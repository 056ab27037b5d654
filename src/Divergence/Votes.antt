-- ===== src/Divergence/Votes.antt =====
-- internal/divergence/archive.go: what a proposer, a vote and a commit add to the archive.
use Prim.Native.String.{len}
use mathlib.Core.Option
use cmt_top.Base.{
  ℕ, suc, Bool, true, false, not, ◌&&◌, ◌||◌, String, List, [], ◌∷◌, ◌++◌, Option, none, some, ◌==◌,
  String_eq, ℕ_eq, if◌then◌else◌, length, any_of,
}
use cmt_top.Base.{ltb as nat_ltb, leb as nat_leb}
use cmt_top.Base.Int.{ℤ, pos, ltb, leb, ℤ_eq, next64, max_int32}
use cmt_top.Base.Maps.{Map, lookup, insert}
use cmt_top.State.Types.{Time, is_zero_time}
use cmt_top.Divergence.Types.{
  VoteType, prevote, precommit, VoteEvent, ValidatorPower, InvestigationHash, InvestigationVote,
  ArchivedRound, ArchivedHeight, Tracker,
}
use cmt_top.Divergence.Archive.{
  investigation_hash_limit, investigation_unknown_validator_limit, investigation_identity_limit,
  is_some, put_block, create_archive_height, archive_height, archive_round,
}

abbrev pub put_round : ArchivedRound → ArchivedHeight → ArchivedHeight
put_round rd block = record block { rounds = insert rd.round rd block.rounds }

unfoldable pub set_proposer :
    Time → String → Tracker × Option (ArchivedHeight × ArchivedRound) → Tracker
set_proposer now proposer (t, none) = t
set_proposer now proposer (t, some (block, rd)) =
    if not (proposer == "") && not (rd.proposer == proposer)
    then (let rd' = record rd { proposer = proposer; last_seen_at = now } in
        put_block
          (record (put_round rd' block) { last_seen_at = now; revision = next64 block.revision }) t)
    else t

unfoldable pub round_from :
    Time → ℤ → Tracker × Option ArchivedHeight → Tracker × Option (ArchivedHeight × ArchivedRound)
round_from now round (t, none) = (t, none)
round_from now round (t, some block) = archive_round now t block round

-- The block and the round for an observation, made if need be; `none` where they are refused.
abbrev pub find_round : Time → Tracker → ℤ → ℤ → Tracker × Option (ArchivedHeight × ArchivedRound)
find_round now t height round = round_from now round (archive_height now t height)

abbrev pub is_unfit : ℤ → ℤ → String → Bool
is_unfit height round proposer =
    leb height (pos 0)
    || ltb round (pos 0)
    || ltb max_int32 round
    || nat_ltb investigation_identity_limit (len proposer)

unfoldable pub observe_round : Time → Tracker → ℤ → ℤ → String → Tracker
observe_round now t height round proposer =
    if is_unfit height round proposer
    then t
    else set_proposer now proposer (find_round now t height round)

unfoldable pub is_malformed : VoteEvent → Bool
is_malformed v =
    leb v.height (pos 0)
    || ltb v.round (pos 0)
    || ltb max_int32 v.round
    || v.validator_addr == ""
    || nat_ltb investigation_identity_limit (len v.validator_addr)
    || nat_ltb investigation_identity_limit (len v.block_id_hash)
    || (not (v.type == prevote) && not (v.type == precommit))

-- Voters without a place in the roster.
unfoldable pub unknown_voters :
    Map String ValidatorPower → Map String (Map VoteType InvestigationVote) → ℕ
unknown_voters roster [] = 0
unknown_voters roster ((addr, _) ∷ votes) =
    let rest = unknown_voters roster votes in
    if is_some (lookup addr roster) then rest else suc rest

-- What a vote does to the counters of its block.
pub data VoteEffect : Type 0 where
  quiet noted recorded : VoteEffect

abbrev pub new_vote : InvestigationVote
new_vote = record { observed = true; hashes = []; conflicting = false; truncated = false }

abbrev pub has_hash : String → List InvestigationHash → Bool
has_hash hash = any_of (λ h. h.hash == hash)

abbrev pub new_hash : Time → VoteEvent → InvestigationHash
new_hash now v = record {
  hash = v.block_id_hash;
  first_seen_at = now;
  last_seen_at = now;
  vote_timestamp = if is_zero_time v.timestamp then none else some v.timestamp;
}

abbrev pub store_vote :
    VoteEvent → Map VoteType InvestigationVote → InvestigationVote → ArchivedRound → ArchivedRound
store_vote v phases vote rd = record rd {
  votes = insert v.validator_addr (insert v.type vote phases) rd.votes;
}

unfoldable pub admit_vote :
    Time → VoteEvent → ArchivedRound → Map VoteType InvestigationVote → ArchivedRound × VoteEffect
admit_vote now v rd phases =
    let vote = Option.get_or (lookup v.type phases) new_vote in
    if has_hash v.block_id_hash vote.hashes
    then (rd, quiet)
    else if nat_leb investigation_hash_limit (length vote.hashes)
    then (
      record (store_vote v phases (record vote { truncated = true; conflicting = true }) rd) {
        truncated = true;
      },
      if not vote.truncated || not vote.conflicting || not rd.truncated then noted else quiet,
    )
    else (let hashes = vote.hashes ++ new_hash now v ∷ [] in
        (
          record (store_vote v phases
              (record vote { hashes = hashes; conflicting = nat_ltb 1 (length hashes) }) rd) {
                last_seen_at = now;
              },
          recorded,
        ))

unfoldable pub record_vote : Time → VoteEvent → ArchivedRound → ArchivedRound × VoteEffect
record_vote now v rd = elim (lookup v.validator_addr rd.votes) [
  | some phases ↦ admit_vote now v rd phases
  | none ↦
      if not (is_some (lookup v.validator_addr rd.roster))
        && nat_leb investigation_unknown_validator_limit (unknown_voters rd.roster rd.votes)
      then (record rd { truncated = true }, if rd.truncated then quiet else noted)
      else admit_vote now v rd []
]

unfoldable pub count_effect : Time → VoteEffect → ArchivedHeight → ArchivedHeight
count_effect now quiet block = block
count_effect now noted block = record block { revision = next64 block.revision }
count_effect now recorded block = record block {
  revision = next64 block.revision;
  last_seen_at = now;
}

unfoldable pub put_vote :
    Time → VoteEvent → Tracker × Option (ArchivedHeight × ArchivedRound) → Tracker
put_vote now v (t, none) = t
put_vote now v (t, some (block, rd)) =
    let (rd', effect) = record_vote now v rd in
    put_block (count_effect now effect (put_round rd' block)) t

unfoldable pub observe_vote : Time → Tracker → VoteEvent → Tracker
observe_vote now t v =
    if is_malformed v then t else put_vote now v (find_round now t v.height v.round)

unfoldable pub commit_block : Time → String → Tracker × Option ArchivedHeight → Tracker
commit_block now hash (t, none) = t
commit_block now hash (t, some block) =
    if not block.committed || (block.canonical_hash == "" && not (hash == ""))
    then put_block
        (record block {
          committed = true;
          canonical_hash = hash;
          last_seen_at = now;
          revision = next64 block.revision;
        })
        t
    else t

unfoldable pub archive_commit : Time → Tracker → ℤ → String → Tracker
archive_commit now t height hash =
    if nat_ltb investigation_identity_limit (len hash)
    then t
    else commit_block now hash (create_archive_height now t height)
