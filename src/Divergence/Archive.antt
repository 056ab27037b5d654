-- ===== src/Divergence/Archive.antt =====
-- internal/divergence/archive.go: what the archive retains of heights, rounds and votes. A pointer
-- into the archive is the record itself, and a write through it puts the record back. The functions
-- whose names end in `Locked` run under the tracker's lock: each is one step on the tracker.
use mathlib.Core.Option
use cmt_top.Base.{
  ℕ, ◌+◌, Bool, true, false, ◌||◌, [], ◌∷◌, Option, none, some, String_eq, ℕ_eq, if◌then◌else◌,
  length, keep,
}
use cmt_top.Base.{ltb as nat_ltb, leb as nat_leb}
use cmt_top.Base.Int.{ℤ, pos, negsuc, ltb, leb, ℤ_eq, next64}
use cmt_top.Base.Maps.{Map, lookup, insert, erase}
use cmt_top.State.Types.{Time}
use cmt_top.Divergence.Types.{RoundKey, ArchivedRound, ArchivedHeight, Tracker}

abbrev pub investigation_round_limit : ℕ
investigation_round_limit = 128

abbrev pub investigation_hash_limit : ℕ
investigation_hash_limit = 4

abbrev pub investigation_unknown_validator_limit : ℕ
investigation_unknown_validator_limit = 64

abbrev pub investigation_identity_limit : ℕ
investigation_identity_limit = 128

abbrev pub is_some {ℓ} : {A : Type ℓ} → Option A → Bool
is_some none = false
is_some (some _) = true

-- The smallest of a key and the keys of a map.
unfoldable pub min_key {ℓ} : {V : Type ℓ} → ℤ → Map ℤ V → ℤ
min_key k [] = k
min_key k ((j, _) ∷ m) = min_key (if ltb j k then j else k) m

abbrev pub put_block : ArchivedHeight → Tracker → Tracker
put_block b t = record t { archive = insert b.height b t.archive }

unfoldable pub is_archived : Map ℤ ArchivedHeight → RoundKey → Bool
is_archived archive key = elim (lookup key.height archive) [
  | none ↦ false
  | some b ↦ is_some (lookup key.round b.rounds)
]

unfoldable pub prune_detector_rounds : Tracker → Tracker
prune_detector_rounds t = record t {
  rounds = keep (λ entry. is_archived t.archive entry.0) t.rounds;
}

abbrev pub new_block : Time → ℤ → ArchivedHeight
new_block now height = record {
  revision = 1;
  height = height;
  rounds = [];
  first_seen_at = now;
  last_seen_at = now;
  committed = false;
  canonical_hash = "";
  first_round = pos 0;
  last_round = pos 0;
  rounds_observed = 0;
  rounds_evicted = 0;
  evicted_through = negsuc 0;
}

-- Over the limit on heights the smallest goes, the new one if that is it.
unfoldable pub evict_height : ℤ → Tracker → Tracker
evict_height height t =
    if ltb t.cfg.history_size (pos (length t.archive))
    then (let oldest = min_key height t.archive in
        prune_detector_rounds (record t {
          archive = erase oldest t.archive;
          archive_evicted_through =
              if ltb t.archive_evicted_through oldest then oldest else t.archive_evicted_through;
        }))
    else t

unfoldable pub add_height : Time → ℤ → Tracker → Tracker
add_height now height t = evict_height height (record t {
  archive = insert height (new_block now height) t.archive;
  catalogue_revision = next64 t.catalogue_revision;
  archive_latest_height =
      if ltb t.archive_latest_height height then height else t.archive_latest_height;
})

-- No height at or below zero, nor one that has been evicted, has a block.
abbrev pub is_closed : Tracker → ℤ → Bool
is_closed t height = leb height (pos 0) || leb height t.archive_evicted_through

unfoldable pub create_archive_height : Time → Tracker → ℤ → Tracker × Option ArchivedHeight
create_archive_height now t height =
    if is_closed t height then (t, none) else elim (lookup height t.archive) [
      | some b ↦ (t, some b)
      | none ↦ let t' = add_height now height t in (t', lookup height t'.archive)
    ]

unfoldable pub archive_height : Time → Tracker → ℤ → Tracker × Option ArchivedHeight
archive_height now t height =
    if is_closed t height then (t, none) else elim (lookup height t.archive) [
      | some b ↦ (t, some b)
      | none ↦
          if leb height t.committed_height then (t, none) else create_archive_height now t height
    ]

abbrev pub new_round : Time → Tracker → ℤ → ArchivedRound
new_round now t round = record {
  round = round;
  proposer = "";
  first_seen_at = now;
  last_seen_at = now;
  roster = t.default_validators;
  votes = [];
  truncated = false;
}

unfoldable pub add_round : Time → Tracker → ArchivedHeight → ℤ → ArchivedHeight
add_round now t block round = record block {
  rounds = insert round (new_round now t round) block.rounds;
  revision = next64 block.revision;
  first_round =
      if nat_leb block.rounds_observed 0 || ltb round block.first_round
      then round
      else block.first_round;
  last_round =
      if nat_leb block.rounds_observed 0 || ltb block.last_round round
      then round
      else block.last_round;
  rounds_observed = block.rounds_observed + 1;
  last_seen_at = now;
}

abbrev pub has_too_many_rounds : ArchivedHeight → Bool
has_too_many_rounds block = nat_ltb investigation_round_limit (length block.rounds)

-- Over the limit on rounds the smallest goes.
unfoldable pub evict_round : ℤ → ArchivedHeight → ArchivedHeight
evict_round round block =
    let oldest = min_key round block.rounds in
    record block {
      rounds = erase oldest block.rounds;
      evicted_through = oldest;
      rounds_evicted = block.rounds_evicted + 1;
    }

-- The block with the new round, put into the archive.
unfoldable pub store_round : Tracker → ℤ → ArchivedHeight → Tracker × ArchivedHeight
store_round t round block =
    if has_too_many_rounds block
    then (let block' = evict_round round block in
        (prune_detector_rounds (put_block block' t), block'))
    else (put_block block t, block)

unfoldable pub archive_round :
    Time → Tracker → ArchivedHeight → ℤ → Tracker × Option (ArchivedHeight × ArchivedRound)
archive_round now t block round =
    if ltb round (pos 0) || leb round block.evicted_through
    then (t, none)
    else elim (lookup round block.rounds) [
      | some rd ↦ (t, some (block, rd))
      | none ↦
          if block.committed || leb block.height t.committed_height
          then (t, none)
          else (let (t', block') = store_round t round (add_round now t block round) in
              (t', Option.map (λ rd. (block', rd)) (lookup round block'.rounds)))
    ]
