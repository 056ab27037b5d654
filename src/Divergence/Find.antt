-- ===== src/Divergence/Find.antt =====
-- Where internal/divergence/archive.go finds or makes the round of an observation, a second look
-- finds the same.
use mathlib.Core.Option
use cmt_top.Base.{
  ◌≡◌, refl, sym, subst, ap, ◌∙◌, ◌⊎◌, inl, inr, true, false, ◌||◌, [], ◌∷◌, Option, none, some,
  arith, Bool-cases, Option-cases,
}
use cmt_top.Base.Int.{ℤ, pos, ltb, leb, eqb_iff, ℤ_eq, ◌≤ℤ◌}
use cmt_top.Base.Maps.{
  Map, lookup, insert, lookup-insert, lookup-erase, lookup-insert_self, AllOf, AllOf-lookup,
}
use cmt_top.State.Types.{Time}
use cmt_top.Divergence.Types.{ArchivedRound, ArchivedHeight, Tracker}
use cmt_top.Divergence.Archive.{
  min_key, prune_detector_rounds, evict_height, new_block, add_height, is_closed,
  create_archive_height, archive_height, new_round, add_round, evict_round, store_round,
  archive_round,
}
use cmt_top.Divergence.Votes.{round_from, find_round}

-- Blocks and rounds stand under their own numbers.
abbrev pub RoundAt : ℤ → ArchivedRound → Type 0
RoundAt number rd = rd.round ≡ number

abbrev pub BlockAt : ℤ → ArchivedHeight → Type 0
BlockAt height block = (block.height ≡ height) × AllOf RoundAt block.rounds

abbrev pub IsKeyed : Tracker → Type 0
IsKeyed t = AllOf BlockAt t.archive

-- The archive has the block and the round, and neither is evicted.
pub record Found (t : Tracker) (height round : ℤ) (block : ArchivedHeight) (rd : ArchivedRound)
    : Type 0 where
  pub is_open : is_closed t height ≡ false
  pub has_block : lookup height t.archive ≡ some block
  pub at_height : block.height ≡ height
  pub in_range : (ltb round (pos 0) || leb round block.evicted_through) ≡ false
  pub has_round : lookup round block.rounds ≡ some rd
  pub at_round : rd.round ≡ round

archive_height-present :
    (now : Time) (t : Tracker) (height : ℤ) (block : ArchivedHeight)
    → is_closed t height ≡ false
    → lookup height t.archive ≡ some block
    → archive_height now t height ≡ (t, some block)
unfolding archive_height
archive_height-present now t height block c h = ground arith

archive_round-present :
    (now : Time) (t : Tracker) (round : ℤ) (block : ArchivedHeight) (rd : ArchivedRound)
    → (ltb round (pos 0) || leb round block.evicted_through) ≡ false
    → lookup round block.rounds ≡ some rd
    → archive_round now t block round ≡ (t, some (block, rd))
unfolding archive_round
archive_round-present now t round block rd c h = ground arith

pub Found-find_round :
    (now : Time) (t : Tracker) (height round : ℤ) (block : ArchivedHeight) (rd : ArchivedRound)
    → Found t height round block rd
    → find_round now t height round ≡ (t, some (block, rd))
unfolding round_from
Found-find_round now t height round block rd f =
    ap (round_from now round) (archive_height-present now t height block f.is_open f.has_block)
    ∙ archive_round-present now t round block rd f.in_range f.has_round

abbrev pub Reaches : ℤ → ℤ → Tracker × Option (ArchivedHeight × ArchivedRound) → Type 0
Reaches height round (t, none) = (now : Time) → find_round now t height round ≡ (t, none)
Reaches height round (t, some (block, rd)) = Found t height round block rd

-- What `archive_height` leaves: a block that is there, or a height that it refuses again.
abbrev pub ReachesBlock : ℤ → Tracker × Option ArchivedHeight → Type 0
ReachesBlock height (t, none) = (now : Time) → archive_height now t height ≡ (t, none)
ReachesBlock height (t, some block) =
    (is_closed t height ≡ false) × (lookup height t.archive ≡ some block) × BlockAt height block

add_height_closed :
    (now : Time) (height : ℤ) (t : Tracker)
    → lookup height (add_height now height t).archive ≡ none
    → is_closed (add_height now height t) height ≡ true
unfolding add_height evict_height prune_detector_rounds
add_height_closed now height t h =
    let archive = insert height (new_block now height) t.archive in
    let oldest = min_key height archive in
    ground (
      arith,
      lookup-erase oldest height archive,
      lookup-insert_self height (new_block now height) t.archive,
      eqb_iff oldest height,
    )

pub min_key-le {ℓ} : {V : Type ℓ} (k : ℤ) (m : Map ℤ V) → min_key k m ≤ℤ k
unfolding min_key
min_key-le k [] = omega arith
min_key-le k ((j, v) ∷ m) = ground (arith, min_key-le j m, min_key-le k m)

add_height_open :
    (now : Time) (height : ℤ) (t : Tracker) (block : ArchivedHeight)
    → is_closed t height ≡ false
    → lookup height (add_height now height t).archive ≡ some block
    → (block ≡ new_block now height) × (is_closed (add_height now height t) height ≡ false)
unfolding add_height evict_height prune_detector_rounds
add_height_open now height t block c h =
    let archive = insert height (new_block now height) t.archive in
    let oldest = min_key height archive in
    ground (
      arith,
      lookup-erase oldest height archive,
      lookup-insert_self height (new_block now height) t.archive,
      eqb_iff oldest height,
      min_key-le height archive,
    )

archive_height-closed :
    (now : Time) (t : Tracker) (height : ℤ)
    → is_closed t height ≡ true
    → archive_height now t height ≡ (t, none)
unfolding archive_height
archive_height-closed now t height c = ground arith

create_archive_height-ReachesBlock :
    (now : Time) (t : Tracker) (height : ℤ)
    → is_closed t height ≡ false
    → lookup height t.archive ≡ none
    → ReachesBlock height (create_archive_height now t height)
unfolding create_archive_height
create_archive_height-ReachesBlock now t height c h =
    elim (Option-cases (lookup height (add_height now height t).archive)) [
      | inl gone ↦
          rw (c, h, gone)
            (λ later. archive_height-closed later _ height (add_height_closed now height t gone))
      | inr (block, here) ↦
          let (same, open_) = add_height_open now height t block c here in
          rw (c, h, here) (open_, here, rw same (refl, tt))
    ]

pub archive_height-ReachesBlock :
    (now : Time) (t : Tracker) (height : ℤ)
    → IsKeyed t
    → ReachesBlock height (archive_height now t height)
unfolding archive_height
archive_height-ReachesBlock now t height keyed = elim (Bool-cases (is_closed t height)) [
  | inl c ↦ rw c (λ later. rw c)
  | inr c ↦ elim (Option-cases (lookup height t.archive)) [
    | inr (block, h) ↦ rw (c, h) (c, h, AllOf-lookup BlockAt height block t.archive keyed h)
    | inl h ↦ elim (Bool-cases (leb height t.committed_height)) [
      | inl late ↦ rw (c, h, late) (λ later. rw (c, h, late))
      | inr new ↦ rw (c, h, new) (create_archive_height-ReachesBlock now t height c h)
    ]
  ]
]

store_round_lem :
    (t : Tracker) (round : ℤ) (block : ArchivedHeight)
    → let r = store_round t round block in
      (r.0.archive ≡ insert r.1.height r.1 t.archive)
      × (r.0.archive_evicted_through ≡ t.archive_evicted_through)
      × (r.1.height ≡ block.height)
unfolding store_round evict_round prune_detector_rounds
store_round_lem t round block = ground arith

-- The new round is in the block, or it is the one that was evicted.
store_round_slot :
    (now : Time) (t : Tracker) (round : ℤ) (block : ArchivedHeight)
    → leb round block.evicted_through ≡ false
    → let block' = (store_round t round (add_round now t block round)).1 in
      ((lookup round block'.rounds ≡ none) × (leb round block'.evicted_through ≡ true))
      ⊎ ((lookup round block'.rounds ≡ some (new_round now t round))
          × (leb round block'.evicted_through ≡ false))
unfolding store_round evict_round add_round
store_round_slot now t round block c =
    let rounds = insert round (new_round now t round) block.rounds in
    let oldest = min_key round rounds in
    ground (
      arith,
      lookup-erase oldest round rounds,
      lookup-insert_self round (new_round now t round) block.rounds,
      eqb_iff oldest round,
      min_key-le round rounds,
    )

stays_out :
    (now : Time) (t : Tracker) (height round : ℤ) (block : ArchivedHeight)
    → is_closed t height ≡ false
    → lookup height t.archive ≡ some block
    → archive_round now t block round ≡ (t, none)
    → find_round now t height round ≡ (t, none)
unfolding round_from
stays_out now t height round block c h e =
    ap (round_from now round) (archive_height-present now t height block c h) ∙ e

archive_round-refused :
    (now : Time) (t : Tracker) (round : ℤ) (block : ArchivedHeight)
    → ((ltb round (pos 0) || leb round block.evicted_through) ≡ true)
      ⊎ ((lookup round block.rounds ≡ none)
          × ((block.committed || leb block.height t.committed_height) ≡ true))
    → archive_round now t block round ≡ (t, none)
unfolding archive_round
archive_round-refused now t round block h = ground arith

archive_round-added :
    (now : Time) (t : Tracker) (round : ℤ) (block : ArchivedHeight)
    → (ltb round (pos 0) || leb round block.evicted_through) ≡ false
    → lookup round block.rounds ≡ none
    → (block.committed || leb block.height t.committed_height) ≡ false
    → let r = store_round t round (add_round now t block round) in
      archive_round now t block round
      ≡ (r.0, Option.map (λ rd. (r.1, rd)) (lookup round r.1.rounds))
unfolding archive_round
archive_round-added now t round block a b c = ground arith

module _ (now : Time) (t : Tracker) (height round : ℤ) (block : ArchivedHeight)
    (c : is_closed t height ≡ false) (h : lookup height t.archive ≡ some block)
    (at : BlockAt height block) where
  added-Reaches :
      (ltb round (pos 0) || leb round block.evicted_through) ≡ false
      → let r = store_round t round (add_round now t block round) in
        Reaches height round (r.0, Option.map (λ rd. (r.1, rd)) (lookup round r.1.rounds))
  unfolding add_round
  added-Reaches a =
      let b1 = add_round now t block round in
      let r = store_round t round b1 in
      let (arch, evt, ht) = store_round_lem t round b1 in
      let ht' : r.1.height ≡ height = ht ∙ at.0 in
      let here : lookup height r.0.archive ≡ some r.1 =
        ground (arith, lookup-insert r.1.height height r.1 t.archive, eqb_iff r.1.height height) in
      let c' : is_closed r.0 height ≡ false = ground arith in
      elim (store_round_slot now t round block (ground arith)) [
        | inl (gone, out) ↦ rw gone (λ later.
            stays_out later r.0 height round r.1 c' here
              (archive_round-refused later r.0 round r.1 (inl (ground arith))))
        | inr (slot, in_) ↦ rw slot (record {
          is_open = c';
          has_block = here;
          at_height = ht';
          in_range = ground arith;
          has_round = slot;
          at_round = refl;
        })
      ]

  refused-Reaches :
      ((ltb round (pos 0) || leb round block.evicted_through) ≡ true)
        ⊎ ((lookup round block.rounds ≡ none)
            × ((block.committed || leb block.height t.committed_height) ≡ true))
      → Reaches height round (archive_round now t block round)
  refused-Reaches r =
      subst (Reaches height round) (sym (archive_round-refused now t round block r)) (λ later.
        stays_out later t height round block c h (archive_round-refused later t round block r))

  archive_round-Reaches : Reaches height round (archive_round now t block round)
  archive_round-Reaches = elim (Bool-cases (ltb round (pos 0) || leb round block.evicted_through)) [
    | inl out ↦ refused-Reaches (inl out)
    | inr a ↦ elim (Option-cases (lookup round block.rounds)) [
      | inr (rd, there) ↦
          subst (Reaches height round) (sym (archive_round-present now t round block rd a there))
            (record {
              is_open = c;
              has_block = h;
              at_height = at.0;
              in_range = a;
              has_round = there;
              at_round = AllOf-lookup RoundAt round rd block.rounds at.1 there;
            })
      | inl absent ↦ elim (Bool-cases (block.committed || leb block.height t.committed_height)) [
        | inl late ↦ refused-Reaches (inr (absent, late))
        | inr live ↦
            subst (Reaches height round) (sym (archive_round-added now t round block a absent live))
              (added-Reaches a)
      ]
    ]
  ]

-- An observation finds its round in the archive, under its numbers, or is refused; a second
-- observation of the same round, at any time, comes to the same.
pub find_round-Reaches :
    (now : Time) (t : Tracker) (height round : ℤ)
    → IsKeyed t
    → Reaches height round (find_round now t height round)
unfolding round_from
find_round-Reaches now t height round keyed =
    go (archive_height now t height) (archive_height-ReachesBlock now t height keyed)
  where
    go :
        (r : Tracker × Option ArchivedHeight)
        → ReachesBlock height r
        → Reaches height round (round_from now round r)
    go (t', none) h = λ later. ap (round_from later round) (h later)
    go (t', some block) h = archive_round-Reaches now t' height round block h.0 h.1 h.2
