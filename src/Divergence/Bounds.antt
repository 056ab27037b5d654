-- ===== src/Divergence/Bounds.antt =====
-- How much the archive of internal/divergence/archive.go can hold.

use cmt_top.Base.{
  ◌≤◌, ◌<◌, ◌≡◌, ◌≢◌, refl, sym, subst, ap, ◌⊎◌, inl, inr, true, false, ◌||◌, [], ◌∷◌, none, some,
  arith, ◌==◌, String_eq, ℕ_eq, if◌then◌else◌, Bool-cases, Option-cases, length,
}
use cmt_top.Base.{ltb as nat_ltb}
use cmt_top.Base.Int.{ℤ, pos, leb, ltb, eqb_iff, ℤ_eq, ◌≤ℤ◌, ◌<ℤ◌, ◌+ℤ◌, +ℤ_parts, eq_of_parts}
use cmt_top.Base.Maps.{
  Map, lookup, insert, erase, AllOf, AllOf-lookup, AllOf-insert, AllOf-erase, AllOf-map, AllOf-both,
  lookup-insert_self, length-insert_new, length-insert_old, length-erase-lt,
}
use cmt_top.State.Types.{Time}
use cmt_top.Divergence.Types.{VoteType, InvestigationVote, ArchivedRound, ArchivedHeight, Tracker}
use cmt_top.Divergence.Archive.{
  min_key, put_block, prune_detector_rounds, evict_height, new_block, add_height, is_closed,
  create_archive_height, archive_height, new_round, add_round, evict_round, store_round,
  archive_round, investigation_round_limit, investigation_hash_limit,
  investigation_unknown_validator_limit,
}
use cmt_top.Divergence.Votes.{unknown_voters}
use cmt_top.Divergence.Find.{min_key-le}

-- At most four hashes from one validator, and more than one is a conflict.
pub record IsVoteBounded (vote : InvestigationVote) : Type 0 where
  pub few_hashes : length vote.hashes ≤ investigation_hash_limit
  pub conflict : vote.conflicting ≡ nat_ltb 1 (length vote.hashes)

abbrev pub PhasesBounded : Map VoteType InvestigationVote → Type 0
PhasesBounded phases = AllOf (λ _ vote. IsVoteBounded vote) phases

pub record IsRoundBounded (number : ℤ) (rd : ArchivedRound) : Type 0 where
  pub at_number : rd.round ≡ number
  pub few_unknown : unknown_voters rd.roster rd.votes ≤ investigation_unknown_validator_limit
  pub votes_bounded : AllOf (λ _ phases. PhasesBounded phases) rd.votes

pub record IsBlockBounded (height : ℤ) (block : ArchivedHeight) : Type 0 where
  pub at_height : block.height ≡ height
  pub few_rounds : length block.rounds ≤ investigation_round_limit
  pub rounds_bounded : AllOf IsRoundBounded block.rounds

abbrev pub IsRetained : Tracker → ℤ → Type 0
IsRetained t height = (pos 0 <ℤ height) × (t.archive_evicted_through <ℤ height)

pub record IsBounded (t : Tracker) : Type 0 where
  pub few_heights : pos (length t.archive) ≤ℤ t.cfg.history_size
  pub blocks_bounded : AllOf IsBlockBounded t.archive
  pub retained : AllOf (λ height _. IsRetained t height) t.archive

min_key-nil {ℓ} : (V : Type ℓ) (k : ℤ) → min_key {V = V} k [] ≡ k
unfolding min_key
min_key-nil V k = refl

min_key-below {ℓ} :
    {V : Type ℓ} (j k : ℤ) (v : V) (m : Map ℤ V)
    → ltb j k ≡ true
    → min_key k ((j, v) ∷ m) ≡ min_key j m
unfolding min_key
min_key-below j k v m h = ap (λ b. min_key (if b then j else k) m) h

min_key-above {ℓ} :
    {V : Type ℓ} (j k : ℤ) (v : V) (m : Map ℤ V)
    → ltb j k ≡ false
    → min_key k ((j, v) ∷ m) ≡ min_key k m
unfolding min_key
min_key-above j k v m h = ap (λ b. min_key (if b then j else k) m) h

abbrev IsKey {ℓ} : {V : Type ℓ} → ℤ → Map ℤ V → Type ℓ
IsKey {V} k m = (v : V) × (lookup k m ≡ some v)

IsKey-here {ℓ} : {V : Type ℓ} (j x : ℤ) (v : V) (m : Map ℤ V) → x ≡ j → IsKey x ((j, v) ∷ m)
unfolding lookup
IsKey-here j x v m e = (v, ground (arith, eqb_iff j x))

IsKey-there {ℓ} : {V : Type ℓ} (j x : ℤ) (v : V) (m : Map ℤ V) → IsKey x m → IsKey x ((j, v) ∷ m)
unfolding lookup
IsKey-there j x v m (w, h) = elim (Bool-cases (j == x)) [
  | inl here ↦ (v, rw here)
  | inr there ↦ (w, rw there h)
]

min_key-mem {ℓ} : {V : Type ℓ} (k : ℤ) (m : Map ℤ V) → (min_key k m ≡ k) ⊎ IsKey (min_key k m) m
min_key-mem k [] = inl (min_key-nil _ k)
min_key-mem k ((j, v) ∷ m) = elim (Bool-cases (ltb j k)) [
  | inl below ↦ rw (min_key-below j k v m below) (elim (min_key-mem j m) [
    | inl e ↦ inr (IsKey-here j (min_key j m) v m e)
    | inr h ↦ inr (IsKey-there j (min_key j m) v m h)
  ])
  | inr above ↦
      rw (min_key-above j k v m above)
        (elim (min_key-mem k m) [ inl e ↦ inl e | inr h ↦ inr (IsKey-there j (min_key k m) v m h) ])
]

not-ltb-le : (a b : ℤ) → ltb a b ≡ false → b ≤ℤ a
not-ltb-le a b h = ground arith

min_key-least {ℓ} : {V : Type ℓ} (k : ℤ) (m : Map ℤ V) → AllOf (λ j _. min_key k m ≤ℤ j) m
min_key-least k [] = tt
min_key-least k ((j, v) ∷ m) = elim (Bool-cases (ltb j k)) [
  | inl below ↦
      subst (λ x. (x ≤ℤ j) × AllOf (λ i _. x ≤ℤ i) m) (sym (min_key-below j k v m below))
        (min_key-le j m, min_key-least j m)
  | inr above ↦
      subst (λ x. (x ≤ℤ j) × AllOf (λ i _. x ≤ℤ i) m) (sym (min_key-above j k v m above))
        (omega (arith, min_key-le k m, not-ltb-le j k above), min_key-least k m)
]

erase_min {ℓ} :
    {V : Type ℓ} (k : ℤ) (v : V) (m : Map ℤ V)
    → lookup k m ≡ some v
    → length (erase (min_key k m) m) < length m
erase_min k v m h = elim (min_key-mem k m) [
  | inl e ↦ length-erase-lt (min_key k m) v m (subst (λ j. lookup j m ≡ some v) (sym e) h)
  | inr (w, h') ↦ length-erase-lt (min_key k m) w m h'
]

abbrev after_eviction : ℤ → Tracker → Tracker
after_eviction oldest t = record t {
  archive = erase oldest t.archive;
  archive_evicted_through =
      if ltb t.archive_evicted_through oldest then oldest else t.archive_evicted_through;
}

retain :
    (height : ℤ) (t : Tracker) (k : ℤ) (b : ArchivedHeight)
    → ((IsRetained t k) × (min_key height t.archive ≤ℤ k)) × (k ≢ min_key height t.archive)
    → IsRetained (after_eviction (min_key height t.archive) t) k
retain height t k b h =
    let oldest = min_key height t.archive in
    (h.0.0.0, ground (arith, eq_of_parts k oldest, h.0.0.1, h.0.1, h.1))

evict_height-IsBounded :
    (height : ℤ) (t : Tracker) (b : ArchivedHeight)
    → lookup height t.archive ≡ some b
    → pos (length t.archive) ≤ℤ t.cfg.history_size +ℤ pos 1
    → AllOf IsBlockBounded t.archive
    → AllOf (λ k _. IsRetained t k) t.archive
    → IsBounded (evict_height height t)
unfolding evict_height prune_detector_rounds
evict_height-IsBounded height t b here few blocks kept =
    elim (Bool-cases (ltb t.cfg.history_size (pos (length t.archive)))) [
      | inr fits ↦ rw fits (record {
        few_heights = not-ltb-le t.cfg.history_size (pos (length t.archive)) fits;
        blocks_bounded = blocks;
        retained = kept;
      })
      | inl over ↦ rw over (record {
        few_heights =
            omega (arith, +ℤ_parts t.cfg.history_size (pos 1), erase_min height b t.archive here);
        blocks_bounded =
            AllOf-map _ _ _ (λ k v p. p.0)
              (AllOf-erase IsBlockBounded (min_key height t.archive) t.archive blocks);
        retained = AllOf-map _ _ _ (retain height t) (
            AllOf-erase _ (min_key height t.archive) t.archive
              (AllOf-both _ _ t.archive kept (min_key-least height t.archive)));
      })
    ]

new_block-IsBlockBounded : (now : Time) (height : ℤ) → IsBlockBounded height (new_block now height)
new_block-IsBlockBounded now height = record {
  at_height = refl;
  few_rounds = omega arith;
  rounds_bounded = tt;
}

add_height-IsBounded :
    (now : Time) (height : ℤ) (t : Tracker)
    → is_closed t height ≡ false
    → lookup height t.archive ≡ none
    → IsBounded t
    → IsBounded (add_height now height t)
unfolding add_height
add_height-IsBounded now height t c h b =
    evict_height-IsBounded height _ (new_block now height)
      (lookup-insert_self height (new_block now height) t.archive)
      (omega (
        arith,
        +ℤ_parts t.cfg.history_size (pos 1),
        length-insert_new height (new_block now height) t.archive h,
        b.few_heights,
      ))
      (AllOf-insert IsBlockBounded height (new_block now height) t.archive
        (new_block-IsBlockBounded now height) b.blocks_bounded)
      (AllOf-insert _ height (new_block now height) t.archive (ground arith) b.retained)

pub create_archive_height-IsBounded :
    (now : Time) (t : Tracker) (height : ℤ)
    → IsBounded t
    → IsBounded (create_archive_height now t height).0
unfolding create_archive_height
create_archive_height-IsBounded now t height b = elim (Bool-cases (is_closed t height)) [
  | inl c ↦ rw c b
  | inr c ↦ elim (Option-cases (lookup height t.archive)) [
    | inr (block, h) ↦ rw (c, h) b
    | inl h ↦ rw (c, h) (add_height-IsBounded now height t c h b)
  ]
]

pub archive_height-IsBounded :
    (now : Time) (t : Tracker) (height : ℤ)
    → IsBounded t
    → IsBounded (archive_height now t height).0
unfolding archive_height
archive_height-IsBounded now t height b =
    ground (arith, b, create_archive_height-IsBounded now t height b)

-- Putting back a bounded block over a block that is there.
pub put_block-IsBounded :
    (t : Tracker) (height : ℤ) (old block : ArchivedHeight)
    → lookup height t.archive ≡ some old
    → IsBlockBounded height block
    → IsBounded t
    → IsBounded (put_block block t)
put_block-IsBounded t height old block h k b =
    subst (λ n. IsBounded (record t { archive = insert n block t.archive })) (sym k.at_height)
      (record {
        few_heights = rw (length-insert_old height block old t.archive h) b.few_heights;
        blocks_bounded = AllOf-insert IsBlockBounded height block t.archive k b.blocks_bounded;
        retained =
            AllOf-insert (λ n _. IsRetained t n) height block t.archive
              (AllOf-lookup (λ n _. IsRetained t n) height old t.archive b.retained h) b.retained;
      })

prune-IsBounded : (t : Tracker) → IsBounded t → IsBounded (prune_detector_rounds t)
unfolding prune_detector_rounds
prune-IsBounded t b = record {
  few_heights = b.few_heights;
  blocks_bounded = b.blocks_bounded;
  retained = b.retained;
}

new_round-IsRoundBounded :
    (now : Time) (t : Tracker) (round : ℤ) → IsRoundBounded round (new_round now t round)
unfolding unknown_voters
new_round-IsRoundBounded now t round = record {
  at_number = refl;
  few_unknown = omega arith;
  votes_bounded = tt;
}

store_round-IsBounded :
    (now : Time) (t : Tracker) (height round : ℤ) (block : ArchivedHeight)
    → lookup height t.archive ≡ some block
    → lookup round block.rounds ≡ none
    → IsBounded t
    → IsBlockBounded height block
    → IsBounded (store_round t round (add_round now t block round)).0
unfolding store_round evict_round add_round
store_round-IsBounded now t height round block h absent b k =
    let rounds = insert round (new_round now t round) block.rounds in
    let bounded : AllOf IsRoundBounded rounds =
      AllOf-insert IsRoundBounded round (new_round now t round) block.rounds
        (new_round-IsRoundBounded now t round) k.rounds_bounded in
    let grown = length-insert_new round (new_round now t round) block.rounds absent in
    elim (Bool-cases (nat_ltb investigation_round_limit (length rounds))) [
      | inr fits ↦ rw fits (
          put_block-IsBounded t height block _ h
            (record {
              at_height = k.at_height;
              few_rounds = ground arith;
              rounds_bounded = bounded;
            })
            b)
      | inl over ↦ rw over (
          prune-IsBounded _ (
            put_block-IsBounded t height block _ h
              (record {
                at_height = k.at_height;
                few_rounds = omega (
                  arith,
                  grown,
                  k.few_rounds,
                  erase_min round (new_round now t round) rounds
                      (lookup-insert_self round (new_round now t round) block.rounds),
                );
                rounds_bounded =
                    AllOf-map _ _ _ (λ n v p. p.0)
                      (AllOf-erase IsRoundBounded (min_key round rounds) rounds bounded);
              })
              b))
    ]

pub archive_round-IsBounded :
    (now : Time) (t : Tracker) (height round : ℤ) (block : ArchivedHeight)
    → lookup height t.archive ≡ some block
    → IsBounded t
    → IsBounded (archive_round now t block round).0
unfolding archive_round
archive_round-IsBounded now t height round block h b =
    let k = AllOf-lookup IsBlockBounded height block t.archive b.blocks_bounded h in
    elim (Bool-cases (ltb round (pos 0) || leb round block.evicted_through)) [
      | inl out ↦ rw out b
      | inr in_ ↦ elim (Option-cases (lookup round block.rounds)) [
        | inr (rd, there) ↦ rw (in_, there) b
        | inl absent ↦ elim (Bool-cases (block.committed || leb block.height t.committed_height)) [
          | inl late ↦ rw (in_, absent, late) b
          | inr live ↦
              rw (in_, absent, live) (store_round-IsBounded now t height round block h absent b k)
        ]
      ]
    ]
