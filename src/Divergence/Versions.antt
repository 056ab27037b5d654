-- ===== src/Divergence/Versions.antt =====
-- internal/divergence/archive_snapshot.go: the evidence version of a height, over the calls of the
-- tracker.

use cmt_top.Base.{
  ℕ, ◌+◌, ◌≡◌, refl, sym, ◌∙◌, subst, inl, inr, true, ◌||◌, Option, none, some, ◌==◌, String_eq,
  ℕ_eq, arith, Bool-cases, Option-cases, length,
}
use cmt_top.Base.Int.{ℤ, ◌≤ℤ◌, ◌<ℤ◌, ltb, leb, pos, ℤ_eq, eqb_iff, next64}
use cmt_top.Base.Maps.{Map, lookup, insert, erase, lookup-insert, lookup-erase}
use cmt_top.State.Types.{Time}
use cmt_top.Divergence.Types.{ArchivedHeight, Tracker}
use cmt_top.Divergence.Archive.{
  min_key, prune_detector_rounds, evict_height, new_block, add_height, is_closed, put_block,
  create_archive_height, archive_height, add_round, evict_round, store_round, archive_round,
  has_too_many_rounds,
}
use cmt_top.Divergence.Revision.{IsAdvanced, IsAdvanced-once, IsAdvanced-trans}

-- A block that is retained has advanced by at most `n` revisions, or is evicted for good.
abbrev pub FollowsAt : ℕ → ℤ → ℤ → Option ArchivedHeight → Option ArchivedHeight → Type 0
FollowsAt n evicted height none new = Unit
FollowsAt n evicted height (some old) none = height ≤ℤ evicted
FollowsAt n evicted height (some old) (some new) = IsAdvanced n old new

pub record Follows (n : ℕ) (t t' : Tracker) : Type 0 where
  pub rises : t.archive_evicted_through ≤ℤ t'.archive_evicted_through
  pub at :
      (height : ℤ)
      → FollowsAt n t'.archive_evicted_through height
          (lookup height t.archive)
          (lookup height t'.archive)

FollowsAt-refl :
    (n : ℕ) (evicted height : ℤ) (o : Option ArchivedHeight) → FollowsAt n evicted height o o
FollowsAt-refl n evicted height none = tt
FollowsAt-refl n evicted height (some b) = inl refl

pub Follows-refl :
    (n : ℕ) (t t' : Tracker)
    → t'.archive ≡ t.archive
    → t'.archive_evicted_through ≡ t.archive_evicted_through
    → Follows n t t'
Follows-refl n t t' a e = record {
  rises = ground (arith, e);
  at =
      λ height. rw a (FollowsAt-refl n t'.archive_evicted_through height (lookup height t.archive));
}

FollowsAt-trans :
    (n m : ℕ) (low high height : ℤ) (a b c : Option ArchivedHeight)
    → low ≤ℤ high
    → ((block : ArchivedHeight) → c ≡ some block → high <ℤ height)
    → FollowsAt n low height a b
    → FollowsAt m high height b c
    → FollowsAt (n + m) high height a c
FollowsAt-trans n m low high height none b c h k p q = tt
FollowsAt-trans n m low high height (some a) none none h k p q = omega arith
FollowsAt-trans n m low high height (some a) none (some c) h k p q =
    let above = k c refl in absurd (omega arith)
FollowsAt-trans n m low high height (some a) (some b) none h k p q = q
FollowsAt-trans n m low high height (some a) (some b) (some c) h k p q =
    IsAdvanced-trans n m a b c p q

-- The heights that are retained are above those evicted.
abbrev pub IsAbove : Tracker → Type 0
IsAbove t =
    (height : ℤ) (block : ArchivedHeight)
    → lookup height t.archive ≡ some block
    → t.archive_evicted_through <ℤ height

pub Follows-trans :
    (n m : ℕ) (t t' t'' : Tracker)
    → IsAbove t''
    → Follows n t t'
    → Follows m t' t''
    → Follows (n + m) t t''
Follows-trans n m t t' t'' a f g = record {
  rises = let one = f.rises in let two = g.rises in omega arith;
  at = λ height.
      FollowsAt-trans n m t'.archive_evicted_through t''.archive_evicted_through height
        (lookup height t.archive) (lookup height t'.archive) (lookup height t''.archive) g.rises
        (a height) (f.at height) (g.at height);
}

-- A block put back.
pub put_block-Follows :
    (n : ℕ) (t : Tracker) (height : ℤ) (old new : ArchivedHeight)
    → lookup height t.archive ≡ some old
    → new.height ≡ height
    → IsAdvanced n old new
    → Follows n t (put_block new t)
put_block-Follows n t height old new h e a = record {
  rises = omega arith;
  at = λ j.
      let eq_of_height : (new.height == j) ≡ true → height ≡ j =
        λ here. sym e ∙ (eqb_iff new.height j).0 here in
      subst (FollowsAt n t.archive_evicted_through j (lookup j t.archive))
        (sym (lookup-insert new.height j new t.archive))
        (elim (Bool-cases (new.height == j)) [
          | inr there ↦ rw there (FollowsAt-refl n t.archive_evicted_through j (lookup j t.archive))
          | inl here ↦ rw (here, sym (eq_of_height here), h) a
        ]);
}

erase-FollowsAt :
    (evicted oldest j : ℤ) (block : ArchivedHeight) (archive : Map ℤ ArchivedHeight)
    → oldest ≤ℤ evicted
    → lookup j archive ≡ some block
    → FollowsAt 0 evicted j (some block) (lookup j (erase oldest archive))
erase-FollowsAt evicted oldest j block archive l h =
    subst (FollowsAt 0 evicted j (some block)) (sym (lookup-erase oldest j archive))
      (elim (Bool-cases (oldest == j)) [
        | inr there ↦ rw (there, h) (inl refl)
        | inl here ↦
            let same : oldest ≡ j = (eqb_iff oldest j).0 here in
            rw here (subst (λ k. k ≤ℤ evicted) same l)
      ])

evict_height-FollowsAt :
    (height j : ℤ) (t : Tracker) (block : ArchivedHeight)
    → lookup j t.archive ≡ some block
    → FollowsAt 0
        (evict_height height t).archive_evicted_through
        j
        (some block)
        (lookup j (evict_height height t).archive)
unfolding evict_height prune_detector_rounds
evict_height-FollowsAt height j t block h =
    let oldest = min_key height t.archive in
    elim (Bool-cases (ltb t.cfg.history_size (pos (length t.archive)))) [
      | inr few ↦ rw (few, h) (inl refl)
      | inl many ↦ rw many (erase-FollowsAt _ oldest j block t.archive (ground arith) h)
    ]

evict_height-rises :
    (height : ℤ) (t : Tracker)
    → t.archive_evicted_through ≤ℤ (evict_height height t).archive_evicted_through
unfolding evict_height prune_detector_rounds
evict_height-rises height t = ground arith

-- A new height.
add_height-Follows :
    (now : Time) (height : ℤ) (t : Tracker)
    → lookup height t.archive ≡ none
    → Follows 0 t (add_height now height t)
unfolding add_height
add_height-Follows now height t absent = record {
  rises = evict_height-rises height _;
  at = λ j. elim (Option-cases (lookup j t.archive)) [
    | inl h ↦ rw h tt
    | inr (block, h) ↦ rw h (evict_height-FollowsAt height j _ block (kept_by_insert j block h))
  ];
}
  where
    kept_by_insert :
        (j : ℤ) (block : ArchivedHeight)
        → lookup j t.archive ≡ some block
        → lookup j (insert height (new_block now height) t.archive) ≡ some block
    kept_by_insert j block h =
        ground (arith, lookup-insert height j (new_block now height) t.archive, eqb_iff height j)

pub create_archive_height-Follows :
    (now : Time) (t : Tracker) (height : ℤ) → Follows 0 t (create_archive_height now t height).0
unfolding create_archive_height
create_archive_height-Follows now t height = elim (Bool-cases (is_closed t height)) [
  | inl c ↦ rw c (Follows-refl 0 t t refl refl)
  | inr c ↦ elim (Option-cases (lookup height t.archive)) [
    | inr (block, h) ↦ rw (c, h) (Follows-refl 0 t t refl refl)
    | inl h ↦ rw (c, h) (add_height-Follows now height t h)
  ]
]

pub archive_height-Follows :
    (now : Time) (t : Tracker) (height : ℤ) → Follows 0 t (archive_height now t height).0
unfolding archive_height
archive_height-Follows now t height = elim (Bool-cases (is_closed t height)) [
  | inl c ↦ rw c (Follows-refl 0 t t refl refl)
  | inr c ↦ elim (Option-cases (lookup height t.archive)) [
    | inr (block, h) ↦ rw (c, h) (Follows-refl 0 t t refl refl)
    | inl h ↦ elim (Bool-cases (leb height t.committed_height)) [
      | inl late ↦ rw (c, h, late) (Follows-refl 0 t t refl refl)
      | inr new ↦ rw (c, h, new) (create_archive_height-Follows now t height)
    ]
  ]
]

-- A new round moves the revision of its block once, whether or not a round is evicted.
add_round_lem :
    (now : Time) (t : Tracker) (round : ℤ) (block : ArchivedHeight)
    → (IsAdvanced 1 block (add_round now t block round))
      × ((add_round now t block round).height ≡ block.height)
unfolding add_round
add_round_lem now t round block = (IsAdvanced-once 1 block _ (omega arith) refl, refl)

evict_round_lem :
    (round : ℤ) (old block : ArchivedHeight)
    → block.revision ≡ next64 old.revision
    → (IsAdvanced 1 old (evict_round round block))
      × ((evict_round round block).height ≡ block.height)
unfolding evict_round
evict_round_lem round old block e = (IsAdvanced-once 1 old _ (omega arith) e, refl)

add_round_revision :
    (now : Time) (t : Tracker) (round : ℤ) (block : ArchivedHeight)
    → (add_round now t block round).revision ≡ next64 block.revision
unfolding add_round
add_round_revision now t round block = refl

store_round-Follows :
    (now : Time) (t : Tracker) (height round : ℤ) (block : ArchivedHeight)
    → lookup height t.archive ≡ some block
    → block.height ≡ height
    → Follows 1 t (store_round t round (add_round now t block round)).0
unfolding store_round prune_detector_rounds
store_round-Follows now t height round block h e =
    let added = add_round_lem now t round block in
    let evicted =
      evict_round_lem round block (add_round now t block round)
        (add_round_revision now t round block) in
    elim (Bool-cases (has_too_many_rounds (add_round now t block round))) [
      | inl many ↦ rw many (
          let f =
            put_block-Follows 1 t height block (evict_round round (add_round now t block round)) h
              (evicted.1 ∙ added.1 ∙ e) evicted.0 in
          record { rises = f.rises; at = f.at })
      | inr few ↦
          rw few (
            put_block-Follows 1 t height block (add_round now t block round) h (added.1 ∙ e)
              added.0)
    ]

pub archive_round-Follows :
    (now : Time) (t : Tracker) (height round : ℤ) (block : ArchivedHeight)
    → lookup height t.archive ≡ some block
    → block.height ≡ height
    → Follows 1 t (archive_round now t block round).0
unfolding archive_round
archive_round-Follows now t height round block h e =
    elim (Bool-cases (ltb round (pos 0) || leb round block.evicted_through)) [
      | inl out ↦ rw out (Follows-refl 1 t t refl refl)
      | inr in_ ↦ elim (Option-cases (lookup round block.rounds)) [
        | inr (rd, there) ↦ rw (in_, there) (Follows-refl 1 t t refl refl)
        | inl absent ↦ elim (Bool-cases (block.committed || leb block.height t.committed_height)) [
          | inl late ↦ rw (in_, absent, late) (Follows-refl 1 t t refl refl)
          | inr live ↦ rw (in_, absent, live) (store_round-Follows now t height round block h e)
        ]
      ]
    ]
