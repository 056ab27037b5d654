-- ===== src/Core/Transitions/Blocks.antt =====
-- The block history that `appendBlock` of internal/core/transitions.go keeps.
use mathlib.Core.Bool.{false≢true}
use cmt_top.Base.{
  ℕ, zero, suc, ◌-◌, ◌/◌, ◌≤◌, ◌<◌, ◌≡◌, ◌≢◌, if◌then◌else◌, sym, ap, ◌∙◌, refl, ◌⊎◌, inl, inr,
  List, [], ◌∷◌, ◌++◌, none, some, arith, Option-cases, Bool-cases, length, drop, keep_last, last?,
  length-append, length-keep_last-le,
}
use cmt_top.Base.{ltb as nat_ltb}
use cmt_top.Base.Int.{pos, pos_part, eqb, eqb_iff, add64, leb, ◌≤ℤ◌, ◌<ℤ◌}
use cmt_top.State.Types.{Time, time_sub, BlockSample, StateData, block_history_limit}
use cmt_top.Core.Transitions.{with_block_time, append_block}

-- The lesser of two numbers.
abbrev pub nat_min : ℕ → ℕ → ℕ
nat_min a b = if nat_ltb a b then a else b

-- Heights rise from each block to the next.
abbrev pub Rising : List BlockSample → Type 0
Rising [] = Unit
Rising (b ∷ []) = Unit
Rising (b ∷ c ∷ bs) = (b.height <ℤ c.height) × Rising (c ∷ bs)

pub record IsHistory (blocks : List BlockSample) : Type 0 where
  pub rising : Rising blocks
  pub bounded : length blocks ≤ block_history_limit

Rising-tail : (b : BlockSample) (bs : List BlockSample) → Rising (b ∷ bs) → Rising bs
Rising-tail b [] h = tt
Rising-tail b (c ∷ bs) h = h.1

Rising-drop : (n : ℕ) (bs : List BlockSample) → Rising bs → Rising (drop n bs)
Rising-drop zero bs h = h
Rising-drop (suc n) [] h = tt
Rising-drop (suc n) (b ∷ bs) h = Rising-drop n bs (Rising-tail b bs h)

Rising-append :
    (bs : List BlockSample) (last b : BlockSample)
    → Rising bs
    → last? bs ≡ some last
    → last.height <ℤ b.height
    → Rising (bs ++ b ∷ [])
Rising-append [] last b h e lt = tt
Rising-append (c ∷ []) last b h e lt = ground arith
Rising-append (c ∷ d ∷ bs) last b h e lt = (h.0, Rising-append (d ∷ bs) last b h.1 e lt)

last?-none : (bs : List BlockSample) → last? bs ≡ none → bs ≡ []
last?-none [] h = refl
last?-none (b ∷ []) h = cc
last?-none (b ∷ c ∷ bs) h = cc (last?-none (c ∷ bs) h)

with_block_time-height : (last b : BlockSample) → (with_block_time last b).height ≡ b.height
unfolding with_block_time
with_block_time-height last b = ground arith

keep_last-IsHistory :
    (bs : List BlockSample) → Rising bs → IsHistory (keep_last block_history_limit bs)
keep_last-IsHistory bs h = record {
  rising = Rising-drop (length bs - block_history_limit) bs h;
  bounded = length-keep_last-le block_history_limit bs;
}

-- Appending any sample to a history of at most 120 blocks with rising heights leaves one.
pub append_block-IsHistory :
    (s : StateData) (b : BlockSample) → IsHistory s.blocks → IsHistory (append_block s b).blocks
unfolding append_block
append_block-IsHistory s b h = elim (Option-cases (last? s.blocks)) [
  | inl e ↦
      rw (e, append_block)
        (keep_last-IsHistory (s.blocks ++ b ∷ []) (rw (last?-none s.blocks e) tt))
  | inr (last, e) ↦ elim (Bool-cases (leb b.height last.height)) [
    | inl old ↦ rw (e, append_block) (rw old h)
    | inr new ↦
        rw (e, append_block)
          (rw new (
            keep_last-IsHistory _ (
              Rising-append s.blocks last (with_block_time last b) h.rising e
                (ground (arith, with_block_time-height last b)))))
  ]
]

last?-drop :
    (n : ℕ) (bs : List BlockSample) (b : BlockSample)
    → n ≤ length bs
    → last? (drop n (bs ++ b ∷ [])) ≡ some b
last?-drop zero [] b h = refl
last?-drop zero (c ∷ []) b h = refl
last?-drop zero (c ∷ d ∷ bs) b h = last?-drop zero (d ∷ bs) b (omega arith)
last?-drop (suc n) [] b h = absurd (omega arith)
last?-drop (suc n) (c ∷ bs) b h = last?-drop n bs b (omega arith)

-- The sample as it is kept after a newest block: with the milliseconds since that block where it is its
-- successor and later, the nanoseconds between them cut at the greatest int64; and else as it came.
pub record IsTimed (last sample kept : BlockSample) : Type 0 where
  pub rest_kept : record kept { block_time_ms = sample.block_time_ms } ≡ sample
  pub timed :
      ((sample.height ≡ add64 last.height (pos 1))
        × (last.time < sample.time)
        × (kept.block_time_ms
            ≡ pos (nat_min (sample.time - last.time) 9223372036854775807 / 1000000)))
      ⊎ (((sample.height ≢ add64 last.height (pos 1)) ⊎ (sample.time ≤ last.time))
          × (kept.block_time_ms ≡ sample.block_time_ms))

time_sub-min : (t u : Time) → u < t → pos_part (time_sub t u) ≡ nat_min (t - u) 9223372036854775807
unfolding time_sub
time_sub-min t u h = ground (arith, h)

with_block_time-IsTimed : (last b : BlockSample) → IsTimed last b (with_block_time last b)
unfolding with_block_time
with_block_time-IsTimed last b = elim (Bool-cases (eqb b.height (add64 last.height (pos 1)))) [
  | inr other ↦ rw other (record {
    rest_kept = refl;
    timed = inr (
      inl (λ e. false≢true (sym other ∙ (eqb_iff b.height (add64 last.height (pos 1))).1 e)),
      refl,
    );
  })
  | inl next ↦ elim (Bool-cases (nat_ltb last.time b.time)) [
    | inr early ↦
        rw (next, early) (record { rest_kept = refl; timed = inr (inr (ground arith), refl) })
    | inl later ↦
        let l : last.time < b.time = ground arith in
        rw (next, later)
          (record {
            rest_kept = refl;
            timed = inl (
              (eqb_iff b.height (add64 last.height (pos 1))).0 next,
              l,
              ap (λ n. pos (n / 1000000)) (time_sub-min b.time last.time l),
            );
          })
  ]
]

-- After an append to a history that has a newest block, a sample that is not above it leaves the state
-- as it was; one that is above it becomes the newest, with the milliseconds since the block before if
-- it is its successor and later, and otherwise just as it came.
pub append_block_newest :
    (s : StateData) (last b : BlockSample)
    → last? s.blocks ≡ some last
    → ((b.height ≤ℤ last.height) × (append_block s b ≡ s))
      ⊎ ((last.height <ℤ b.height)
          × (kept : BlockSample) × (last? (append_block s b).blocks ≡ some kept)
          × IsTimed last b kept)
unfolding append_block
append_block_newest s last b e = elim (Bool-cases (leb b.height last.height)) [
  | inl old ↦ inl (ground arith, rw (e, append_block) (rw old))
  | inr new ↦ inr (
    ground arith,
    with_block_time last b,
    rw (e, append_block)
        (rw new (
          last?-drop (length (s.blocks ++ with_block_time last b ∷ []) - 120) s.blocks
            (with_block_time last b)
            (omega (arith, length-append s.blocks (with_block_time last b ∷ []))))),
    with_block_time-IsTimed last b,
  )
]
