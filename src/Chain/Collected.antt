-- ===== src/Chain/Collected.antt =====
-- internal/chain/cometrpc/client.go: `AllValidators` ends, and what it returns.
use mathlib.Core.Path.{subst₂}
use mathlib.Core.Bool.{false≢true}
use cmt_top.Base.{
  ℕ, zero, suc, ◌+◌, ◌<◌, ◌≡◌, ◌≢◌, refl, sym, ap, ◌∙◌, subst, inl, inr, ◌⊎◌, false, String, List,
  [], ◌∷◌, ◌++◌, Option, none, some, String_eq, length, arith, Bool-cases, Option-cases,
}
use cmt_top.Base.Int.{ℤ, pos, ltb, eqb, eqb_iff, ◌≤ℤ◌, max_int64}
use cmt_top.Base.Maps.{lookup}
use cmt_top.Chain.Pool.{Endpoint, Pool, Failure, no_error, Result, ok, failed, do_request}
use cmt_top.Chain.Rotation.{rotation}
use cmt_top.Chain.Failover.{
  Result-cases, first_answer, first_answer_ok, first_answer_failed, IsPool, Pins, do_request_lem,
}
use cmt_top.Chain.Pages.{
  Validator, ResultValidators, Progress, mark_page, Verdict, wrong, whole, more, take_page,
  request_height, per_page, first_progress, validators, collect, all_validators,
}
use cmt_top.Chain.Paging.{
  Distinct, has_address, Marks, pinned_of, mark_page-Distinct, take_page-more, take_page-whole_set,
  take_page-whole_seen,
}

Verdict-cases :
    (v : Verdict)
    → ((err : Failure) × (v ≡ wrong err))
      ⊎ (((all : List Validator) × (at : ℤ) × (v ≡ whole all at)) ⊎ ((g : Progress) × (v ≡ more g)))
Verdict-cases (wrong err) = inl (err, refl)
Verdict-cases (whole all at) = inr (inl (all, at, refl))
Verdict-cases (more g) = inr (inr (g, refl))

some≢none {ℓ} : {A : Type ℓ} {a : A} → some a ≢ none
some≢none e = ground (arith, e)

-- The height that was asked for, if one other than zero was.
abbrev pub AskedAt : Option ℤ → ℤ → Type 0
AskedAt height at = (height ≡ none) ⊎ ((height ≡ some (pos 0)) ⊎ (height ≡ some at))

asked_at :
    (height : Option ℤ) (at : ℤ)
    → ((h : ℤ) → height ≡ some h → h ≢ pos 0 → at ≡ h)
    → AskedAt height at
asked_at none at f = inl refl
asked_at (some h) at f = elim (Bool-cases (eqb h (pos 0))) [
  | inl none_asked ↦ inr (inl (ap some ((eqb_iff h (pos 0)).0 none_asked)))
  | inr other ↦
      inr (inr (ap some (sym (f h refl (λ e. false≢true (sym other ∙ (eqb_iff h (pos 0)).1 e))))))
]

pinned_same :
    (g : Progress) (res : ResultValidators) (h : ℤ)
    → h ≢ pos 0
    → g.pinned_height ≡ h
    → pinned_of g res ≡ h
pinned_same g res h nz e = ground (arith, nz, eqb_iff g.pinned_height (pos 0))

differs :
    {err : Failure} {all : List Validator} {at : ℤ} {url : String}
    → ◌≡◌ {A = Option (Result (List Validator × ℤ × String))}
        (some (failed err))
        (some (ok (all, at, url)))
    → ⊥
differs e = ground (arith, e)

same_answer :
    {all vs : List Validator} {at here : ℤ} {url from : String}
    → ◌≡◌ {A = Option (Result (List Validator × ℤ × String))}
        (some (ok (vs, here, from)))
        (some (ok (all, at, url)))
    → (vs ≡ all) × (here ≡ at)
same_answer e = (ground (arith, e), ground (arith, e))

-- Every reply of every endpoint has a property.
module _ {ℓ κ} {W : Type ℓ} {T : Type κ} (P : T → Type 0)
    (attempt : Endpoint → W → W × Result T) where
  unfoldable pub Replies : Type (ℓ ⊔ κ)
  Replies = (e : Endpoint) (w : W) (x : T) → (attempt e w).1 ≡ ok x → P x

  first_answer-reply :
      Replies
      → (es : List Endpoint) (last : Failure) (w : W) (x : T) (url : String)
      → (first_answer attempt es last w).1 ≡ ok (x, url)
      → P x
  unfolding Replies first_answer
  first_answer-reply r [] last w x url h = absurd (ground arith)
  first_answer-reply r (e ∷ es) last w x url h = elim (Result-cases (attempt e w).1) [
    | inl (v, q) ↦
        let answer : ◌≡◌ {A = Result (T × String)} (ok (v, e.url)) (ok (x, url)) =
          ap (λ o. o.1) (sym (first_answer_ok attempt e es last w v q)) ∙ h in
        let same : v ≡ x = ground arith in subst P same (r e w v q)
    | inr (err, q) ↦
        first_answer-reply r es err (attempt e w).0 x url
          (ap (λ o. o.1) (sym (first_answer_failed attempt e es last w err q)) ∙ h)
  ]

  -- The reply of a request has the property, and the pool is still one.
  do_request-reply :
      Replies
      → (p : Pool) (w : W) (x : T) (url : String) → IsPool p
      → (do_request attempt p w).2 ≡ ok (x, url)
      → P x × IsPool (do_request attempt p w).1
  do_request-reply r p w x url l h =
      let (same, pins, _) = do_request_lem attempt p w l in
      (
        first_answer-reply r (rotation p.active p.endpoints) no_error w x url
            (ap (λ o. o.1) (sym same) ∙ h),
        pinned (do_request attempt p w).1 (do_request attempt p w).2 h pins,
      )
    where
      pinned :
          (p' : Pool) (res : Result (T × String))
          → res ≡ ok (x, url)
          → Pins attempt p p' res
          → IsPool p'
      pinned p' (failed err) e pins = absurd (ground arith)
      pinned p' (ok (v, at)) e pins = subst (λ l. p'.active < length l) (sym pins.1) pins.2

module _ {ℓ} {W : Type ℓ}
    (ask : Option ℤ → ℕ → ℕ → Endpoint → W → W × Result ResultValidators) where
  module _ (height : Option ℤ) (rounds : ℕ) (g : Progress) (p : Pool) (w : W) where
    asked : W × Pool × Result (ResultValidators × String)
    asked = validators ask (request_height height g) g.page p w

    collect-failed :
        (err : Failure)
        → asked.2 ≡ failed err
        → (collect ask height (suc rounds) g p w).2 ≡ some (failed err)
    unfolding collect asked
    collect-failed err e = ground (arith, e)

    collect-wrong :
        (res : ResultValidators) (url : String) (err : Failure)
        → asked.2 ≡ ok (res, url)
        → take_page g res ≡ wrong err
        → (collect ask height (suc rounds) g p w).2 ≡ some (failed err)
    unfolding collect asked
    collect-wrong res url err e v = ground (arith, e, v)

    collect-whole :
        (res : ResultValidators) (url : String) (all : List Validator) (at : ℤ)
        → asked.2 ≡ ok (res, url)
        → take_page g res ≡ whole all at
        → (collect ask height (suc rounds) g p w).2 ≡ some (ok (all, at, url))
    unfolding collect asked
    collect-whole res url all at e v = ground (arith, e, v)

    collect-more :
        (res : ResultValidators) (url : String) (g' : Progress)
        → asked.2 ≡ ok (res, url)
        → take_page g res ≡ more g'
        → collect ask height (suc rounds) g p w ≡ collect ask height rounds g' asked.1 asked.0
    unfolding collect asked
    collect-more res url g' e v = ground (arith, e, v)

  -- Every endpoint's replies have a property, whatever page is asked for.
  unfoldable pub AllReplies : (ResultValidators → Type 0) → Type ℓ
  AllReplies P = (height : Option ℤ) (page per : ℕ) → Replies P (ask height page per)

  asked-reply :
      (P : ResultValidators → Type 0) (height : Option ℤ) (rounds : ℕ) (g : Progress) (p : Pool)
      (w : W) (res : ResultValidators) (url : String)
      → AllReplies P
      → IsPool p
      → (asked height rounds g p w).2 ≡ ok (res, url)
      → P res × IsPool (asked height rounds g p w).1
  unfolding asked validators AllReplies
  asked-reply P height rounds g p w res url r l e =
      do_request-reply P (ask (request_height height g) g.page per_page)
        (r (request_height height g) g.page per_page) p w res url l e

  -- The loop ends: each page that is not the last brings validators.
  collect-ends :
      (height : Option ℤ) (rounds : ℕ) (g : Progress) (p : Pool) (w : W)
      → AllReplies (λ res. res.total ≤ℤ max_int64)
      → IsPool p
      → g.expected_total ≤ℤ pos (length g.collected + rounds)
      → ltb g.expected_total (pos 0) ≡ false
      → 0 < rounds
      → (collect ask height rounds g p w).2 ≢ none
  collect-ends height zero g p w r l m e z = absurd (omega arith)
  collect-ends height (suc rounds) g p w r l m e z =
      elim (Result-cases (asked height rounds g p w).2) [
        | inr (err, q) ↦ λ n. some≢none (sym (collect-failed height rounds g p w err q) ∙ n)
        | inl ((res, url), q) ↦ elim (Verdict-cases (take_page g res)) [
          | inl (err, v) ↦
              λ n. some≢none (sym (collect-wrong height rounds g p w res url err q v) ∙ n)
          | inr (inl (all, at, v)) ↦
              λ n. some≢none (sym (collect-whole height rounds g p w res url all at q v) ∙ n)
          | inr (inr (g', v)) ↦
              let after = take_page-more g g' res v in
              let same : g'.expected_total ≡ g.expected_total = after.0 ∙ rw e refl in
              λ n.
                collect-ends height rounds g' (asked height rounds g p w).1
                  (asked height rounds g p w).0 r
                  (asked-reply (λ x. x.total ≤ℤ max_int64) height rounds g p w res url r l q).1
                  (ground arith) (rw same e) (ground arith)
                  (ap (λ c. c.2) (sym (collect-more height rounds g p w res url g' q v)) ∙ n)
        ]
      ]

  -- If every total that an endpoint replies is an int64, then `AllValidators` ends: on a pool whose
  -- active index is an endpoint's it returns a set or an error, whatever else the endpoints reply.
  pub all_validators-ends :
      (height : Option ℤ) (p : Pool) (w : W)
      → AllReplies (λ res. res.total ≤ℤ max_int64)
      → IsPool p
      → (all_validators ask height p w).2 ≢ none
  unfolding all_validators
  all_validators-ends height p w r l =
      let g : Progress = first_progress height in
      let rounds : ℕ = 9223372036854775808 in
      elim (Result-cases (asked height rounds g p w).2) [
        | inr (err, q) ↦ λ n. some≢none (sym (collect-failed height rounds g p w err q) ∙ n)
        | inl ((res, url), q) ↦ elim (Verdict-cases (take_page g res)) [
          | inl (err, v) ↦
              λ n. some≢none (sym (collect-wrong height rounds g p w res url err q v) ∙ n)
          | inr (inl (all, at, v)) ↦
              λ n. some≢none (sym (collect-whole height rounds g p w res url all at q v) ∙ n)
          | inr (inr (g', v)) ↦
              let after = take_page-more g g' res v in
              let reply =
                asked-reply (λ x. x.total ≤ℤ max_int64) height rounds g p w res url r l q in
              λ n.
                collect-ends height rounds g' (asked height rounds g p w).1
                  (asked height rounds g p w).0 r reply.1 (ground (arith, after, reply.0))
                  (ground (arith, after)) (omega arith)
                  (ap (λ c. c.2) (sym (collect-more height rounds g p w res url g' q v)) ∙ n)
        ]
      ]

  module _ (size : ℤ → ℕ) where
    -- A reply tells how many validators its height has.
    unfoldable pub Tells : ResultValidators → Type 0
    Tells res = res.total ≡ pos (size res.block_height)

    -- A height that is asked for is pinned, and the addresses collected do not repeat and are marked.
    record Sound (height : Option ℤ) (g : Progress) : Type 0 where
      marks : Marks g.seen g.collected
      unrepeated : Distinct g.collected
      pins : (h : ℤ) → height ≡ some h → h ≢ pos 0 → g.pinned_height ≡ h

    -- What is returned.
    unfoldable pub IsValidatorSet : Option ℤ → List Validator → ℤ → Type 0
    IsValidatorSet height all at = Distinct all × (length all ≡ size at) × AskedAt height at

    more-Sound :
        (height : Option ℤ) (g g' : Progress) (res : ResultValidators)
        → Sound height g
        → take_page g res ≡ more g'
        → Sound height g'
    more-Sound height g g' res s v =
        let after = take_page-more g g' res v in
        let both =
          mark_page-Distinct res.validators g.collected g.seen g'.seen after.7 s.marks
            s.unrepeated in
        record {
          marks = rw after.6 both.0;
          unrepeated = rw after.6 both.1;
          pins = λ h e nz. after.4 ∙ pinned_same g res h nz (s.pins h e nz);
        }

    whole-IsValidatorSet :
        (height : Option ℤ) (g : Progress) (res : ResultValidators) (all : List Validator) (at : ℤ)
        → Sound height g
        → Tells res
        → take_page g res ≡ whole all at
        → IsValidatorSet height all at
    unfolding IsValidatorSet Tells
    whole-IsValidatorSet height g res all at s tells v =
        let (total, pin, here, joined) = take_page-whole_set g res all at v in
        (
          distinct_all joined,
          ground (arith, tells, total, here),
          asked_at height at (λ h e nz. here ∙ pin ∙ pinned_same g res h nz (s.pins h e nz)),
        )
      where
        distinct_all : all ≡ g.collected ++ res.validators → Distinct all
        distinct_all joined = elim (Option-cases (mark_page res.validators g.seen)) [
          | inl e ↦ absurd (take_page-whole_seen g res all at v e)
          | inr (seen, e) ↦
              rw joined
                (mark_page-Distinct res.validators g.collected g.seen seen e s.marks s.unrepeated).1
        ]

    collect-IsValidatorSet :
        (height : Option ℤ) (rounds : ℕ) (g : Progress) (p : Pool) (w : W) (all : List Validator)
        (at : ℤ) (url : String)
        → AllReplies Tells
        → IsPool p
        → Sound height g
        → (collect ask height rounds g p w).2 ≡ some (ok (all, at, url))
        → IsValidatorSet height all at
    unfolding collect
    collect-IsValidatorSet height zero g p w all at url r l s h = absurd (ground arith)
    collect-IsValidatorSet height (suc rounds) g p w all at url r l s h =
        elim (Result-cases (asked height rounds g p w).2) [
          | inr (err, q) ↦ absurd (differs (sym (collect-failed height rounds g p w err q) ∙ h))
          | inl ((res, from), q) ↦ elim (Verdict-cases (take_page g res)) [
            | inl (err, v) ↦
                absurd (differs (sym (collect-wrong height rounds g p w res from err q v) ∙ h))
            | inr (inl (vs, here, v)) ↦
                let (same, there) =
                  same_answer (sym (collect-whole height rounds g p w res from vs here q v) ∙ h) in
                subst₂ (IsValidatorSet height) same there (
                  whole-IsValidatorSet height g res vs here s
                    (asked-reply Tells height rounds g p w res from r l q).0 v)
            | inr (inr (g', v)) ↦
                collect-IsValidatorSet height rounds g' (asked height rounds g p w).1
                  (asked height rounds g p w).0 all at url r
                  (asked-reply Tells height rounds g p w res from r l q).1
                  (more-Sound height g g' res s v)
                  (ap (λ c. c.2) (sym (collect-more height rounds g p w res from g' q v)) ∙ h)
          ]
        ]

    first-Sound : (height : Option ℤ) → Sound height (first_progress height)
    unfolding Marks Distinct has_address lookup
    first-Sound none = record {
      marks = λ addr. refl;
      unrepeated = tt;
      pins = λ h e nz. absurd (ground (arith, e));
    }
    first-Sound (some k) = record {
      marks = λ addr. refl;
      unrepeated = tt;
      pins = λ h e nz. ground (arith, e);
    }

    -- If every reply tells as its total the true number of validators at its height, then a set that
    -- `AllValidators` returns has no address twice, has that number of validators at the height
    -- returned, and is at the height that was asked for, if one other than zero was.
    pub all_validators-IsValidatorSet :
        (height : Option ℤ) (p : Pool) (w : W) (all : List Validator) (at : ℤ) (url : String)
        → AllReplies Tells
        → IsPool p
        → (all_validators ask height p w).2 ≡ some (ok (all, at, url))
        → IsValidatorSet height all at
    unfolding all_validators
    all_validators-IsValidatorSet height p w all at url r l h =
        collect-IsValidatorSet height 9223372036854775809 (first_progress height) p w all at url r l
          (first-Sound height) h
