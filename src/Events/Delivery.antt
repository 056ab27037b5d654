-- ===== src/Events/Delivery.antt =====
-- What reaches a subscriber of internal/events/bus.go, and what is counted as dropped.
use cmt_top.Base.{
  ℕ, ◌+◌, ◌-◌, ◌≤◌, ◌<◌, ◌≡◌, refl, ap, sym, ◌∙◌, true, false, List, [], ◌∷◌, ◌++◌, some, arith,
  ℕ_eq, if◌then◌else◌, length, length-append, drop, keep, keep_last, keep_last-append,
  length-keep_last-le, Bool-cases, Option-cases, subst, inl, inr, ltb, keep_last-fits,
  keep_last-over,
}
use mathlib.Core.Path.{subst₂}
use mathlib.Core.List.{append-nil, append_assoc}
use cmt_top.Base.Int.{next64}
use mathlib.Core.Option
use cmt_top.Base.Maps.{lookup, lookup-map_values}
use cmt_top.Events.Bus.{Event, Subscription, Bus, wants, offer, deliver, tail_of, publish}

module _ {P : Type 0} where
  -- A series of publications, oldest first.
  unfoldable pub deliver_all : ℕ → List (Event P) → Subscription P → Subscription P
  deliver_all cap [] sub = sub
  deliver_all cap (ev ∷ evs) sub = deliver_all cap evs (deliver cap ev sub)

  unfoldable pub publish_all : List (Event P) → Bus P → Bus P
  publish_all [] b = b
  publish_all (ev ∷ evs) b = publish_all evs (publish ev b)

  drop-one : (l : List (Event P)) → drop 1 l ≡ tail_of l
  drop-one [] = refl
  drop-one (x ∷ l) = refl

  tail_of-append :
      (l : List (Event P)) (ev : Event P)
      → 0 < length l
      → tail_of l ++ ev ∷ [] ≡ tail_of (l ++ ev ∷ [])
  tail_of-append [] ev h = absurd (omega arith)
  tail_of-append (x ∷ l) ev h = refl

  length-tail_of : (l : List (Event P)) → length (tail_of l) ≡ length l - 1
  length-tail_of [] = omega arith
  length-tail_of (x ∷ l) = omega arith

  -- One event that is wanted: the last events that fit, and the drop counted.
  abbrev pub Takes : ℕ → List (Event P) → Subscription P → Subscription P → Type 0
  Takes cap evs sub sub' =
      (sub'.ch ≡ keep_last cap (sub.ch ++ evs))
      × (sub'.dropped + length sub'.ch ≡ sub.dropped + length sub.ch + length evs)
      × (sub'.kinds ≡ sub.kinds)

  offer-Takes :
      (cap : ℕ) (ev : Event P) (sub : Subscription P)
      → 0 < cap
      → length sub.ch ≤ cap
      → sub.dropped + 1 < 18446744073709551616
      → Takes cap (ev ∷ []) sub (offer cap ev sub)
  unfolding offer next64
  offer-Takes cap ev sub h k d =
      let grown = length-append sub.ch (ev ∷ []) in
      elim (Bool-cases (ltb (length sub.ch) cap)) [
        | inl fits ↦ ground (arith, keep_last-fits cap (sub.ch ++ ev ∷ []), grown)
        | inr full ↦ ground (
          arith,
          keep_last-over cap (sub.ch ++ ev ∷ []),
          drop-one (sub.ch ++ ev ∷ []),
          tail_of-append sub.ch ev,
          length-tail_of sub.ch,
          length-append (tail_of sub.ch) (ev ∷ []),
          grown,
        )
      ]

  wants-kinds :
      (sub sub' : Subscription P) (ev : Event P)
      → sub'.kinds ≡ sub.kinds
      → wants sub' ev ≡ wants sub ev
  unfolding wants
  wants-kinds sub sub' ev e = rw e

  offer-dropped :
      (cap : ℕ) (ev : Event P) (sub : Subscription P) → (offer cap ev sub).dropped ≤ sub.dropped + 1
  unfolding offer next64
  offer-dropped cap ev sub = ground arith

  Takes-trans :
      (cap : ℕ) (xs ys : List (Event P)) (a b c : Subscription P)
      → Takes cap xs a b
      → Takes cap ys b c
      → Takes cap (xs ++ ys) a c
  Takes-trans cap xs ys a b c h k = (
    k.0
        ∙ ap (λ l. keep_last cap (l ++ ys)) h.0
        ∙ keep_last-append cap (a.ch ++ xs) ys
        ∙ ap (keep_last cap) (append_assoc a.ch xs ys),
    omega (arith, h.1, k.1, length-append xs ys),
    k.2 ∙ h.2,
  )

  keep-wants :
      (sub sub' : Subscription P) (evs : List (Event P))
      → sub'.kinds ≡ sub.kinds
      → keep (wants sub') evs ≡ keep (wants sub) evs
  keep-wants sub sub' [] e = refl
  keep-wants sub sub' (ev ∷ evs) e = rw (wants-kinds sub sub' ev e, keep-wants sub sub' evs e)

  Takes-none : (cap : ℕ) (sub : Subscription P) → length sub.ch ≤ cap → Takes cap [] sub sub
  Takes-none cap sub h =
      (sym (rw (append-nil sub.ch) (keep_last-fits cap sub.ch h)), omega arith, refl)

  deliver-take :
      (cap : ℕ) (ev : Event P) (sub : Subscription P)
      → wants sub ev ≡ true
      → deliver cap ev sub ≡ offer cap ev sub
  unfolding deliver
  deliver-take cap ev sub e = rw e

  deliver-skip :
      (cap : ℕ) (ev : Event P) (sub : Subscription P)
      → wants sub ev ≡ false
      → deliver cap ev sub ≡ sub
  unfolding deliver
  deliver-skip cap ev sub e = rw e

  deliver_all-Takes :
      (cap : ℕ) (evs : List (Event P)) (sub : Subscription P)
      → 0 < cap
      → length sub.ch ≤ cap
      → sub.dropped + length evs < 18446744073709551616
      → Takes cap (keep (wants sub) evs) sub (deliver_all cap evs sub)
  unfolding deliver_all
  deliver_all-Takes cap [] sub h k d = Takes-none cap sub k
  deliver_all-Takes cap (ev ∷ evs) sub h k d = elim (Bool-cases (wants sub ev)) [
    | inr skip ↦
        subst₂
          (λ b s.
            Takes cap (if b then ev ∷ keep (wants sub) evs else keep (wants sub) evs) sub
              (deliver_all cap evs s))
          (sym skip) (sym (deliver-skip cap ev sub skip))
          (deliver_all-Takes cap evs sub h k (omega arith))
    | inl take ↦
        let one = offer-Takes cap ev sub h k (omega arith) in
        let sub' = offer cap ev sub in
        let fits : length sub'.ch ≤ cap = rw one.0 (length-keep_last-le cap (sub.ch ++ ev ∷ [])) in
        let rest =
          deliver_all-Takes cap evs sub' h fits (omega (arith, offer-dropped cap ev sub)) in
        let rest' =
          subst (λ l. Takes cap l sub' (deliver_all cap evs sub')) (keep-wants sub sub' evs one.2)
            rest in
        subst₂
          (λ b s.
            Takes cap (if b then ev ∷ keep (wants sub) evs else keep (wants sub) evs) sub
              (deliver_all cap evs s))
          (sym take) (sym (deliver-take cap ev sub take))
          (Takes-trans cap (ev ∷ []) (keep (wants sub) evs) sub sub' (deliver_all cap evs sub') one
            rest')
  ]

  lookup-publish_all :
      (evs : List (Event P)) (b : Bus P) (id : ℕ)
      → lookup id (publish_all evs b).subs
        ≡ Option.map (deliver_all b.buf_cap evs) (lookup id b.subs)
  unfolding publish_all publish deliver_all
  lookup-publish_all [] b id = elim (Option-cases (lookup id b.subs)) [
    | inl e ↦ rw e
    | inr (sub, e) ↦ rw e
  ]
  lookup-publish_all (ev ∷ evs) b id = elim (Option-cases (lookup id b.subs)) [
    | inl e ↦ ground (
      arith,
      lookup-publish_all evs (publish ev b) id,
      lookup-map_values (deliver b.buf_cap ev) id b.subs,
    )
    | inr (sub, e) ↦ ground (
      arith,
      lookup-publish_all evs (publish ev b) id,
      lookup-map_values (deliver b.buf_cap ev) id b.subs,
    )
  ]

  -- A subscription that reads nothing while a series of events is published, whose channel has a
  -- capacity and does not exceed it, and whose counter does not wrap: what waits in its channel are
  -- the last of the events that waited and of those that it wants, in the order of publication, as
  -- many as fit, and every other one of them is counted as dropped.
  pub publish_all-Takes :
      (evs : List (Event P)) (b : Bus P) (id : ℕ) (sub : Subscription P)
      → lookup id b.subs ≡ some sub
      → 0 < b.buf_cap
      → length sub.ch ≤ b.buf_cap
      → sub.dropped + length evs < 18446744073709551616
      → (sub' : Subscription P) × (lookup id (publish_all evs b).subs ≡ some sub')
        × Takes b.buf_cap (keep (wants sub) evs) sub sub'
  publish_all-Takes evs b id sub e h k d = (
    deliver_all b.buf_cap evs sub,
    rw (lookup-publish_all evs b id, e) refl,
    deliver_all-Takes b.buf_cap evs sub h k d,
  )
