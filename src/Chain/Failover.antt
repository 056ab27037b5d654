-- ===== src/Chain/Failover.antt =====
-- internal/chain/cometrpc/client.go: which endpoint answers a request.
use native.Mathlib.Nat.{mod-lt}
use mathlib.Core.List.{Perm}
use cmt_top.Base.{
  ℕ, zero, suc, ◌+◌, ◌%◌, ◌<◌, ◌≤◌, ◌≡◌, refl, sym, ap, ◌∙◌, inl, inr, not, String, List, [], ◌∷◌,
  Option, none, some, String_eq, arith, length, ◌⊎◌, keep, length-append,
}
use cmt_top.Chain.Rotation.{rotation, rotation-Perm, nth-rotation, length-rotation}
use cmt_top.Chain.Pool.{
  Endpoint, Pool, Failure, no_error, all_endpoints_failed, Result, ok, failed, nth, new_pool,
  active_url, index_of, set_active, try_from, do_request,
}

pub Result-cases {ℓ} :
    {A : Type ℓ} (r : Result A) → ((a : A) × (r ≡ ok a)) ⊎ ((err : Failure) × (r ≡ failed err))
Result-cases (ok a) = inl (a, refl)
Result-cases (failed err) = inr (err, refl)

active_url_at :
    (i : ℕ) (p : Pool) (e : Endpoint)
    → nth i p.endpoints ≡ some e
    → active_url (record p { active = i }) ≡ e.url
unfolding active_url
active_url_at i p e h = ground (arith)

-- The specification: the endpoints one after the other, up to the first that answers.
module _ {ℓ κ} {W : Type ℓ} {T : Type κ} (attempt : Endpoint → W → W × Result T) where
  unfoldable pub first_answer : List Endpoint → Failure → W → W × Result (T × String)
  first_answer [] last w = (w, failed (all_endpoints_failed last))
  first_answer (e ∷ es) last w = elim (attempt e w).1 [
    | ok x ↦ ((attempt e w).0, ok (x, e.url))
    | failed err ↦ first_answer es err (attempt e w).0
  ]

  -- The pool after a request: pinned to the endpoint that answered, or as it was.
  abbrev pub Pins : Pool → Pool → Result (T × String) → Type 0
  Pins p p' (failed _) = p' ≡ p
  Pins p p' (ok (_, url)) =
      (active_url p' ≡ url) × (p'.endpoints ≡ p.endpoints) × (p'.active < length p.endpoints)

  try_from_ok :
      (start left off : ℕ) (last : Failure) (p : Pool) (w : W) (e : Endpoint) (v : T)
      → nth ((start + off) % length p.endpoints) p.endpoints ≡ some e
      → (attempt e w).1 ≡ ok v
      → try_from attempt start (suc left) off last p w
        ≡ ((attempt e w).0, record p { active = (start + off) % length p.endpoints }, ok (v, e.url))
  unfolding try_from
  try_from_ok start left off last p w e v here q = ground (arith, here, q)

  try_from_failed :
      (start left off : ℕ) (last : Failure) (p : Pool) (w : W) (e : Endpoint) (err : Failure)
      → nth ((start + off) % length p.endpoints) p.endpoints ≡ some e
      → (attempt e w).1 ≡ failed err
      → try_from attempt start (suc left) off last p w
        ≡ try_from attempt start left (suc off) err p (attempt e w).0
  unfolding try_from
  try_from_failed start left off last p w e err here q = ground (arith, here, q)

  pub first_answer_ok :
      (e : Endpoint) (es : List Endpoint) (last : Failure) (w : W) (v : T)
      → (attempt e w).1 ≡ ok v
      → first_answer (e ∷ es) last w ≡ ((attempt e w).0, ok (v, e.url))
  unfolding first_answer
  first_answer_ok e es last w v q = ground (arith, q)

  pub first_answer_failed :
      (e : Endpoint) (es : List Endpoint) (last : Failure) (w : W) (err : Failure)
      → (attempt e w).1 ≡ failed err
      → first_answer (e ∷ es) last w ≡ first_answer es err (attempt e w).0
  unfolding first_answer
  first_answer_failed e es last w err q = ground (arith, q)

  try_from_lem :
      (start left off : ℕ) (last : Failure) (p : Pool) (w : W) (es : List Endpoint)
      → length es ≡ left
      → left ≤ length p.endpoints
      → ((k : ℕ) → k < left → nth ((start + (off + k)) % length p.endpoints) p.endpoints ≡ nth k es)
      → let r = try_from attempt start left off last p w in
        ((r.0, r.2) ≡ first_answer es last w) × Pins p r.1 r.2
  unfolding try_from first_answer
  try_from_lem start zero off last p w [] e l f = (refl, refl)
  try_from_lem start zero off last p w (x ∷ es) e l f = absurd (omega arith)
  try_from_lem start (suc left) off last p w [] e l f = absurd (omega arith)
  try_from_lem start (suc left) off last p w (x ∷ es) e l f =
      let n : ℕ = length p.endpoints in
      let i : ℕ = (start + off) % n in
      let here : nth i p.endpoints ≡ some x =
        ap (λ j. nth j p.endpoints)
          (let e : off ≡ off + 0 = omega arith in ap (λ k. (start + k) % n) e)
        ∙ f 0 (omega arith) in
      let below : i < n = mod-lt (start + off) (omega arith) in
      elim (Result-cases (attempt x w).1) [
        | inl (v, q) ↦
            rw (try_from_ok start left off last p w x v here q, first_answer_ok x es last w v q)
              (refl, (active_url_at i p x here, refl, below))
        | inr (err, q) ↦
            rw
              (
                try_from_failed start left off last p w x err here q,
                first_answer_failed x es last w err q,
              )
              (try_from_lem start left (suc off) err p (attempt x w).0 es (omega arith)
                (omega arith)
                (λ k m.
                  (let e : suc off + k ≡ off + suc k = omega arith in
                    ap (λ o. nth ((start + o) % n) p.endpoints) e)
                  ∙ f (suc k) (omega arith)))
      ]

  -- A request to a pool whose active index is an endpoint's has the outcome, on the world and in its
  -- answer, of asking the endpoints one after the other from the active one on, in a circle that holds
  -- each exactly once, up to the first that answers. The pool is then pinned to the endpoint that
  -- answered, whose URL is returned; if none answers it is left as it was.
  pub do_request_lem :
      (p : Pool) (w : W)
      → p.active < length p.endpoints
      → let r = do_request attempt p w in
        ((r.0, r.2) ≡ first_answer (rotation p.active p.endpoints) no_error w)
        × Pins p r.1 r.2
        × Perm (rotation p.active p.endpoints) p.endpoints
  unfolding do_request
  do_request_lem p w l =
      let (same, pins) =
        try_from_lem p.active (length p.endpoints) 0 no_error p w (rotation p.active p.endpoints)
          (length-rotation p.active p.endpoints l) (omega arith)
          (λ k m.
            (let e : 0 + k ≡ k = omega arith in
              ap (λ o. nth ((p.active + o) % length p.endpoints) p.endpoints) e)
            ∙ sym (nth-rotation p.active k p.endpoints l m)) in
      (same, pins, rotation-Perm p.active p.endpoints)

-- The active index is one of the endpoints'.
abbrev pub IsPool : Pool → Type 0
IsPool p = p.active < length p.endpoints

index_of-lt :
    (url : String) (i j : ℕ) (eps : List Endpoint)
    → index_of url i eps ≡ some j
    → j < i + length eps
unfolding index_of
index_of-lt url i j [] h = absurd (ground arith)
index_of-lt url i j (e ∷ eps) h = ground (arith, index_of-lt url (suc i) j eps)

pub placed-IsPool :
    (p : Pool) (place : Option ℕ)
    → IsPool p
    → ((j : ℕ) → place ≡ some j → j < length p.endpoints)
    → IsPool (elim place [ none ↦ p | some i ↦ record p { active = i } ])
placed-IsPool p none h f = h
placed-IsPool p (some i) h f = f i refl

pub set_active-IsPool : (p : Pool) (url : String) → IsPool p → IsPool (set_active p url)
unfolding set_active
set_active-IsPool p url h =
    placed-IsPool p (index_of url 0 p.endpoints) h
      (λ j e. omega (arith, index_of-lt url 0 j p.endpoints e))

length-primary_first :
    (eps : List Endpoint)
    → length (keep (λ e. e.primary) eps) + length (keep (λ e. not e.primary) eps) ≡ length eps
length-primary_first [] = omega arith
length-primary_first (e ∷ eps) = ground (arith, length-primary_first eps)

pub new_pool-IsPool :
    (make : Endpoint → Option Failure) (eps : List Endpoint) (p : Pool)
    → new_pool make eps ≡ ok p
    → IsPool p
unfolding new_pool
new_pool-IsPool make [] p h = absurd (ground arith)
new_pool-IsPool make (e ∷ eps) p h = ground (
  arith,
  length-primary_first (e ∷ eps),
  length-append (keep (λ x. x.primary) (e ∷ eps)) (keep (λ x. not x.primary) (e ∷ eps)),
)
