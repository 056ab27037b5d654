-- ===== src/Chain/Pool.antt =====
-- internal/chain/cometrpc/client.go: a pool of RPC endpoints. The client and the circuit breaker of
-- an endpoint are not of this repository: `attempt` is one `cb.Execute` over them, on a world that
-- it may change. The requests of one pool run one after the other.

use cmt_top.Base.{
  ℕ, zero, suc, ◌+◌, ◌%◌, Bool, not, String, List, [], ◌∷◌, ◌++◌, Option, none, some, ◌==◌,
  String_eq, if◌then◌else◌, length, keep,
}

pub record Endpoint : Type 0 where
  pub url : String
  pub primary : Bool

pub record Pool : Type 0 where
  pub endpoints : List Endpoint
  pub active : ℕ

pub data Failure : Type 0 where
  reply : String → Failure
  no_endpoints : Failure
  init : String → Failure → Failure
  all_endpoints_failed : Failure → Failure
  no_error : Failure
  other_height inconsistent_total incomplete duplicate index_out_of_range : Failure

pub data Result {ℓ} (A : Type ℓ) : Type ℓ where
  ok : A → Result A
  failed : Failure → Result A

-- `l[i]`.
abbrev pub nth {ℓ} : {A : Type ℓ} → ℕ → List A → Option A
nth i [] = none
nth zero (x ∷ xs) = some x
nth (suc i) (x ∷ xs) = nth i xs

abbrev pub primary_first : List Endpoint → List Endpoint
primary_first eps = keep (λ e. e.primary) eps ++ keep (λ e. not e.primary) eps

-- The loop that makes the clients, up to the first that cannot be made.
unfoldable pub init_all : (Endpoint → Option Failure) → List Endpoint → Option Failure
init_all make [] = none
init_all make (e ∷ eps) = elim (make e) [
  | none ↦ init_all make eps
  | some err ↦ some (init e.url err)
]

unfoldable pub new_pool : (Endpoint → Option Failure) → List Endpoint → Result Pool
new_pool make [] = failed no_endpoints
new_pool make (e ∷ eps) =
    let sorted = primary_first (e ∷ eps) in
    elim (init_all make sorted) [
      | some err ↦ failed err
      | none ↦ ok (record { endpoints = sorted; active = 0 })
    ]

unfoldable pub active_url : Pool → String
active_url p = elim (nth p.active p.endpoints) [ none ↦ "" | some e ↦ e.url ]

-- The first index from `i` on of an endpoint with the URL.
unfoldable pub index_of : String → ℕ → List Endpoint → Option ℕ
index_of url i [] = none
index_of url i (e ∷ eps) =
    let rest = index_of url (suc i) eps in if e.url == url then some i else rest

unfoldable pub set_active : Pool → String → Pool
set_active p url = elim (index_of url 0 p.endpoints) [ none ↦ p | some i ↦ record p { active = i } ]

module _ {ℓ κ} {W : Type ℓ} {T : Type κ} (attempt : Endpoint → W → W × Result T) where
  -- The loop of `do` over an error, nil before the first (`no_error`), with `left` endpoints to go, the next of them at `off` from `start`.
  unfoldable pub try_from : ℕ → ℕ → ℕ → Failure → Pool → W → W × Pool × Result (T × String)
  try_from start zero off last p w = (w, p, failed (all_endpoints_failed last))
  try_from start (suc left) off last p w =
      let i = (start + off) % length p.endpoints in
      elim (nth i p.endpoints) [
        | none ↦ (w, p, failed index_out_of_range)
        | some e ↦ elim (attempt e w).1 [
          | ok x ↦ ((attempt e w).0, record p { active = i }, ok (x, e.url))
          | failed err ↦ try_from start left (suc off) err p (attempt e w).0
        ]
      ]

  unfoldable pub do_request : Pool → W → W × Pool × Result (T × String)
  do_request p w = try_from p.active (length p.endpoints) 0 no_error p w
