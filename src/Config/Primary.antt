-- ===== src/Config/Primary.antt =====
-- internal/config/config.go: which endpoint `PrimaryRPC` gives.
use cmt_top.Base.{
  ◌≡◌, ◌⊎◌, refl, sym, ◌∙◌, subst, inl, inr, true, false, String, List, [], ◌∷◌, String_eq, All,
  Bool-cases,
}
use cmt_top.Config.Types.{Rpc, Config, first_primary, first_url, primary_rpc}

-- The URL of the first endpoint that is marked as primary.
abbrev pub IsMarked : List Rpc → String → Type 0
IsMarked [] url = ⊥
IsMarked (r ∷ rs) url =
    ((r.primary ≡ true) × (r.url ≡ url)) ⊎ ((r.primary ≡ false) × IsMarked rs url)

abbrev pub IsFirst : List Rpc → String → Type 0
IsFirst [] url = url ≡ ""
IsFirst (r ∷ rs) url = r.url ≡ url

-- The URL of the primary endpoint: the first that is marked, or the first of all where none is.
abbrev pub IsPrimary : List Rpc → String → Type 0
IsPrimary rpcs url = IsMarked rpcs url ⊎ (All (λ r. r.primary ≡ false) rpcs × IsFirst rpcs url)

first_primary-cases :
    (otherwise : String) (rpcs : List Rpc)
    → IsMarked rpcs (first_primary otherwise rpcs)
      ⊎ (All (λ r. r.primary ≡ false) rpcs × (first_primary otherwise rpcs ≡ otherwise))
unfolding first_primary
first_primary-cases otherwise [] = inr (tt, refl)
first_primary-cases otherwise (r ∷ rs) = elim (Bool-cases r.primary) [
  | inl here ↦ rw here (inl (inl (refl, refl)))
  | inr not_ ↦ elim (first_primary-cases otherwise rs) [
    | inl m ↦ rw not_ (inl (inr (refl, m)))
    | inr (a, e) ↦ rw not_ (inr ((refl, a), e))
  ]
]

first_primary-marked :
    (otherwise url : String) (rpcs : List Rpc)
    → IsMarked rpcs url
    → first_primary otherwise rpcs ≡ url
unfolding first_primary
first_primary-marked otherwise url [] m = absurd m
first_primary-marked otherwise url (r ∷ rs) (inl (p, e)) = rw p e
first_primary-marked otherwise url (r ∷ rs) (inr (p, m)) =
    rw p (first_primary-marked otherwise url rs m)

first_primary-unmarked :
    (otherwise : String) (rpcs : List Rpc)
    → All (λ r. r.primary ≡ false) rpcs
    → first_primary otherwise rpcs ≡ otherwise
unfolding first_primary
first_primary-unmarked otherwise [] a = refl
first_primary-unmarked otherwise (r ∷ rs) a = rw (a.0) (first_primary-unmarked otherwise rs a.1)

first_url-IsFirst : (rpcs : List Rpc) → IsFirst rpcs (first_url rpcs)
first_url-IsFirst [] = refl
first_url-IsFirst (r ∷ rs) = refl

IsFirst-first_url : (rpcs : List Rpc) (url : String) → IsFirst rpcs url → first_url rpcs ≡ url
IsFirst-first_url [] url e = sym e
IsFirst-first_url (r ∷ rs) url e = e

pub primary_rpc-IsPrimary : (c : Config) → IsPrimary c.chain.rpcs (primary_rpc c)
unfolding primary_rpc
primary_rpc-IsPrimary c = elim (first_primary-cases (first_url c.chain.rpcs) c.chain.rpcs) [
  | inl m ↦ inl m
  | inr (a, e) ↦ inr (a, subst (IsFirst c.chain.rpcs) (sym e) (first_url-IsFirst c.chain.rpcs))
]

pub IsPrimary-primary_rpc :
    (c : Config) (url : String) → IsPrimary c.chain.rpcs url → primary_rpc c ≡ url
unfolding primary_rpc
IsPrimary-primary_rpc c url (inl m) =
    first_primary-marked (first_url c.chain.rpcs) url c.chain.rpcs m
IsPrimary-primary_rpc c url (inr (a, e)) =
    first_primary-unmarked (first_url c.chain.rpcs) c.chain.rpcs a
    ∙ IsFirst-first_url c.chain.rpcs url e
