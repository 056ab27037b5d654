-- ===== src/Base/Maps.antt =====
-- Go maps as association lists, in the order of first insertion.
use mathlib.Core.Option
use mathlib.Core.Path.{ap, subst₂, sym, ◌∙◌}
use mathlib.Core.Bool.{false≢true}
use mathlib.Core.Logic.{◌≢◌, inl, inr}
use cmt_top.Base.{Bool-cases}
use cmt_top.Base.{
  suc, ◌≤◌, ◌<◌, ◌≡◌, refl, List, [], ◌∷◌, Option, none, some, arith, Comparable, ◌==◌,
  if◌then◌else◌, length, equals_refl,
}

abbrev pub Map {ℓ κ} : Type ℓ → Type κ → Type (ℓ ⊔ κ)
Map K V = List (K × V)

-- The same keys, with each value changed.
abbrev pub map_values {ℓ κ ι} : {K : Type ℓ} {V : Type κ} {W : Type ι} → (V → W) → Map K V → Map K W
map_values f [] = []
map_values f ((k, v) ∷ m) = (k, f v) ∷ map_values f m

module _ {ℓ κ} {K : Type ℓ} {V : Type κ} ⦃e : Comparable K⦄ where
  unfoldable pub lookup : K → Map K V → Option V
  lookup sought [] = none
  lookup sought ((key, value) ∷ entries) =
      let rest = lookup sought entries in if key == sought then some value else rest

  unfoldable pub insert : K → V → Map K V → Map K V
  insert key value [] = (key, value) ∷ []
  insert key value ((at, old) ∷ entries) =
      let rest = insert key value entries in
      if at == key then (key, value) ∷ entries else (at, old) ∷ rest

  -- Go's `delete`.
  unfoldable pub erase : K → Map K V → Map K V
  erase k [] = []
  erase k ((j, w) ∷ m) = let rest = erase k m in if j == k then rest else (j, w) ∷ rest

  -- Every key stands once, as in a Go map.
  abbrev pub IsMap : Map K V → Type κ
  IsMap [] = Unit
  IsMap ((k, v) ∷ m) = (lookup k m ≡ none) × IsMap m

  pub lookup-insert :
      (key sought : K) (value : V) (entries : Map K V)
      → lookup sought (insert key value entries)
        ≡ (if key == sought then some value else lookup sought entries)
  unfolding insert lookup
  lookup-insert key sought value [] = refl
  lookup-insert key sought value ((at, old) ∷ entries) = ground (
    arith,
    lookup-insert key sought value entries,
    e.decides at key,
    e.decides at sought,
    e.decides key sought,
  )

  pub lookup-insert_self :
      (key : K) (value : V) (entries : Map K V) → lookup key (insert key value entries) ≡ some value
  lookup-insert_self key value entries = simp (equals_refl, lookup-insert)

  pub lookup-erase :
      (k j : K) (m : Map K V) → lookup j (erase k m) ≡ (if k == j then none else lookup j m)
  unfolding lookup erase
  lookup-erase k j [] = ground arith
  lookup-erase k j ((i, w) ∷ m) =
      ground (arith, e.decides k j, e.decides i k, e.decides i j, lookup-erase k j m)

  pub length-insert_new :
      (k : K) (v : V) (m : Map K V) → lookup k m ≡ none → length (insert k v m) ≡ suc (length m)
  unfolding lookup insert
  length-insert_new k v [] h = refl
  length-insert_new k v ((j, w) ∷ m) h = ground (arith, length-insert_new k v m)

  pub length-insert_old :
      (k : K) (v w : V) (m : Map K V) → lookup k m ≡ some w → length (insert k v m) ≡ length m
  unfolding lookup insert
  length-insert_old k v w [] h = ground arith
  length-insert_old k v w ((j, u) ∷ m) h = ground (arith, length-insert_old k v w m)

  pub length-erase-le : (k : K) (m : Map K V) → length (erase k m) ≤ length m
  unfolding erase
  length-erase-le k [] = omega arith
  length-erase-le k ((j, w) ∷ m) = ground (arith, length-erase-le k m)

  pub length-erase-lt :
      (k : K) (v : V) (m : Map K V) → lookup k m ≡ some v → length (erase k m) < length m
  unfolding lookup erase
  length-erase-lt k v [] h = ground arith
  length-erase-lt k v ((j, w) ∷ m) h = ground (arith, length-erase-lt k v m, length-erase-le k m)

  pub insert-IsMap : (k : K) (v : V) (m : Map K V) → IsMap m → IsMap (insert k v m)
  unfolding lookup insert
  insert-IsMap k v [] h = (refl, tt)
  insert-IsMap k v ((j, w) ∷ m) h =
      ground (arith, e.decides j k, e.decides k j, lookup-insert k j v m, insert-IsMap k v m h.1)

  pub erase-IsMap : (k : K) (m : Map K V) → IsMap m → IsMap (erase k m)
  unfolding erase
  erase-IsMap k [] h = tt
  erase-IsMap k ((j, w) ∷ m) h = ground (arith, lookup-erase k j m, erase-IsMap k m h.1)

-- Every entry of a map, by its key and its value.
abbrev pub AllOf {ℓ κ ι} : {K : Type ℓ} {V : Type κ} → (K → V → Type ι) → Map K V → Type ι
AllOf P [] = Unit
AllOf P ((k, v) ∷ m) = P k v × AllOf P m

module _ {ℓ κ ι} {K : Type ℓ} {V : Type κ} ⦃e : Comparable K⦄ (P : K → V → Type ι) where
  pub AllOf-lookup : (k : K) (v : V) (m : Map K V) → AllOf P m → lookup k m ≡ some v → P k v
  unfolding lookup
  AllOf-lookup k v [] a h = absurd (ground arith)
  AllOf-lookup k v ((j, w) ∷ m) a h = elim (Bool-cases (j == k)) [
    | inl here ↦ let same : w ≡ v = ground arith in subst₂ P ((e.decides j k).0 here) same a.0
    | inr there ↦ AllOf-lookup k v m a.1 (rw there at h)
  ]

  pub AllOf-insert : (k : K) (v : V) (m : Map K V) → P k v → AllOf P m → AllOf P (insert k v m)
  unfolding insert
  AllOf-insert k v [] p a = (p, tt)
  AllOf-insert k v ((j, w) ∷ m) p a = elim (Bool-cases (j == k)) [
    | inl here ↦ rw here (p, a.1)
    | inr there ↦ rw there (a.0, AllOf-insert k v m p a.1)
  ]

  -- What is left after an erasure keeps its property, and has other keys.
  pub AllOf-erase : (k : K) (m : Map K V) → AllOf P m → AllOf (λ j v. P j v × (j ≢ k)) (erase k m)
  unfolding erase
  AllOf-erase k [] a = tt
  AllOf-erase k ((j, w) ∷ m) a = elim (Bool-cases (j == k)) [
    | inl here ↦ rw here (AllOf-erase k m a.1)
    | inr there ↦
        rw there ((a.0, λ q. false≢true (sym there ∙ (e.decides j k).1 q)), AllOf-erase k m a.1)
  ]

pub AllOf-map {ℓ κ ι θ} :
    {K : Type ℓ} {V : Type κ} (P : K → V → Type ι) (Q : K → V → Type θ) (m : Map K V)
    → ((k : K) (v : V) → P k v → Q k v)
    → AllOf P m
    → AllOf Q m
AllOf-map P Q [] f a = tt
AllOf-map P Q ((k, v) ∷ m) f a = (f k v a.0, AllOf-map P Q m f a.1)

pub AllOf-both {ℓ κ ι θ} :
    {K : Type ℓ} {V : Type κ} (P : K → V → Type ι) (Q : K → V → Type θ) (m : Map K V)
    → AllOf P m
    → AllOf Q m
    → AllOf (λ k v. P k v × Q k v) m
AllOf-both P Q [] a b = tt
AllOf-both P Q ((k, v) ∷ m) a b = ((a.0, b.0), AllOf-both P Q m a.1 b.1)

pub length-map_values {ℓ κ ι} :
    {K : Type ℓ} {V : Type κ} {W : Type ι} (f : V → W) (m : Map K V)
    → length (map_values f m) ≡ length m
length-map_values f [] = refl
length-map_values f ((k, v) ∷ m) = ap suc (length-map_values f m)

pub AllOf-map_values {ℓ κ ι θ} :
    {K : Type ℓ} {V : Type κ} (P : K → V → Type ι) (Q : K → V → Type θ) (f : V → V) (m : Map K V)
    → ((k : K) (v : V) → P k v → Q k (f v))
    → AllOf P m
    → AllOf Q (map_values f m)
AllOf-map_values P Q f [] g a = tt
AllOf-map_values P Q f ((k, v) ∷ m) g a = (g k v a.0, AllOf-map_values P Q f m g a.1)

module _ {ℓ κ} {K : Type ℓ} {V : Type κ} ⦃e : Comparable K⦄ where
  pub insert-insert : (k : K) (v w : V) (m : Map K V) → insert k v (insert k w m) ≡ insert k v m
  unfolding insert
  insert-insert k v w [] = rw (equals_refl k)
  insert-insert k v w ((j, u) ∷ m) = elim (Bool-cases (j == k)) [
    | inl here ↦ ground (arith, equals_refl k)
    | inr there ↦ ground (arith, insert-insert k v w m)
  ]

  pub insert_same : (k : K) (v : V) (m : Map K V) → lookup k m ≡ some v → insert k v m ≡ m
  unfolding insert lookup
  insert_same k v [] h = cc
  insert_same k v ((j, w) ∷ m) h = ground (arith, e.decides j k, insert_same k v m)

pub lookup-map_values {ℓ κ ι} :
    {K : Type ℓ} {V : Type κ} {W : Type ι} ⦃e : Comparable K⦄ (f : V → W) (k : K) (m : Map K V)
    → lookup k (map_values f m) ≡ Option.map f (lookup k m)
unfolding lookup
lookup-map_values f k [] = refl
lookup-map_values f k ((j, v) ∷ m) = ground (arith, lookup-map_values f k m)

-- What holds of each value that can be looked up, holds of every entry of a map.
pub AllOf-of_lookup {ℓ κ ι} :
    {K : Type ℓ} {V : Type κ} ⦃e : Comparable K⦄ (P : K → V → Type ι) (m : Map K V)
    → IsMap m
    → ((k : K) (v : V) → lookup k m ≡ some v → P k v)
    → AllOf P m
unfolding lookup
AllOf-of_lookup P [] h f = tt
AllOf-of_lookup ⦃e = e⦄ P ((k, v) ∷ m) h f = (
  f k v (rw (equals_refl k) refl),
  AllOf-of_lookup P m h.1 (λ j w q. f j w (ground (arith, e.decides k j, h.0))),
)
