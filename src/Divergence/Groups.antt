-- ===== src/Divergence/Groups.antt =====
-- internal/divergence/archive.go: the groups of a phase, and who signed which hash.
use mathlib.Core.List.{append-nil, append_assoc, Mem, mem-cons_self, mem-cons_of_mem}
use mathlib.Core.List.Perm
use cmt_top.Base.{
  ◌+◌, Bool, true, not, ◌&&◌, String, List, [], ◌∷◌, ◌++◌, Option, none, some, ◌==◌, String_eq,
  ℕ_eq, ◌≡◌, refl, sym, ap, ◌∙◌, All, sort_by-All, sort_by-perm, subst, arith, Bool-cases, inl, inr,
  if◌then◌else◌, length,
}
use cmt_top.Base.Int.{ℤ, pos, ◌+ℤ◌, +ℤ_assoc, pos_zero_+ℤ, +ℤ_parts, eq_of_parts}
use cmt_top.Base.Maps.{
  Map, lookup, insert, lookup-insert, IsMap, insert-IsMap, AllOf, AllOf-of_lookup,
}
use cmt_top.Divergence.Types.{VoteType, InvestigationHash}
use cmt_top.Divergence.Evidence.{
  InvestigationValidator, InvestigationGroup, weight, vote_of, values_of, snapshot_phase,
  add_hashes, phase_groups, sign, group_or_new, new_investigation_group, investigation_before,
}

-- The rows whose observed vote names a hash, once for each time it does, with their weights.
unfoldable pub times : String → String → ℤ → List InvestigationHash → List (String × ℤ)
times hash addr power [] = []
times hash addr power (h ∷ hashes) =
    let rest = times hash addr power hashes in if h.hash == hash then (addr, power) ∷ rest else rest

unfoldable pub signers : VoteType → String → List InvestigationValidator → List (String × ℤ)
signers kind hash [] = []
signers kind hash (v ∷ vs) =
    let rest = signers kind hash vs in
    if (vote_of kind v).observed
    then times hash v.address (weight v) (vote_of kind v).hashes ++ rest
    else rest

hash_eq : (a b : String) → (a == b) ≡ true → a ≡ b
hash_eq a b e = (String_eq.decides a b).0 e

unfoldable pub sum_of : List (String × ℤ) → ℤ
sum_of [] = pos 0
sum_of (s ∷ more) = s.1 +ℤ sum_of more

unfoldable pub addresses : List (String × ℤ) → List String
addresses [] = []
addresses (s ∷ more) = s.0 ∷ addresses more

-- A group with more signers.
with_signers : List (String × ℤ) → InvestigationGroup → InvestigationGroup
with_signers more g = record g {
  validators = g.validators ++ addresses more;
  voting_power = g.voting_power +ℤ sum_of more;
  validator_count = g.validator_count + length more;
}

+ℤ_pos_zero : (a : ℤ) → a +ℤ pos 0 ≡ a
+ℤ_pos_zero a = eq_of_parts (a +ℤ pos 0) a (omega (arith, +ℤ_parts a (pos 0)))

same_group :
    (g h : InvestigationGroup)
    → g.hash ≡ h.hash
    → g.voting_power ≡ h.voting_power
    → g.validator_count ≡ h.validator_count
    → g.validators ≡ h.validators
    → g.is_canonical ≡ h.is_canonical
    → g ≡ h
same_group g h a b c d e = ground arith

with_signers-nil : (g : InvestigationGroup) → with_signers [] g ≡ g
unfolding with_signers addresses sum_of
with_signers-nil g =
    same_group (with_signers [] g) g refl (+ℤ_pos_zero g.voting_power) (omega arith)
      (append-nil g.validators) refl

with_signers-sign :
    (addr : String) (power : ℤ) (more : List (String × ℤ)) (g : InvestigationGroup)
    → with_signers more (sign addr power g) ≡ with_signers ((addr, power) ∷ more) g
unfolding with_signers addresses sum_of
with_signers-sign addr power more g =
    same_group (with_signers more (sign addr power g)) (with_signers ((addr, power) ∷ more) g) refl
      (+ℤ_assoc g.voting_power power (sum_of more)) (omega arith)
      (append_assoc g.validators (addr ∷ []) (addresses more)) refl

-- A group that there has to be is in the list.
unfoldable pub Listed : Option InvestigationGroup → List InvestigationGroup → Type 0
Listed none groups = Unit
Listed (some g) groups = Mem g groups

listed :
    (o : Option InvestigationGroup) (groups : List InvestigationGroup)
    → ((g : InvestigationGroup) → o ≡ some g → Mem g groups)
    → Listed o groups
unfolding Listed
listed none groups f = tt
listed (some g) groups f = f g refl

value_of_lookup :
    (hash : String) (g : InvestigationGroup) (groups : Map String InvestigationGroup)
    → lookup hash groups ≡ some g
    → Mem g (values_of groups)
unfolding lookup
value_of_lookup hash g [] e = absurd (ground arith)
value_of_lookup hash g ((at, h) ∷ groups) e = elim (Bool-cases (at == hash)) [
  | inl here ↦ let same : h ≡ g = ground arith in rw same mem-cons_self
  | inr there ↦ mem-cons_of_mem h (value_of_lookup hash g groups (rw there at e))
]

module _ (canonical : String) (committed : Bool) where
  -- A group after more have signed.
  unfoldable signed :
      String → Option InvestigationGroup → List (String × ℤ) → Option InvestigationGroup
  signed hash group [] = group
  signed hash group ((addr, power) ∷ more) =
      signed hash (some (sign addr power (group_or_new canonical committed hash group))) more

  signed-append :
      (hash : String) (group : Option InvestigationGroup) (xs ys : List (String × ℤ))
      → signed hash group (xs ++ ys) ≡ signed hash (signed hash group xs) ys
  unfolding signed
  signed-append hash group [] ys = refl
  signed-append hash group ((addr, power) ∷ xs) ys =
      signed-append hash (some (sign addr power (group_or_new canonical committed hash group))) xs
        ys

  lookup-add_hashes :
      (hash addr : String) (power : ℤ) (hashes : List InvestigationHash)
      (groups : Map String InvestigationGroup)
      → lookup hash (add_hashes canonical committed addr power hashes groups)
        ≡ signed hash (lookup hash groups) (times hash addr power hashes)
  unfolding add_hashes times signed
  lookup-add_hashes hash addr power [] groups = refl
  lookup-add_hashes hash addr power (h ∷ hashes) groups =
      let group : InvestigationGroup =
        sign addr power (group_or_new canonical committed h.hash (lookup h.hash groups)) in
      lookup-add_hashes hash addr power hashes (insert h.hash group groups)
      ∙ rw (lookup-insert h.hash hash group groups) (elim (Bool-cases (h.hash == hash)) [
        | inl e ↦ rw e (
            ap
              (λ x.
                signed hash
                  (some (sign addr power (group_or_new canonical committed x (lookup x groups))))
                  (times hash addr power hashes))
              (hash_eq h.hash hash e))
        | inr e ↦ rw e refl
      ])

  lookup-phase_groups :
      (kind : VoteType) (hash : String) (vs : List InvestigationValidator)
      (groups : Map String InvestigationGroup)
      → lookup hash (phase_groups kind canonical committed vs groups)
        ≡ signed hash (lookup hash groups) (signers kind hash vs)
  unfolding phase_groups signers signed
  lookup-phase_groups kind hash [] groups = refl
  lookup-phase_groups kind hash (v ∷ vs) groups = elim (Bool-cases (vote_of kind v).observed) [
    | inl e ↦ rw e (
        lookup-phase_groups kind hash vs
          (add_hashes canonical committed v.address (weight v) (vote_of kind v).hashes groups)
        ∙ ap (λ g. signed hash g (signers kind hash vs))
            (lookup-add_hashes hash v.address (weight v) (vote_of kind v).hashes groups)
        ∙ sym (
            signed-append hash (lookup hash groups)
              (times hash v.address (weight v) (vote_of kind v).hashes) (signers kind hash vs)))
    | inr e ↦ rw e (lookup-phase_groups kind hash vs groups)
  ]

  add_hashes-IsMap :
      (addr : String) (power : ℤ) (hashes : List InvestigationHash)
      (groups : Map String InvestigationGroup)
      → IsMap groups
      → IsMap (add_hashes canonical committed addr power hashes groups)
  unfolding add_hashes
  add_hashes-IsMap addr power [] groups m = m
  add_hashes-IsMap addr power (h ∷ hashes) groups m =
      let group : InvestigationGroup =
        sign addr power (group_or_new canonical committed h.hash (lookup h.hash groups)) in
      add_hashes-IsMap addr power hashes (insert h.hash group groups)
        (insert-IsMap h.hash group groups m)

  phase_groups-IsMap :
      (kind : VoteType) (vs : List InvestigationValidator) (groups : Map String InvestigationGroup)
      → IsMap groups
      → IsMap (phase_groups kind canonical committed vs groups)
  unfolding phase_groups
  phase_groups-IsMap kind [] groups m = m
  phase_groups-IsMap kind (v ∷ vs) groups m = elim (Bool-cases (vote_of kind v).observed) [
    | inl e ↦ rw e (
        phase_groups-IsMap kind vs
          (add_hashes canonical committed v.address (weight v) (vote_of kind v).hashes groups)
          (add_hashes-IsMap v.address (weight v) (vote_of kind v).hashes groups m))
    | inr e ↦ rw e (phase_groups-IsMap kind vs groups m)
  ]

  signed_lem :
      (hash : String) (g : InvestigationGroup) (more : List (String × ℤ))
      → signed hash (some g) more ≡ some (with_signers more g)
  unfolding signed
  signed_lem hash g [] = ap some (sym (with_signers-nil g))
  signed_lem hash g ((addr, power) ∷ more) =
      signed_lem hash (sign addr power g) more ∙ ap some (with_signers-sign addr power more g)

  -- What the report has to say of a hash, by its signers alone: no group if there are none.
  unfoldable pub group_by_signers : String → List (String × ℤ) → Option InvestigationGroup
  group_by_signers hash [] = none
  group_by_signers hash (s ∷ more) = some (record {
    hash = hash;
    voting_power = sum_of (s ∷ more);
    validator_count = length (s ∷ more);
    validators = addresses (s ∷ more);
    is_canonical = committed && not (hash == "") && canonical == hash;
  })

  signed-none :
      (hash : String) (signs : List (String × ℤ))
      → signed hash none signs ≡ group_by_signers hash signs
  unfolding signed group_by_signers addresses sum_of with_signers
  signed-none hash [] = refl
  signed-none hash ((addr, power) ∷ more) =
      let fresh : InvestigationGroup = new_investigation_group canonical committed hash in
      signed_lem hash (sign addr power fresh) more
      ∙ ap some (with_signers-sign addr power more fresh)
      ∙ ap some (
          same_group (with_signers ((addr, power) ∷ more) fresh)
            (record {
              hash = hash;
              voting_power = sum_of ((addr, power) ∷ more);
              validator_count = length ((addr, power) ∷ more);
              validators = addresses ((addr, power) ∷ more);
              is_canonical = committed && not (hash == "") && canonical == hash;
            })
            refl (pos_zero_+ℤ (power +ℤ sum_of more)) (omega arith) refl refl)

  lookup-phase_groups_nil :
      (kind : VoteType) (hash : String) (vs : List InvestigationValidator)
      → lookup hash (phase_groups kind canonical committed vs [])
        ≡ group_by_signers hash (signers kind hash vs)
  unfolding lookup
  lookup-phase_groups_nil kind hash vs =
      lookup-phase_groups kind hash vs [] ∙ signed-none hash (signers kind hash vs)

  -- A group says what its hash's signers say.
  unfoldable pub IsSigned : VoteType → List InvestigationValidator → InvestigationGroup → Type 0
  IsSigned kind vs g = group_by_signers g.hash (signers kind g.hash vs) ≡ some g

  hash_of_signed :
      (hash : String) (signs : List (String × ℤ)) (g : InvestigationGroup)
      → group_by_signers hash signs ≡ some g
      → g.hash ≡ hash
  unfolding group_by_signers
  hash_of_signed hash [] g e = absurd (ground arith)
  hash_of_signed hash (s ∷ more) g e = ground arith

  values_of-IsSigned :
      (kind : VoteType) (vs : List InvestigationValidator) (groups : Map String InvestigationGroup)
      → AllOf (λ hash g. group_by_signers hash (signers kind hash vs) ≡ some g) groups
      → All (IsSigned kind vs) (values_of groups)
  unfolding IsSigned
  values_of-IsSigned kind vs [] a = tt
  values_of-IsSigned kind vs ((hash, g) ∷ groups) a = (
    subst (λ h. group_by_signers h (signers kind h vs) ≡ some g)
        (sym (hash_of_signed hash (signers kind hash vs) g a.0)) a.0,
    values_of-IsSigned kind vs groups a.1,
  )

  -- Over any list of a round's validators, a phase of the report has exactly the groups that its votes
  -- make: each group has the hash, the signers in order, their number, the sum of their weights and
  -- the canonical mark that the observed votes for its hash give, and each hash that somebody signed
  -- has such a group.
  pub snapshot_phase-signers :
      (kind : VoteType) (vs : List InvestigationValidator)
      → All (IsSigned kind vs) (snapshot_phase vs kind canonical committed).groups
        × ((hash : String)
            → Listed
                (group_by_signers hash (signers kind hash vs))
                (snapshot_phase vs kind canonical committed).groups)
  unfolding snapshot_phase
  snapshot_phase-signers kind vs =
      let groups : Map String InvestigationGroup = phase_groups kind canonical committed vs [] in
      let signed_map : AllOf (λ hash g. group_by_signers hash (signers kind hash vs) ≡ some g)
          groups =
        AllOf-of_lookup (λ hash g. group_by_signers hash (signers kind hash vs) ≡ some g) groups
          (phase_groups-IsMap kind vs [] tt)
          (λ hash g e. sym (lookup-phase_groups_nil kind hash vs) ∙ e) in
      (
        sort_by-All (IsSigned kind vs) investigation_before (values_of groups)
            (values_of-IsSigned kind vs groups signed_map),
        λ hash. listed (group_by_signers hash (signers kind hash vs)) _ (λ g e.
            (Perm.mem_iff (sort_by-perm investigation_before (values_of groups))).1
              (value_of_lookup hash g groups (lookup-phase_groups_nil kind hash vs ∙ e))),
      )
