-- ===== src/Chain/Paging.antt =====
-- internal/chain/cometrpc/client.go: the pages that make a validator set.
use mathlib.Core.List.{append-nil, append_assoc}
use cmt_top.Base.{
  ◌+◌, ◌<◌, ◌≡◌, ◌≢◌, refl, sym, ◌∙◌, subst, inl, inr, Bool, true, false, ◌||◌, String, List, [],
  ◌∷◌, ◌++◌, none, some, ◌==◌, String_eq, if◌then◌else◌, length, arith, Bool-cases, any_of,
  length-append,
}
use cmt_top.Base.Int.{ℤ, pos, ltb, eqb, eqb_iff, eq_of_parts, ◌≤ℤ◌}
use cmt_top.Base.Maps.{Map, insert, lookup-insert}
use cmt_top.Chain.Pages.{
  Validator, ResultValidators, Progress, marked, mark_page, whole, more, is_inconsistent, take_page,
}

abbrev pub pinned_of : Progress → ResultValidators → ℤ
pinned_of g res = if eqb g.pinned_height (pos 0) then res.block_height else g.pinned_height

abbrev expected_of : Progress → ResultValidators → ℤ
expected_of g res = if ltb g.expected_total (pos 0) then res.total else g.expected_total

pub take_page-more :
    (g g' : Progress) (res : ResultValidators)
    → take_page g res ≡ more g'
    → (g'.expected_total ≡ expected_of g res)
      × (length g.collected < length g'.collected)
      × (pos (length g'.collected + 1) ≤ℤ g'.expected_total)
      × (g'.expected_total ≡ res.total)
      × (g'.pinned_height ≡ pinned_of g res)
      × (res.block_height ≡ pinned_of g res)
      × (g'.collected ≡ g.collected ++ res.validators)
      × (mark_page res.validators g.seen ≡ some g'.seen)
unfolding take_page is_inconsistent
take_page-more g g' res h = ground (
  arith,
  eqb_iff res.total (expected_of g res),
  eqb_iff res.block_height (pinned_of g res),
  length-append g.collected res.validators,
)

pub take_page-whole_set :
    (g : Progress) (res : ResultValidators) (all : List Validator) (height : ℤ)
    → take_page g res ≡ whole all height
    → (pos (length all) ≡ res.total)
      × (res.block_height ≡ pinned_of g res)
      × (height ≡ res.block_height)
      × (all ≡ g.collected ++ res.validators)
unfolding take_page is_inconsistent
take_page-whole_set g res all height h = ground (
  arith,
  eqb_iff res.total (expected_of g res),
  eqb_iff res.block_height (pinned_of g res),
  eq_of_parts (pos (length all)) res.total,
  length-append g.collected res.validators,
)

pub take_page-whole_seen :
    (g : Progress) (res : ResultValidators) (all : List Validator) (height : ℤ)
    → take_page g res ≡ whole all height
    → mark_page res.validators g.seen ≢ none
unfolding take_page is_inconsistent
take_page-whole_seen g res all height h e = ground (arith, e)

unfoldable pub has_address : String → List Validator → Bool
has_address addr = any_of (λ v. v.address == addr)

-- No address stands twice.
unfoldable pub Distinct : List Validator → Type 0
Distinct [] = Unit
Distinct (v ∷ vs) = (has_address v.address vs ≡ false) × Distinct vs

-- The addresses of a list are those that are marked.
unfoldable pub Marks : Map String Bool → List Validator → Type 0
Marks seen vs = (addr : String) → marked addr seen ≡ has_address addr vs

has_address-snoc :
    (addr : String) (vs : List Validator) (v : Validator)
    → has_address addr (vs ++ v ∷ []) ≡ (has_address addr vs || v.address == addr)
unfolding has_address
has_address-snoc addr [] v = ground arith
has_address-snoc addr (w ∷ vs) v = ground (arith, has_address-snoc addr vs v)

Distinct-snoc :
    (vs : List Validator) (v : Validator)
    → Distinct vs
    → has_address v.address vs ≡ false
    → Distinct (vs ++ v ∷ [])
unfolding Distinct has_address
Distinct-snoc [] v d h = (refl, tt)
Distinct-snoc (w ∷ vs) v d h = (
  ground (
    arith,
    has_address-snoc w.address vs v,
    String_eq.decides v.address w.address,
    String_eq.decides w.address v.address,
  ),
  Distinct-snoc vs v d.1 (ground arith),
)

Marks-snoc :
    (xs : List Validator) (v : Validator) (seen : Map String Bool)
    → Marks seen xs
    → Marks (insert v.address true seen) (xs ++ v ∷ [])
unfolding Marks
Marks-snoc xs v seen m addr =
    ground (arith, lookup-insert v.address addr true seen, has_address-snoc addr xs v, m addr)

pub mark_page-Distinct :
    (vs xs : List Validator) (seen seen' : Map String Bool)
    → mark_page vs seen ≡ some seen'
    → Marks seen xs
    → Distinct xs
    → Marks seen' (xs ++ vs) × Distinct (xs ++ vs)
unfolding mark_page Marks
mark_page-Distinct [] xs seen seen' h m d =
    let same : seen ≡ seen' = ground arith in
    (
      subst (λ l. Marks seen' l) (sym (append-nil xs)) (subst (λ s. Marks s xs) same m),
      subst Distinct (sym (append-nil xs)) d,
    )
mark_page-Distinct (v ∷ vs) xs seen seen' h m d = elim (Bool-cases (marked v.address seen)) [
  | inl dup ↦ absurd (ground arith)
  | inr fresh ↦
      let rest =
        mark_page-Distinct vs (xs ++ v ∷ []) (insert v.address true seen) seen' (ground arith)
          (Marks-snoc xs v seen m) (Distinct-snoc xs v d (sym (m v.address) ∙ fresh)) in
      subst (λ l. Marks seen' l × Distinct l) (append_assoc xs (v ∷ []) vs) rest
]
