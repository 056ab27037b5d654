-- ===== src/Web/Cache/Limits.antt =====
-- internal/web/rounds_cache.go: the cache counts what it holds, and keeps its limits.
use mathlib.Core.Bool.{false≢true}
use cmt_top.Base.{
  ℕ, zero, suc, ◌+◌, ◌-◌, ◌*◌, ◌≤◌, ◌<◌, ◌≡◌, refl, sym, ap, ◌∙◌, subst, inl, inr, ◌⊎◌, true, false,
  ◌||◌, [], ◌∷◌, none, some, ◌==◌, String_eq, length, arith, Bool-cases, Option-cases, equals_refl,
}
use cmt_top.Base.{ltb as nat_ltb}
use cmt_top.Base.Int.{ℤ, pos, ℤ_eq}
use cmt_top.Base.Maps.{
  Map, lookup, insert, erase, IsMap, erase-IsMap, AllOf, AllOf-erase, AllOf-map, lookup-erase,
  length-erase-lt,
}
use cmt_top.State.Types.{Time, is_zero_time}
use cmt_top.Web.Cache.{
  RoundsEntry, RoundsCache, remove_locked, least_used, is_over, trim, trim_locked, sum_lengths,
  rounds_cache_variants, rounds_cache_bytes, rounds_cache_entries,
}

unfoldable pub sum_sizes : Map ℤ RoundsEntry → ℕ
sum_sizes [] = 0
sum_sizes ((_, e) ∷ entries) = e.size + sum_sizes entries

-- An entry is charged for three times its full report and for its variants, of which it has few.
pub record IsCharged (e : RoundsEntry) : Type 0 where
  pub charged : e.size ≡ 3 * e.full_length + sum_lengths e.variants
  pub few_variants : length e.variants ≤ rounds_cache_variants

zero-or-positive : (n : ℕ) → (n ≡ 0) ⊎ (0 < n)
zero-or-positive n = ground arith

-- The bytes counted are those of the entries.
pub record IsCounted (c : RoundsCache) : Type 0 where
  pub is_map : IsMap c.entries
  pub counted : c.bytes ≡ sum_sizes c.entries
  pub entries_charged : AllOf (λ _ e. IsCharged e) c.entries

abbrev pub Fits : RoundsCache → Type 0
Fits c = (c.bytes ≤ rounds_cache_bytes) × (length c.entries ≤ rounds_cache_entries)

erase-absent :
    (height : ℤ) (entries : Map ℤ RoundsEntry)
    → lookup height entries ≡ none
    → erase height entries ≡ entries
unfolding erase lookup
erase-absent height [] h = refl
erase-absent height ((at, e) ∷ entries) h = elim (Bool-cases (at == height)) [
  | inl same ↦ absurd (ground arith)
  | inr other ↦ rw other (ap (λ l. (at, e) ∷ l) (erase-absent height entries (rw other at h)))
]

pub sum_sizes-erase :
    (height : ℤ) (e : RoundsEntry) (entries : Map ℤ RoundsEntry)
    → IsMap entries
    → lookup height entries ≡ some e
    → e.size + sum_sizes (erase height entries) ≡ sum_sizes entries
unfolding erase lookup sum_sizes
sum_sizes-erase height e [] m h = absurd (ground arith)
sum_sizes-erase height e ((at, d) ∷ entries) m h = elim (Bool-cases (at == height)) [
  | inl same ↦
      let gone : erase height entries ≡ entries =
        erase-absent height entries
          (subst (λ k. lookup k entries ≡ none) ((ℤ_eq.decides at height).0 same) m.0) in
      let it : d ≡ e = ground arith in
      rw (same, gone) (ap (λ x. x.size + sum_sizes entries) (sym it))
  | inr other ↦
      let rest = sum_sizes-erase height e entries m.1 (rw other at h) in
      rw other (omega (arith, rest))
]

pub sum_sizes-insert_new :
    (height : ℤ) (e : RoundsEntry) (entries : Map ℤ RoundsEntry)
    → lookup height entries ≡ none
    → sum_sizes (insert height e entries) ≡ sum_sizes entries + e.size
unfolding insert lookup sum_sizes
sum_sizes-insert_new height e [] h = omega arith
sum_sizes-insert_new height e ((at, d) ∷ entries) h =
    ground (arith, sum_sizes-insert_new height e entries)

pub sum_sizes-insert_old :
    (height : ℤ) (e d : RoundsEntry) (entries : Map ℤ RoundsEntry)
    → lookup height entries ≡ some d
    → sum_sizes (insert height e entries) + d.size ≡ sum_sizes entries + e.size
unfolding insert lookup sum_sizes
sum_sizes-insert_old height e d [] h = absurd (ground arith)
sum_sizes-insert_old height e d ((at, x) ∷ entries) h =
    ground (arith, sum_sizes-insert_old height e d entries)

in_rest :
    (height : ℤ) (e : RoundsEntry) (sought : ℤ) (entries : Map ℤ RoundsEntry)
    → (sought ≡ height) ⊎ ((d : RoundsEntry) × (lookup sought entries ≡ some d))
    → (d : RoundsEntry) × (lookup sought ((height, e) ∷ entries) ≡ some d)
unfolding lookup
in_rest height e sought entries found = elim (Bool-cases (height == sought)) [
  | inl same ↦ (e, rw same refl)
  | inr other ↦ elim found [
    | inl same ↦ absurd (false≢true (sym other ∙ (ℤ_eq.decides height sought).1 (sym same)))
    | inr (d, h) ↦ (d, rw other h)
  ]
]

least_used-older :
    (oldest : ℤ) (at : Time) (height : ℤ) (e : RoundsEntry) (entries : Map ℤ RoundsEntry)
    → (is_zero_time at || nat_ltb e.last_used at) ≡ true
    → least_used oldest at ((height, e) ∷ entries) ≡ least_used height e.last_used entries
unfolding least_used
least_used-older oldest at height e entries h = ground (arith, h)

least_used-newer :
    (oldest : ℤ) (at : Time) (height : ℤ) (e : RoundsEntry) (entries : Map ℤ RoundsEntry)
    → (is_zero_time at || nat_ltb e.last_used at) ≡ false
    → least_used oldest at ((height, e) ∷ entries) ≡ least_used oldest at entries
unfolding least_used
least_used-newer oldest at height e entries h = ground (arith, h)

Found : ℤ → ℤ → Map ℤ RoundsEntry → Type 0
Found oldest sought entries =
    (sought ≡ oldest) ⊎ ((e : RoundsEntry) × (lookup sought entries ≡ some e))

least_used-nil : (oldest : ℤ) (at : Time) → least_used oldest at [] ≡ oldest
unfolding least_used
least_used-nil oldest at = refl

-- The scan ends at the height that it has or at one in the rest.
least_used-Has :
    (oldest : ℤ) (at : Time) (entries : Map ℤ RoundsEntry)
    → Found oldest (least_used oldest at entries) entries
unfolding Found
least_used-Has oldest at [] = inl (least_used-nil oldest at)
least_used-Has oldest at ((height, e) ∷ entries) =
    elim (Bool-cases (is_zero_time at || nat_ltb e.last_used at)) [
      | inl older ↦
          subst (λ x. Found oldest x ((height, e) ∷ entries))
            (sym (least_used-older oldest at height e entries older))
            (inr (
              in_rest height e (least_used height e.last_used entries) entries
                (least_used-Has height e.last_used entries)))
      | inr newer ↦
          subst (λ x. Found oldest x ((height, e) ∷ entries))
            (sym (least_used-newer oldest at height e entries newer))
            (elim (least_used-Has oldest at entries) [
              | inl same ↦ inl same
              | inr found ↦
                  inr (in_rest height e (least_used oldest at entries) entries (inr found))
            ])
    ]

-- In a cache that has entries, the scan finds one of them.
least_used-found :
    (entries : Map ℤ RoundsEntry)
    → 0 < length entries
    → (e : RoundsEntry) × (lookup (least_used (pos 0) 0 entries) entries ≡ some e)
unfolding Found
least_used-found [] h = absurd (omega arith)
least_used-found ((height, e) ∷ entries) h =
    subst (λ x. (d : RoundsEntry) × (lookup x ((height, e) ∷ entries) ≡ some d))
      (sym (least_used-older (pos 0) 0 height e entries refl))
      (in_rest height e (least_used height e.last_used entries) entries
        (least_used-Has height e.last_used entries))

remove_locked-absent :
    (height : ℤ) (c : RoundsCache) → lookup height c.entries ≡ none → remove_locked height c ≡ c
unfolding remove_locked
remove_locked-absent height c h = ground (arith, h)

remove_locked-present :
    (height : ℤ) (c : RoundsCache) (e : RoundsEntry)
    → lookup height c.entries ≡ some e
    → remove_locked height c ≡ record { entries = erase height c.entries; bytes = c.bytes - e.size }
unfolding remove_locked
remove_locked-present height c e h = ground (arith, h)

erased-IsCounted :
    (height : ℤ) (c : RoundsCache) (e : RoundsEntry)
    → IsCounted c
    → lookup height c.entries ≡ some e
    → IsCounted (record { entries = erase height c.entries; bytes = c.bytes - e.size })
erased-IsCounted height c e k h = record {
  is_map = erase-IsMap height c.entries k.is_map;
  counted = omega (arith, sum_sizes-erase height e c.entries k.is_map h, k.counted);
  entries_charged =
      AllOf-map _ _ (erase height c.entries) (λ j d a. a.0)
        (AllOf-erase (λ _ d. IsCharged d) height c.entries k.entries_charged);
}

pub remove_locked-IsCounted :
    (height : ℤ) (c : RoundsCache)
    → IsCounted c
    → IsCounted (remove_locked height c) × (lookup height (remove_locked height c).entries ≡ none)
remove_locked-IsCounted height c k = elim (Option-cases (lookup height c.entries)) [
  | inl h ↦ rw (remove_locked-absent height c h) (k, h)
  | inr (e, h) ↦ rw (remove_locked-present height c e h) (
    erased-IsCounted height c e k h,
    lookup-erase height height c.entries ∙ rw (equals_refl height) refl,
  )
]

is_over-nil : (c : RoundsCache) → IsCounted c → length c.entries ≡ 0 → is_over c ≡ false
unfolding sum_sizes
is_over-nil c k l = go c.entries l k.counted
  where
    go :
        (entries : Map ℤ RoundsEntry)
        → length entries ≡ 0
        → c.bytes ≡ sum_sizes entries
        → (nat_ltb rounds_cache_bytes c.bytes || nat_ltb rounds_cache_entries (length entries))
          ≡ false
    go [] e b = ground (arith, b)
    go (x ∷ entries) e b = absurd (omega arith)

is_over-Fits : (c : RoundsCache) → is_over c ≡ false → Fits c
is_over-Fits c h = ground (arith, h)

Trims : ℕ → RoundsCache → Type 0
Trims rounds c = (d : RoundsCache) × (trim rounds c ≡ some d) × IsCounted d × Fits d

trim-over :
    (rounds : ℕ) (c : RoundsCache)
    → is_over c ≡ true
    → trim (suc rounds) c ≡ trim rounds (remove_locked (least_used (pos 0) 0 c.entries) c)
unfolding trim
trim-over rounds c h = ground (arith, h)

trim-under : (rounds : ℕ) (c : RoundsCache) → is_over c ≡ false → trim rounds c ≡ some c
unfolding trim
trim-under zero c h = ground (arith, h)
trim-under (suc rounds) c h = ground (arith, h)

trim-Trims :
    (rounds : ℕ) (c : RoundsCache) → IsCounted c → length c.entries ≤ rounds → Trims rounds c
unfolding Trims
trim-Trims zero c k l =
    let under : is_over c ≡ false = is_over-nil c k (omega arith) in
    (c, trim-under zero c under, k, is_over-Fits c under)
trim-Trims (suc rounds) c k l = elim (Bool-cases (is_over c)) [
  | inr under ↦ (c, trim-under (suc rounds) c under, k, is_over-Fits c under)
  | inl over ↦
      let some_entry : 0 < length c.entries = elim (zero-or-positive (length c.entries)) [
        | inl none_left ↦ absurd (false≢true (sym (is_over-nil c k none_left) ∙ over))
        | inr positive ↦ positive
      ] in
      let (e, h) = least_used-found c.entries some_entry in
      let victim : ℤ = least_used (pos 0) 0 c.entries in
      let (kept, _) = remove_locked-IsCounted victim c k in
      let shorter = length-erase-lt victim e c.entries h in
      let removed = ap (λ d. length d.entries) (remove_locked-present victim c e h) in
      let (d, q, kd, fits) =
        trim-Trims rounds (remove_locked victim c) kept (omega (arith, shorter, removed)) in
      (d, trim-over rounds c over ∙ q, kd, fits)
]

pub trim_locked-Fits :
    (c : RoundsCache)
    → IsCounted c
    → (d : RoundsCache) × (trim_locked c ≡ some d) × IsCounted d × Fits d
unfolding trim_locked Trims
trim_locked-Fits c k = trim-Trims (length c.entries) c k (omega arith)
