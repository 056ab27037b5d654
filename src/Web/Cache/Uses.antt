-- ===== src/Web/Cache/Uses.antt =====
-- internal/web/rounds_cache.go and rounds_compact.go: the cache of round reports after any sequence of uses.
use cmt_top.Base.{
  ℕ, ◌+◌, ◌-◌, ◌*◌, ◌≤◌, ◌<◌, ◌≡◌, refl, sym, ◌∙◌, subst, inl, inr, Bool, true, false, ◌&&◌, String,
  List, [], ◌∷◌, Option, none, some, String_eq, length, arith, Bool-cases, Option-cases,
}
use cmt_top.Base.{leb as nat_leb}
use cmt_top.Base.Int.{ℤ, ℤ_eq}
use cmt_top.Base.Maps.{
  Map, lookup, insert, insert-IsMap, AllOf-insert, AllOf-lookup, length-insert_new,
  length-insert_old, length-erase-le,
}
use cmt_top.State.Types.{Time}
use cmt_top.Web.Cache.{
  RoundsEntry, RoundsCache, new_rounds_cache, new_entry, remove_locked, trim_locked, put_entry,
  publish_entry, touch, sum_lengths, make_room_for_variant, add_variant, store_variant,
  rounds_cache_variants, rounds_cache_bytes,
}
use cmt_top.Web.Cache.Limits.{
  sum_sizes, IsCharged, IsCounted, Fits, remove_locked-IsCounted, trim_locked-Fits, sum_sizes-erase,
  sum_sizes-insert_new, sum_sizes-insert_old,
}

-- What is done to the cache under its mutex.
pub data CacheUse : Type 0 where
  publishes : Bool → ℤ → Time → ℕ → CacheUse
  hits : Time → ℤ → CacheUse
  stores : Bool → ℤ → String → ℕ → CacheUse
  drops : ℤ → CacheUse

unfoldable pub apply : CacheUse → RoundsCache → Option RoundsCache
apply (publishes is_found height now full_length) c =
    publish_entry is_found height (new_entry now full_length) c
apply (hits now height) c = some (touch now height c)
apply (stores is_current height key body) c = store_variant is_current height key body c
apply (drops height) c = some (remove_locked height c)

unfoldable pub run : List CacheUse → RoundsCache → Option RoundsCache
run [] c = some c
run (use_ ∷ uses) c = elim (apply use_ c) [ none ↦ none | some c' ↦ run uses c' ]

-- A use ends, and the cache that it leaves counts its entries and keeps its limits.
pub Leaves : Option RoundsCache → Type 0
Leaves o = (d : RoundsCache) × (o ≡ some d) × IsCounted d × Fits d

left_as_is : (c : RoundsCache) → IsCounted c → Fits c → Leaves (some c)
unfolding Leaves
left_as_is c k fits = (c, refl, k, fits)

trimmed-Leaves : (c : RoundsCache) → IsCounted c → Leaves (trim_locked c)
unfolding Leaves
trimmed-Leaves c k = trim_locked-Fits c k

put_entry-IsCounted :
    (height : ℤ) (e : RoundsEntry) (c : RoundsCache)
    → IsCharged e
    → IsCounted c
    → lookup height c.entries ≡ none
    → IsCounted (put_entry height e c)
put_entry-IsCounted height e c charge k h = record {
  is_map = insert-IsMap height e c.entries k.is_map;
  counted = omega (arith, sum_sizes-insert_new height e c.entries h, k.counted);
  entries_charged = AllOf-insert (λ _ d. IsCharged d) height e c.entries charge k.entries_charged;
}

new_entry-IsCharged : (now : Time) (full_length : ℕ) → IsCharged (new_entry now full_length)
unfolding sum_lengths
new_entry-IsCharged now full_length = record { charged = omega arith; few_variants = omega arith }

publish_entry-unfit :
    (is_found : Bool) (height : ℤ) (e : RoundsEntry) (c : RoundsCache)
    → (is_found && nat_leb e.size rounds_cache_bytes) ≡ false
    → publish_entry is_found height e c ≡ some c
unfolding publish_entry
publish_entry-unfit is_found height e c h = ground (arith, h)

publish_entry-fit :
    (is_found : Bool) (height : ℤ) (e : RoundsEntry) (c : RoundsCache)
    → (is_found && nat_leb e.size rounds_cache_bytes) ≡ true
    → publish_entry is_found height e c ≡ trim_locked (put_entry height e (remove_locked height c))
unfolding publish_entry
publish_entry-fit is_found height e c h = ground (arith, h)

publish_entry-Leaves :
    (is_found : Bool) (height : ℤ) (e : RoundsEntry) (c : RoundsCache)
    → IsCharged e
    → IsCounted c
    → Fits c
    → Leaves (publish_entry is_found height e c)
publish_entry-Leaves is_found height e c charge k fits =
    elim (Bool-cases (is_found && nat_leb e.size rounds_cache_bytes)) [
      | inr unfit ↦
          subst Leaves (sym (publish_entry-unfit is_found height e c unfit)) (left_as_is c k fits)
      | inl fit ↦
          let (kept, gone) = remove_locked-IsCounted height c k in
          subst Leaves (sym (publish_entry-fit is_found height e c fit)) (
            trimmed-Leaves (put_entry height e (remove_locked height c))
              (put_entry-IsCounted height e (remove_locked height c) charge kept gone))
    ]

replaced-IsCounted :
    (height : ℤ) (e d : RoundsEntry) (bytes : ℕ) (c : RoundsCache)
    → IsCharged e
    → IsCounted c
    → lookup height c.entries ≡ some d
    → bytes + d.size ≡ c.bytes + e.size
    → IsCounted (record { entries = insert height e c.entries; bytes = bytes })
replaced-IsCounted height e d bytes c charge k h same = record {
  is_map = insert-IsMap height e c.entries k.is_map;
  counted = omega (arith, sum_sizes-insert_old height e d c.entries h, k.counted, same);
  entries_charged = AllOf-insert (λ _ x. IsCharged x) height e c.entries charge k.entries_charged;
}

charge_of :
    (height : ℤ) (e : RoundsEntry) (c : RoundsCache)
    → IsCounted c
    → lookup height c.entries ≡ some e
    → IsCharged e × (e.size ≤ c.bytes)
charge_of height e c k h = (
  AllOf-lookup (λ _ x. IsCharged x) height e c.entries k.entries_charged h,
  omega (arith, sum_sizes-erase height e c.entries k.is_map h, k.counted),
)

touched :
    (now : Time) (height : ℤ) (c : RoundsCache) (e : RoundsEntry)
    → lookup height c.entries ≡ some e
    → touch now height c
      ≡ record c { entries = insert height (record e { last_used = now }) c.entries }
unfolding touch
touched now height c e h = ground (arith, h)

untouched :
    (now : Time) (height : ℤ) (c : RoundsCache)
    → lookup height c.entries ≡ none
    → touch now height c ≡ c
unfolding touch
untouched now height c h = ground (arith, h)

touch-Leaves :
    (now : Time) (height : ℤ) (c : RoundsCache)
    → IsCounted c
    → Fits c
    → Leaves (some (touch now height c))
unfolding Leaves
touch-Leaves now height c k fits = elim (Option-cases (lookup height c.entries)) [
  | inl h ↦ rw (untouched now height c h) (c, refl, k, fits)
  | inr (e, h) ↦
      let (charge, _) = charge_of height e c k h in
      let used : RoundsEntry = record e { last_used = now } in
      let as_many = length-insert_old height used e c.entries h in
      rw (touched now height c e h) (
        record c { entries = insert height used c.entries },
        refl,
        replaced-IsCounted height used e c.bytes c
            (record { charged = charge.charged; few_variants = charge.few_variants }) k h refl,
        (fits.0, omega (arith, as_many, fits.1)),
      )
]

remove_locked-length :
    (height : ℤ) (c : RoundsCache) → length (remove_locked height c).entries ≤ length c.entries
unfolding remove_locked
remove_locked-length height c = ground (arith, length-erase-le height c.entries)

remove_locked-bytes : (height : ℤ) (c : RoundsCache) → (remove_locked height c).bytes ≤ c.bytes
unfolding remove_locked
remove_locked-bytes height c = ground arith

drop-Leaves :
    (height : ℤ) (c : RoundsCache) → IsCounted c → Fits c → Leaves (some (remove_locked height c))
unfolding Leaves
drop-Leaves height c k fits =
    let (kept, _) = remove_locked-IsCounted height c k in
    (
      remove_locked height c,
      refl,
      kept,
      (
        omega (arith, remove_locked-bytes height c, fits.0),
        omega (arith, remove_locked-length height c, fits.1),
      ),
    )

sum_lengths-insert :
    (key : String) (n : ℕ) (variants : Map String ℕ)
    → lookup key variants ≡ none
    → sum_lengths (insert key n variants) ≡ sum_lengths variants + n
unfolding sum_lengths insert lookup
sum_lengths-insert key n [] h = omega arith
sum_lengths-insert key n ((j, m) ∷ variants) h = ground (arith, sum_lengths-insert key n variants)

record HasRoom (key : String) (e roomy : RoundsEntry) : Type 0 where
  charged : roomy.size ≡ 3 * roomy.full_length + sum_lengths roomy.variants
  room : length roomy.variants < rounds_cache_variants
  is_absent : lookup key roomy.variants ≡ none
  is_smaller : roomy.size ≤ e.size

emptied-HasRoom :
    (key : String) (e : RoundsEntry)
    → IsCharged e
    → HasRoom key e (record e { variants = []; size = e.size - sum_lengths e.variants })
unfolding sum_lengths lookup
emptied-HasRoom key e charge = record {
  charged = omega (arith, charge.charged);
  room = omega arith;
  is_absent = refl;
  is_smaller = omega arith;
}

make_room_for_variant-HasRoom :
    (key : String) (e : RoundsEntry)
    → IsCharged e
    → lookup key e.variants ≡ none
    → HasRoom key e (make_room_for_variant e)
unfolding make_room_for_variant
make_room_for_variant-HasRoom key e charge h =
    elim (Bool-cases (nat_leb rounds_cache_variants (length e.variants))) [
      | inl full ↦ rw full (emptied-HasRoom key e charge)
      | inr room ↦ rw room (record {
        charged = charge.charged;
        room = ground (arith, room);
        is_absent = h;
        is_smaller = omega arith;
      })
    ]

add_variant-IsCharged :
    (key : String) (body : ℕ) (e roomy : RoundsEntry)
    → HasRoom key e roomy
    → IsCharged (add_variant key body roomy)
add_variant-IsCharged key body e roomy r = record {
  charged = omega (arith, sum_lengths-insert key body roomy.variants r.is_absent, r.charged);
  few_variants = omega (arith, length-insert_new key body roomy.variants r.is_absent, r.room);
}

with_variant : ℤ → String → ℕ → RoundsEntry → RoundsCache → RoundsCache
with_variant height key body e c =
    let roomy = make_room_for_variant e in
    record {
      entries = insert height (add_variant key body roomy) c.entries;
      bytes = c.bytes - (e.size - roomy.size) + body;
    }

with_variant-IsCounted :
    (height : ℤ) (key : String) (body : ℕ) (e : RoundsEntry) (c : RoundsCache)
    → IsCounted c
    → lookup height c.entries ≡ some e
    → lookup key e.variants ≡ none
    → IsCounted (with_variant height key body e c)
unfolding with_variant
with_variant-IsCounted height key body e c k h absent =
    let (charge, held) = charge_of height e c k h in
    let roomy = make_room_for_variant-HasRoom key e charge absent in
    let fewer = roomy.is_smaller in
    replaced-IsCounted height (add_variant key body (make_room_for_variant e)) e
      (c.bytes - (e.size - (make_room_for_variant e).size) + body) c
      (add_variant-IsCharged key body e (make_room_for_variant e) roomy) k h
      (omega (arith, held, fewer))

store_variant-none :
    (is_current : Bool) (height : ℤ) (key : String) (body : ℕ) (c : RoundsCache)
    → lookup height c.entries ≡ none
    → store_variant is_current height key body c ≡ some c
unfolding store_variant
store_variant-none is_current height key body c h = ground (arith, h)

store_variant-stale :
    (height : ℤ) (key : String) (body : ℕ) (e : RoundsEntry) (c : RoundsCache)
    → lookup height c.entries ≡ some e
    → store_variant false height key body c ≡ some c
unfolding store_variant
store_variant-stale height key body e c h = ground (arith, h)

store_variant-present :
    (height : ℤ) (key : String) (body n : ℕ) (e : RoundsEntry) (c : RoundsCache)
    → lookup height c.entries ≡ some e
    → lookup key e.variants ≡ some n
    → store_variant true height key body c ≡ some c
unfolding store_variant
store_variant-present height key body n e c h present = ground (arith, h, present)

store_variant-new :
    (height : ℤ) (key : String) (body : ℕ) (e : RoundsEntry) (c : RoundsCache)
    → lookup height c.entries ≡ some e
    → lookup key e.variants ≡ none
    → store_variant true height key body c ≡ trim_locked (with_variant height key body e c)
unfolding store_variant with_variant
store_variant-new height key body e c h absent = ground (arith, h, absent)

current-Leaves :
    (height : ℤ) (key : String) (body : ℕ) (e : RoundsEntry) (c : RoundsCache)
    → IsCounted c
    → Fits c
    → lookup height c.entries ≡ some e
    → Leaves (store_variant true height key body c)
unfolding Leaves
current-Leaves height key body e c k fits h = elim (Option-cases (lookup key e.variants)) [
  | inr (n, present) ↦ (c, store_variant-present height key body n e c h present, k, fits)
  | inl absent ↦ rw (store_variant-new height key body e c h absent) (
      trim_locked-Fits (with_variant height key body e c)
        (with_variant-IsCounted height key body e c k h absent))
]

store_variant-Leaves :
    (is_current : Bool) (height : ℤ) (key : String) (body : ℕ) (c : RoundsCache)
    → IsCounted c
    → Fits c
    → Leaves (store_variant is_current height key body c)
unfolding Leaves
store_variant-Leaves true height key body c k fits = elim (Option-cases (lookup height c.entries)) [
  | inl h ↦ (c, store_variant-none true height key body c h, k, fits)
  | inr (e, h) ↦ current-Leaves height key body e c k fits h
]
store_variant-Leaves false height key body c k fits =
    elim (Option-cases (lookup height c.entries)) [
      | inl h ↦ (c, store_variant-none false height key body c h, k, fits)
      | inr (e, h) ↦ (c, store_variant-stale height key body e c h, k, fits)
    ]

apply-Leaves : (use_ : CacheUse) (c : RoundsCache) → IsCounted c → Fits c → Leaves (apply use_ c)
unfolding apply
apply-Leaves (publishes is_found height now full_length) c k fits =
    publish_entry-Leaves is_found height (new_entry now full_length) c
      (new_entry-IsCharged now full_length) k fits
apply-Leaves (hits now height) c k fits = touch-Leaves now height c k fits
apply-Leaves (stores is_current height key body) c k fits =
    store_variant-Leaves is_current height key body c k fits
apply-Leaves (drops height) c k fits = drop-Leaves height c k fits

run-some :
    (use_ : CacheUse) (uses : List CacheUse) (c d : RoundsCache)
    → apply use_ c ≡ some d
    → run (use_ ∷ uses) c ≡ run uses d
unfolding run
run-some use_ uses c d h = ground (arith, h)

run-Leaves : (uses : List CacheUse) (c : RoundsCache) → IsCounted c → Fits c → Leaves (run uses c)
unfolding run Leaves
run-Leaves [] c k fits = (c, refl, k, fits)
run-Leaves (use_ ∷ uses) c k fits =
    let (d, q, kd, fd) = apply-Leaves use_ c k fits in
    let (d', q', kd', fd') = run-Leaves uses d kd fd in
    (d', run-some use_ uses c d q ∙ q', kd', fd')

new_rounds_cache-IsCounted : IsCounted new_rounds_cache
unfolding sum_sizes
new_rounds_cache-IsCounted = record { is_map = tt; counted = refl; entries_charged = tt }

-- After any sequence of uses of a new cache, every loop that makes room has ended, the bytes counted
-- are the charges of the entries, each entry is charged three times its full report and its at most 8
-- variants, and there are at most 67108864 bytes and 32 entries.
pub run-new-Leaves : (uses : List CacheUse) → Leaves (run uses new_rounds_cache)
run-new-Leaves uses =
    run-Leaves uses new_rounds_cache new_rounds_cache-IsCounted (omega arith, omega arith)
