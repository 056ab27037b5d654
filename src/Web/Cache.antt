-- ===== src/Web/Cache.antt =====
-- internal/web/rounds_cache.go and rounds_compact.go: what the cache of round reports counts and
-- drops. A body is its length, and the reports are left out. A size is a number: each subtraction is
-- of a part of what is counted. The flights and the lanes of concurrent builders are not modelled.
pub mod Limits
pub mod Uses
use cmt_top.Base.{
  ℕ, zero, suc, ◌+◌, ◌-◌, ◌*◌, Bool, true, false, ◌||◌, ◌&&◌, String, List, [], ◌∷◌, Option, none,
  some, String_eq, if◌then◌else◌, length,
}
use cmt_top.Base.{ltb as nat_ltb, leb as nat_leb}
use cmt_top.Base.Int.{ℤ, pos, ℤ_eq}
use cmt_top.Base.Maps.{Map, lookup, insert, erase}
use cmt_top.State.Types.{Time, is_zero_time}

abbrev pub rounds_cache_bytes : ℕ
rounds_cache_bytes = 67108864

abbrev pub rounds_cache_entries : ℕ
rounds_cache_entries = 32

abbrev pub rounds_cache_variants : ℕ
rounds_cache_variants = 8

-- An entry: the length of the full report, of each variant, its charge and its last use.
pub record RoundsEntry : Type 0 where
  pub full_length : ℕ
  pub variants : Map String ℕ
  pub size : ℕ
  pub last_used : Time

pub record RoundsCache : Type 0 where
  pub entries : Map ℤ RoundsEntry
  pub bytes : ℕ

abbrev pub new_rounds_cache : RoundsCache
new_rounds_cache = record { entries = []; bytes = 0 }

abbrev pub new_entry : Time → ℕ → RoundsEntry
new_entry now full_length = record {
  full_length = full_length;
  variants = [];
  size = 3 * full_length;
  last_used = now;
}

unfoldable pub remove_locked : ℤ → RoundsCache → RoundsCache
remove_locked height c = elim (lookup height c.entries) [
  | none ↦ c
  | some e ↦ record { entries = erase height c.entries; bytes = c.bytes - e.size }
]

-- The scan for the entry that was used least recently, from a height and its time on.
unfoldable pub least_used : ℤ → Time → Map ℤ RoundsEntry → ℤ
least_used oldest at [] = oldest
least_used oldest at ((height, e) ∷ entries) = elim (is_zero_time at || nat_ltb e.last_used at) [
  | true ↦ least_used height e.last_used entries
  | false ↦ least_used oldest at entries
]

abbrev pub is_over : RoundsCache → Bool
is_over c = nat_ltb rounds_cache_bytes c.bytes || nat_ltb rounds_cache_entries (length c.entries)

-- The loop of `trimLocked`, for as many rounds as are given; `none` where they do not suffice.
unfoldable pub trim : ℕ → RoundsCache → Option RoundsCache
trim zero c = if is_over c then none else some c
trim (suc rounds) c = elim (is_over c) [
  | false ↦ some c
  | true ↦ trim rounds (remove_locked (least_used (pos 0) 0 c.entries) c)
]

-- Each round removes an entry.
unfoldable pub trim_locked : RoundsCache → Option RoundsCache
trim_locked c = trim (length c.entries) c

abbrev pub put_entry : ℤ → RoundsEntry → RoundsCache → RoundsCache
put_entry height e c = record { entries = insert height e c.entries; bytes = c.bytes + e.size }

-- What `get` publishes of a build, in the place of an older entry: `is_found` tells whether the build
-- gave a report of a height that the archive still has.
unfoldable pub publish_entry : Bool → ℤ → RoundsEntry → RoundsCache → Option RoundsCache
publish_entry is_found height e c = elim (is_found && nat_leb e.size rounds_cache_bytes) [
  | false ↦ some c
  | true ↦ trim_locked (put_entry height e (remove_locked height c))
]

-- A hit.
unfoldable pub touch : Time → ℤ → RoundsCache → RoundsCache
touch now height c = elim (lookup height c.entries) [
  | none ↦ c
  | some e ↦ record c { entries = insert height (record e { last_used = now }) c.entries }
]

unfoldable pub sum_lengths : Map String ℕ → ℕ
sum_lengths [] = 0
sum_lengths ((_, n) ∷ m) = n + sum_lengths m

-- All variants go when there are as many as there may be.
unfoldable pub make_room_for_variant : RoundsEntry → RoundsEntry
make_room_for_variant e =
    if nat_leb rounds_cache_variants (length e.variants)
    then record e { variants = []; size = e.size - sum_lengths e.variants }
    else e

abbrev pub add_variant : String → ℕ → RoundsEntry → RoundsEntry
add_variant key body e = record e { variants = insert key body e.variants; size = e.size + body }

-- The last part of `encoded`, for a key that the entry lacks: `is_current` tells whether the entry in
-- the cache is still the one that was encoded.
unfoldable pub store_variant : Bool → ℤ → String → ℕ → RoundsCache → Option RoundsCache
store_variant is_current height key body c = elim (lookup height c.entries) [
  | none ↦ some c
  | some e ↦ elim is_current [
    | false ↦ some c
    | true ↦ elim (lookup key e.variants) [
      | some _ ↦ some c
      | none ↦
          let roomy = make_room_for_variant e in
          let e' = add_variant key body roomy in
          trim_locked (record {
            entries = insert height e' c.entries;
            bytes = c.bytes - (e.size - roomy.size) + body;
          })
    ]
  ]
]
