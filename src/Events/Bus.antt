-- ===== src/Events/Bus.antt =====
-- internal/events/bus.go. A buffered channel is the list of the events that wait in it, oldest
-- first; a payload is of any type. The lock makes each operation one step; publications that run at
-- the same time are taken one after another.
use cmt_top.Base.{
  ℕ, ◌-◌, Bool, ◌||◌, String, List, [], ◌∷◌, ◌++◌, Option, none, some, ◌==◌, String_eq, ℕ_eq,
  if◌then◌else◌, length, any_of,
}
use cmt_top.Base.{ltb as nat_ltb, leb as nat_leb}
use cmt_top.Base.Int.{ℤ, pos, pos_part, leb, next64}
use cmt_top.Base.Maps.{Map, insert, erase, map_values}

-- `uint16`
abbrev pub Kind : Type 0
Kind = ℕ

abbrev pub kind_new_block : Kind
kind_new_block = 1

abbrev pub kind_new_block_header : Kind
kind_new_block_header = 2

abbrev pub kind_round_changed : Kind
kind_round_changed = 3

abbrev pub kind_vote_received : Kind
kind_vote_received = 4

abbrev pub kind_validator_set_updated : Kind
kind_validator_set_updated = 5

abbrev pub kind_status_updated : Kind
kind_status_updated = 6

abbrev pub kind_upgrade_plan_updated : Kind
kind_upgrade_plan_updated = 7

abbrev pub kind_block_time_updated : Kind
kind_block_time_updated = 8

abbrev pub kind_divergence_detected : Kind
kind_divergence_detected = 9

abbrev pub kind_divergence_resolved : Kind
kind_divergence_resolved = 10

abbrev pub kind_endpoint_apphash_divergence : Kind
kind_endpoint_apphash_divergence = 11

abbrev pub kind_connection_lost : Kind
kind_connection_lost = 12

abbrev pub kind_connection_restored : Kind
kind_connection_restored = 13

abbrev pub kind_error : Kind
kind_error = 14

abbrev pub kind_log : Kind
kind_log = 15

abbrev pub kind_names : List String
kind_names =
    "new_block" ∷ "new_block_header" ∷ "round_changed" ∷ "vote_received" ∷ "validator_set_updated"
    ∷ "status_updated" ∷ "upgrade_plan_updated" ∷ "block_time_updated" ∷ "divergence_detected"
    ∷ "divergence_resolved" ∷ "endpoint_apphash_divergence" ∷ "connection_lost"
    ∷ "connection_restored" ∷ "error" ∷ "log" ∷ []

abbrev pub name_at : ℕ → List String → String
name_at i [] = "unknown"
name_at i (name ∷ names) = let rest = name_at (i - 1) names in if i == 1 then name else rest

-- `Kind.String`
unfoldable pub kind_string : Kind → String
kind_string k = name_at k kind_names

pub record Event (P : Type 0) : Type 0 where
  pub kind : Kind
  pub payload : P

pub record Subscription (P : Type 0) : Type 0 where
  pub ch : List (Event P)
  pub kinds : List Kind
  pub dropped : ℕ
  pub name : String

pub record Bus (P : Type 0) : Type 0 where
  pub subs : Map ℕ (Subscription P)
  pub next_id : ℕ
  pub buf_cap : ℕ

unfoldable pub new_bus : {P : Type 0} → ℤ → Bus P
new_bus buf_cap = record {
  subs = [];
  next_id = 0;
  buf_cap = if leb buf_cap (pos 0) then 256 else pos_part buf_cap;
}

module _ {P : Type 0} where
  -- The bus and the number by which `cancel` finds the subscription.
  unfoldable pub subscribe : String → List Kind → Bus P → Bus P × ℕ
  subscribe name kinds b = (
    record b {
      subs = insert b.next_id (record { ch = []; kinds = kinds; dropped = 0; name = name }) b.subs;
      next_id = next64 b.next_id;
    },
    b.next_id,
  )

  unfoldable pub cancel : ℕ → Bus P → Bus P
  cancel id b = record b { subs = erase id b.subs }

  -- No kinds are all kinds.
  unfoldable pub wants : Subscription P → Event P → Bool
  wants sub ev = nat_leb (length sub.kinds) 0 || any_of (λ k. k == ev.kind) sub.kinds

  abbrev pub tail_of : List (Event P) → List (Event P)
  tail_of [] = []
  tail_of (_ ∷ l) = l

  -- A full channel loses its oldest event. The second send finds it full only at no capacity.
  unfoldable pub offer : ℕ → Event P → Subscription P → Subscription P
  offer buf_cap ev sub =
      if nat_ltb (length sub.ch) buf_cap
      then record sub { ch = sub.ch ++ ev ∷ [] }
      else if nat_ltb (length (tail_of sub.ch)) buf_cap
      then record sub { ch = tail_of sub.ch ++ ev ∷ []; dropped = next64 sub.dropped }
      else record sub { ch = tail_of sub.ch; dropped = next64 sub.dropped }

  unfoldable pub deliver : ℕ → Event P → Subscription P → Subscription P
  deliver buf_cap ev sub = if wants sub ev then offer buf_cap ev sub else sub

  unfoldable pub publish : Event P → Bus P → Bus P
  publish ev b = record b { subs = map_values (deliver b.buf_cap ev) b.subs }

  -- A subscriber takes the oldest event.
  unfoldable pub receive : Subscription P → Subscription P × Option (Event P)
  receive sub = elim sub.ch [ [] ↦ (sub, none) | ev ∷ rest ↦ (record sub { ch = rest }, some ev) ]

  unfoldable pub stats_of : Map ℕ (Subscription P) → Map String ℕ → Map String ℕ
  stats_of [] out = out
  stats_of ((_, sub) ∷ subs) out = stats_of subs (insert sub.name sub.dropped out)

  unfoldable pub stats : Bus P → Map String ℕ
  stats b = stats_of b.subs []
