-- ===== src/Web/Queue.antt =====
-- internal/web/ws_queue.go, and the client, the envelope and `signalClose` of ws.go. The client's
-- mutex makes each function one step. The observer callbacks and the encoded frame are left out; a
-- frame's payload is of any type. Sizes are not negative, and the subtractions never pass zero on a
-- client whose accounting holds; the counter of dropped frames is taken not to wrap.
pub mod Accounting
pub mod Order
use cmt_top.Base.{
  ℕ, suc, ◌+◌, ◌-◌, ◌/◌, ◌≡◌, refl, Bool, true, false, not, ◌&&◌, ◌||◌, String, List, [], ◌∷◌, ◌++◌,
  Option, none, some, arith, ◌==◌, String_eq, ℕ_eq, if◌then◌else◌, length, last?,
}
use cmt_top.Base.{ltb as nat_ltb, leb as nat_leb}
use cmt_top.Base.Int.{ℤ, pos, pos_part, ltb, leb, next64}
use cmt_top.State.Types.{Time, is_zero_time, time_sub}

abbrev pub ws_queue_messages : ℕ
ws_queue_messages = 256

abbrev pub ws_queue_bytes : ℕ
ws_queue_bytes = 4194304

abbrev pub ws_queue_max_age : ℤ
ws_queue_max_age = pos 2000000000

pub record Envelope (P : Type 0) : Type 0 where
  pub type : String
  pub ts : String
  pub height : ℤ
  pub round : ℤ
  pub seq : ℕ
  pub payload : P
  pub size : ℕ
  pub queued_at : Time

pub record Client (P : Type 0) : Type 0 where
  pub dropped : ℕ
  pub seq : ℕ
  pub pending : List (Envelope P)
  pub queued_bytes : ℕ
  pub queue_limit : ℤ
  pub overloaded_at : Time
  pub woken : Bool
  pub closed : Bool

abbrev pub is_too_old : Time → Time → Bool
is_too_old now since = ltb ws_queue_max_age (time_sub now since)

-- The loop that drops the oldest frames: the client it leaves, or the one with which it refuses,
-- or a fault where it would read the head of an empty queue.
pub data Room (P : Type 0) : Type 0 where
  roomy refused : Client P → Room P
  faulted : Room P

abbrev pub is_full : ℕ → ℕ → ℕ → ℕ → Bool
is_full limit size count bytes = nat_leb limit count || nat_ltb ws_queue_bytes (bytes + size)

module _ {P : Type 0} where
  -- The limit on messages, which is positive.
  unfoldable pub limit_of : Client P → ℕ
  limit_of c = if leb c.queue_limit (pos 0) then ws_queue_messages else pos_part c.queue_limit

  abbrev pub is_snapshot : Envelope P → Bool
  is_snapshot env = env.type == "state.snapshot" || env.type == "context.snapshot"

  -- The first frame of a connection.
  abbrev pub is_baseline : Envelope P → Bool
  is_baseline env = env.seq == 1 && env.type == "state.snapshot"

  -- A frame that is too large, or behind one that has waited too long, is not taken.
  unfoldable pub is_overdue : Time → Envelope P → List (Envelope P) → Bool
  is_overdue now env [] = nat_ltb ws_queue_bytes env.size
  is_overdue now env (first ∷ _) = nat_ltb ws_queue_bytes env.size || is_too_old now first.queued_at

  unfoldable pub replaces : Client P → Envelope P → Envelope P → Bool
  replaces c env prev =
      is_snapshot env
      && prev.type == env.type
      && not (prev.seq == 1)
      && nat_leb (c.queued_bytes - prev.size + env.size) ws_queue_bytes

  abbrev pub replace_last : List (Envelope P) → Envelope P → List (Envelope P)
  replace_last [] env = []
  replace_last (x ∷ []) env = env ∷ []
  replace_last (x ∷ y ∷ l) env = x ∷ replace_last (y ∷ l) env

  abbrev pub at_place_of : Envelope P → Envelope P → Envelope P
  at_place_of prev env = record env { seq = prev.seq; queued_at = prev.queued_at }

  unfoldable pub coalesce : Client P → Envelope P → Envelope P → Client P
  coalesce c prev env = record c {
    pending = replace_last c.pending (at_place_of prev env);
    queued_bytes = c.queued_bytes + env.size - prev.size;
  }

  unfoldable pub drop_first : Time → Envelope P → List (Envelope P) → Client P → Client P
  drop_first now first rest c = record c {
    pending = rest;
    queued_bytes = c.queued_bytes - first.size;
    dropped = c.dropped + 1;
    overloaded_at = if is_zero_time c.overloaded_at then now else c.overloaded_at;
  }

  unfoldable pub make_room : Time → ℕ → ℕ → List (Envelope P) → Client P → Room P
  make_room now limit size [] c = if is_full limit size 0 c.queued_bytes then faulted else roomy c
  make_room now limit size (first ∷ rest) c =
      let c' = drop_first now first rest c in
      let more = make_room now limit size rest c' in
      if not (is_full limit size (length (first ∷ rest)) c.queued_bytes)
      then roomy c
      else if is_baseline first
      then refused c
      else if is_too_old now c'.overloaded_at
      then refused c'
      else more

  abbrev pub add_last : Time → Envelope P → Client P → Client P
  add_last now env c = record c {
    pending = c.pending ++ record env { seq = c.seq; queued_at = now } ∷ [];
    queued_bytes = c.queued_bytes + env.size;
    woken = true;
  }

  unfoldable pub push_last : Time → Envelope P → Room P → Option (Client P × Bool)
  push_last now env (roomy c) = some (add_last now env c, true)
  push_last now env (refused c) = some (c, false)
  push_last now env faulted = none

  unfoldable pub enqueue : Time → Client P → Envelope P → Option (Client P × Bool)
  enqueue now c env =
      push_last now env
        (make_room now (limit_of c) env.size c.pending (record c { seq = next64 c.seq }))

  -- `queueLocked`, with `none` for a fault.
  unfoldable pub queue_locked : Time → Client P → Envelope P → Option (Client P × Bool)
  queue_locked now c env =
      if c.closed
      then some (c, false)
      else if is_overdue now env c.pending
      then some (c, false)
      else elim (last? c.pending) [
        | none ↦ enqueue now c env
        | some prev ↦
            if replaces c env prev then some (coalesce c prev env, true) else enqueue now c env
      ]

  unfoldable pub signal_close : Client P → Client P
  signal_close c =
      if c.closed then c else record c { closed = true; pending = []; queued_bytes = 0 }

  -- `queue`: a client that cannot take the frame is closed.
  unfoldable pub queue : Time → Client P → Option (Envelope P) → Option (Client P)
  queue now c none = some (signal_close c)
  queue now c (some env) = elim (queue_locked now c env) [
    | none ↦ none
    | some (c', ok) ↦ some (if ok then c' else signal_close c')
  ]

  unfoldable pub dequeue_from : Client P → List (Envelope P) → Client P × Option (Envelope P)
  dequeue_from c [] = (c, none)
  dequeue_from c (env ∷ rest) =
      let c' = record c { pending = rest; queued_bytes = c.queued_bytes - env.size } in
      (
        if nat_ltb (length rest) (ws_queue_messages / 2)
              && nat_ltb c'.queued_bytes (ws_queue_bytes / 2)
            then record c' { overloaded_at = 0 }
            else c',
        some env,
      )

  unfoldable pub dequeue : Client P → Client P × Option (Envelope P)
  dequeue c = if c.closed then (c, none) else dequeue_from c c.pending
