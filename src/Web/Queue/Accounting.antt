-- ===== src/Web/Queue/Accounting.antt =====
-- The queue's accounting: bytes and messages within their limits, and no fault.
use cmt_top.Base.{
  ℕ, suc, ◌+◌, ◌≤◌, ◌<◌, ◌≡◌, refl, ap, inl, inr, Bool, true, false, List, [], ◌∷◌, ◌++◌, Option,
  none, some, arith, String_eq, ℕ_eq, if◌then◌else◌, length, last?, length-append, Bool-cases,
  Option-cases,
}
use cmt_top.Base.Int.{next64}
use cmt_top.State.Types.{Time}
use cmt_top.Web.Queue.{
  Envelope, Client, Room, roomy, refused, faulted, ws_queue_bytes, limit_of, is_overdue, replaces,
  replace_last, at_place_of, coalesce, drop_first, make_room, push_last, enqueue, queue_locked,
  signal_close, queue, dequeue_from, dequeue,
}

-- What the hub, the reader and the writer do with a client's queue, in any order.
pub data Use (P : Type 0) : Type 0 where
  queues : Time → Option (Envelope P) → Use P
  dequeues closes : Use P

abbrev pub run_from :
    {P : Type 0} → (Client P → Option (Client P)) → Option (Client P) → Option (Client P)
run_from next none = none
run_from next (some c) = next c

module _ {P : Type 0} where
  abbrev pub total_size : List (Envelope P) → ℕ
  total_size [] = 0
  total_size (env ∷ l) = env.size + total_size l

  total_size-append :
      (xs ys : List (Envelope P)) → total_size (xs ++ ys) ≡ total_size xs + total_size ys
  total_size-append [] ys = omega arith
  total_size-append (x ∷ xs) ys = omega (arith, total_size-append xs ys)

  -- What the client counts is what it holds, within both limits; a closed client holds nothing.
  pub record IsAccounted (c : Client P) : Type 0 where
    pub exact : c.queued_bytes ≡ total_size c.pending
    pub in_bytes : c.queued_bytes ≤ ws_queue_bytes
    pub in_messages : length c.pending ≤ limit_of c

  limit_of-pos : (c : Client P) → 0 < limit_of c
  unfolding limit_of
  limit_of-pos c = ground arith

  -- The frames that the loop leaves, with room for one more.
  abbrev pub HasRoom : ℕ → ℕ → Client P → Room P → Type 0
  HasRoom limit size c (roomy c') =
      (c'.queued_bytes ≡ total_size c'.pending)
      × (c'.queued_bytes + size ≤ ws_queue_bytes)
      × (length c'.pending < limit)
      × (c'.queue_limit ≡ c.queue_limit)
  HasRoom limit size c (refused c') =
      (c'.queued_bytes ≡ total_size c'.pending)
      × (c'.queued_bytes ≤ c.queued_bytes)
      × (length c'.pending ≤ length c.pending)
      × (c'.queue_limit ≡ c.queue_limit)
  HasRoom limit size c faulted = ⊥

  HasRoom-mono :
      (limit size : ℕ) (c c' : Client P) (r : Room P)
      → c'.queued_bytes ≤ c.queued_bytes
      → length c'.pending ≤ length c.pending
      → c'.queue_limit ≡ c.queue_limit
      → HasRoom limit size c' r
      → HasRoom limit size c r
  HasRoom-mono limit size c c' (roomy d) b m l h = ground arith
  HasRoom-mono limit size c c' (refused d) b m l h = ground arith
  HasRoom-mono limit size c c' faulted b m l h = h

  make_room-HasRoom :
      (now : Time) (limit size : ℕ) (l : List (Envelope P)) (c : Client P)
      → c.pending ≡ l
      → c.queued_bytes ≡ total_size l
      → 0 < limit
      → size ≤ ws_queue_bytes
      → HasRoom limit size c (make_room now limit size l c)
  unfolding make_room drop_first
  make_room-HasRoom now limit size [] c e exact h k = ground arith
  make_room-HasRoom now limit size (first ∷ rest) c e exact h k =
      let c' = drop_first now first rest c in
      let more = make_room-HasRoom now limit size rest c' refl (omega arith) h k in
      ground (
        arith,
        HasRoom-mono limit size c c' (make_room now limit size rest c') (omega arith)
            (omega (arith, ap length e)) refl more,
        ap total_size e,
        ap length e,
      )

  make_room-limit : (c : Client P) → limit_of (record c { seq = next64 c.seq }) ≡ limit_of c
  unfolding limit_of
  make_room-limit c = refl

  -- How a call of `queueLocked` ends: without a fault, on a client that is still accounted.
  abbrev pub Queues : Option (Client P × Bool) → Type 0
  Queues none = ⊥
  Queues (some (c, ok)) = IsAccounted c

  push_last-Queues :
      (now : Time) (env : Envelope P) (c : Client P) (r : Room P)
      → IsAccounted c
      → HasRoom (limit_of c) env.size c r
      → Queues (push_last now env r)
  unfolding push_last limit_of
  push_last-Queues now env c (roomy d) a h = ground (
    arith,
    total_size-append d.pending (record env { seq = d.seq; queued_at = now } ∷ []),
    length-append d.pending (record env { seq = d.seq; queued_at = now } ∷ []),
  )
  push_last-Queues now env c (refused d) a h = ground arith
  push_last-Queues now env c faulted a h = h

  size-replace_last :
      (l : List (Envelope P)) (prev env : Envelope P)
      → last? l ≡ some prev
      → total_size (replace_last l env) + prev.size ≡ total_size l + env.size
  size-replace_last [] prev env h = cc
  size-replace_last (x ∷ []) prev env h = ground arith
  size-replace_last (x ∷ y ∷ l) prev env h = omega (arith, size-replace_last (y ∷ l) prev env h)

  pub length-replace_last :
      (l : List (Envelope P)) (env : Envelope P) → length (replace_last l env) ≡ length l
  length-replace_last [] env = refl
  length-replace_last (x ∷ []) env = refl
  length-replace_last (x ∷ y ∷ l) env = ap suc (length-replace_last (y ∷ l) env)

  last?-size :
      (l : List (Envelope P)) (prev : Envelope P) → last? l ≡ some prev → prev.size ≤ total_size l
  last?-size [] prev h = cc
  last?-size (x ∷ []) prev h = ground arith
  last?-size (x ∷ y ∷ l) prev h = omega (arith, last?-size (y ∷ l) prev h)

  coalesce-IsAccounted :
      (c : Client P) (prev env : Envelope P)
      → IsAccounted c
      → last? c.pending ≡ some prev
      → replaces c env prev ≡ true
      → IsAccounted (coalesce c prev env)
  unfolding replaces coalesce limit_of
  coalesce-IsAccounted c prev env a e h = ground (
    arith,
    size-replace_last c.pending prev (at_place_of prev env) e,
    length-replace_last c.pending (at_place_of prev env),
    last?-size c.pending prev e,
  )

  enqueue-Queues :
      (now : Time) (c : Client P) (env : Envelope P)
      → IsAccounted c
      → env.size ≤ ws_queue_bytes
      → Queues (enqueue now c env)
  unfolding enqueue limit_of
  enqueue-Queues now c env a h =
      let c' = record c { seq = next64 c.seq } in
      let a' : IsAccounted c' = record {
        exact = a.exact;
        in_bytes = a.in_bytes;
        in_messages = rw (make_room-limit c) a.in_messages;
      } in
      push_last-Queues now env c' _ a'
        (make_room-HasRoom now (limit_of c) env.size c.pending c' refl a.exact (limit_of-pos c) h)

  is_overdue-size :
      (now : Time) (env : Envelope P) (l : List (Envelope P))
      → is_overdue now env l ≡ false
      → env.size ≤ ws_queue_bytes
  unfolding is_overdue
  is_overdue-size now env [] h = ground arith
  is_overdue-size now env (x ∷ l) h = ground arith

  pub queue_locked-Queues :
      (now : Time) (c : Client P) (env : Envelope P)
      → IsAccounted c
      → Queues (queue_locked now c env)
  unfolding queue_locked
  queue_locked-Queues now c env a = elim (Bool-cases c.closed) [
    | inl e ↦ simp e a
    | inr e ↦ elim (Bool-cases (is_overdue now env c.pending)) [
      | inl f ↦ simp (e, f) a
      | inr f ↦ elim (Option-cases (last? c.pending)) [
        | inl g ↦ simp (e, f, g) (enqueue-Queues now c env a (is_overdue-size now env c.pending f))
        | inr (prev, g) ↦ elim (Bool-cases (replaces c env prev)) [
          | inl h ↦ simp (e, f, g, h) (coalesce-IsAccounted c prev env a g h)
          | inr h ↦
              simp (e, f, g, h) (enqueue-Queues now c env a (is_overdue-size now env c.pending f))
        ]
      ]
    ]
  ]

  signal_close-IsAccounted : (c : Client P) → IsAccounted c → IsAccounted (signal_close c)
  unfolding signal_close limit_of
  signal_close-IsAccounted c a = ground arith

  queue-total :
      (now : Time) (c : Client P) (env : Option (Envelope P))
      → IsAccounted c
      → (c' : Client P) × (queue now c env ≡ some c') × IsAccounted c'
  unfolding queue
  queue-total now c none a = (signal_close c, refl, signal_close-IsAccounted c a)
  queue-total now c (some env) a = go (queue_locked now c env) (queue_locked-Queues now c env a)
    where
      go :
          (r : Option (Client P × Bool))
          → Queues r
          → (c' : Client P) × ((elim r [
            | none ↦ none
            | some (d, ok) ↦ some (if ok then d else signal_close d)
          ])
              ≡ some c')
            × IsAccounted c'
      go none h = absurd h
      go (some (d, true)) h = (d, refl, h)
      go (some (d, false)) h = (signal_close d, refl, signal_close-IsAccounted d h)

  dequeue_from-IsAccounted :
      (c : Client P) (l : List (Envelope P))
      → IsAccounted c
      → c.pending ≡ l
      → IsAccounted (dequeue_from c l).0
  unfolding dequeue_from limit_of
  dequeue_from-IsAccounted c [] a e = a
  dequeue_from-IsAccounted c (env ∷ rest) a e = ground (arith, ap total_size e, ap length e)

  dequeue-IsAccounted : (c : Client P) → IsAccounted c → IsAccounted (dequeue c).0
  unfolding dequeue
  dequeue-IsAccounted c a = ground (arith, dequeue_from-IsAccounted c c.pending a refl)

  -- The client after a series of uses, `none` at a fault.
  unfoldable pub run : List (Use P) → Client P → Option (Client P)
  run [] c = some c
  run (dequeues ∷ uses) c = run uses (dequeue c).0
  run (closes ∷ uses) c = run uses (signal_close c)
  run (queues now env ∷ uses) c = run_from (run uses) (queue now c env)

  -- From a client whose accounting holds, whatever is sent, read and closed, at whatever times: no
  -- use of its queue reads the head of an empty queue, the bytes it counts are those of the frames it
  -- holds, these are at most 4 MiB, and the frames are at most the client's limit.
  pub run-IsAccounted :
      (uses : List (Use P)) (c : Client P)
      → IsAccounted c
      → (c' : Client P) × (run uses c ≡ some c') × IsAccounted c'
  unfolding run
  run-IsAccounted [] c a = (c, refl, a)
  run-IsAccounted (dequeues ∷ uses) c a =
      run-IsAccounted uses (dequeue c).0 (dequeue-IsAccounted c a)
  run-IsAccounted (closes ∷ uses) c a =
      run-IsAccounted uses (signal_close c) (signal_close-IsAccounted c a)
  run-IsAccounted (queues now env ∷ uses) c a =
      let (c', e, a') = queue-total now c env a in rw e (run-IsAccounted uses c' a')
