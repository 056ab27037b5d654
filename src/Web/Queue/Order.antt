-- ===== src/Web/Queue/Order.antt =====
-- Sequence numbers in a client's queue: frames go out in order, and every gap is a counted drop.
use cmt_top.Base.{
  ℕ, ◌+◌, ◌≤◌, ◌<◌, ◌≡◌, refl, ◌⊎◌, inl, inr, Bool, true, false, List, [], ◌∷◌, ◌++◌, Option, none,
  some, arith, String_eq, ℕ_eq, length, last?, length-append, Bool-cases, Option-cases,
}
use cmt_top.Base.Int.{next64}
use cmt_top.State.Types.{Time}
use cmt_top.Web.Queue.{
  Envelope, Client, Room, roomy, refused, faulted, limit_of, replaces, replace_last, at_place_of,
  coalesce, drop_first, make_room, push_last, enqueue, queue_locked, is_baseline,
}
use cmt_top.Web.Queue.Accounting.{length-replace_last}

module _ {P : Type 0} where
  -- The sequence numbers rise strictly from above `lo` up to at most `hi`.
  abbrev pub Between : ℕ → List (Envelope P) → ℕ → Type 0
  Between lo [] hi = lo ≤ hi
  Between lo (env ∷ l) hi = (lo < env.seq) × Between env.seq l hi

  Between-lower :
      (l : List (Envelope P)) (lo lo' hi : ℕ) → lo' ≤ lo → Between lo l hi → Between lo' l hi
  Between-lower [] lo lo' hi h b = omega arith
  Between-lower (env ∷ l) lo lo' hi h b = (omega arith, b.1)

  Between-append :
      (l : List (Envelope P)) (env : Envelope P) (lo hi : ℕ)
      → env.seq ≡ hi + 1
      → Between lo l hi
      → Between lo (l ++ env ∷ []) (hi + 1)
  Between-append [] env lo hi e b = (omega arith, omega arith)
  Between-append (x ∷ l) env lo hi e b = (b.0, Between-append l env x.seq hi e b.1)

  Between-replace_last :
      (l : List (Envelope P)) (prev env : Envelope P) (lo hi : ℕ)
      → last? l ≡ some prev
      → Between lo l hi
      → Between lo (replace_last l (at_place_of prev env)) hi
  Between-replace_last [] prev env lo hi e b = b
  Between-replace_last (x ∷ []) prev env lo hi e b = ground arith
  Between-replace_last (x ∷ y ∷ l) prev env lo hi e b =
      (b.0, Between-replace_last (y ∷ l) prev env x.seq hi e b.1)

  -- What the loop that drops frames leaves of `l`.
  abbrev pub Sheds : List (Envelope P) → ℕ → Client P → Room P → Type 0
  Sheds l hi c (roomy c') =
      (c'.seq ≡ c.seq)
      × (c'.dropped + length c'.pending ≡ c.dropped + length l)
      × Between 0 c'.pending hi
  Sheds l hi c (refused c') = Unit
  Sheds l hi c faulted = Unit

  Sheds-step :
      (now : Time) (first : Envelope P) (rest : List (Envelope P)) (hi : ℕ) (c : Client P)
      (r : Room P)
      → Sheds rest hi (drop_first now first rest c) r
      → Sheds (first ∷ rest) hi c r
  unfolding drop_first
  Sheds-step now first rest hi c (roomy c') h = ground arith
  Sheds-step now first rest hi c (refused c') h = tt
  Sheds-step now first rest hi c faulted h = tt

  make_room-Sheds :
      (now : Time) (limit size : ℕ) (l : List (Envelope P)) (c : Client P) (hi : ℕ)
      → c.pending ≡ l
      → Between 0 l hi
      → Sheds l hi c (make_room now limit size l c)
  unfolding make_room drop_first
  make_room-Sheds now limit size [] c hi e b = ground arith
  make_room-Sheds now limit size (first ∷ rest) c hi e b =
      let more =
        make_room-Sheds now limit size rest (drop_first now first rest c) hi refl
          (Between-lower rest first.seq 0 hi (omega arith) b.1) in
      ground (
        arith,
        Sheds-step now first rest hi c (make_room now limit size rest (drop_first now first rest c))
            more,
      )

  -- An accepted frame: as many numbers are given out as frames are dropped or added, the queue stays
  -- in order.
  abbrev pub Delivers : Client P → Option (Client P × Bool) → Type 0
  Delivers c none = Unit
  Delivers c (some (c', false)) = Unit
  Delivers c (some (c', true)) =
      (c'.seq + c.dropped + length c.pending ≡ c.seq + c'.dropped + length c'.pending)
      × Between 0 c'.pending c'.seq

  push_last-Delivers :
      (now : Time) (env : Envelope P) (c : Client P) (r : Room P)
      → c.seq + 1 < 18446744073709551616
      → Sheds c.pending c.seq (record c { seq = next64 c.seq }) r
      → Delivers c (push_last now env r)
  unfolding push_last next64
  push_last-Delivers now env c (roomy d) h s = ground (
    arith,
    length-append d.pending (record env { seq = d.seq; queued_at = now } ∷ []),
    Between-append d.pending (record env { seq = d.seq; queued_at = now }) 0 c.seq,
  )
  push_last-Delivers now env c (refused d) h s = tt
  push_last-Delivers now env c faulted h s = tt

  enqueue-Delivers :
      (now : Time) (c : Client P) (env : Envelope P)
      → c.seq + 1 < 18446744073709551616
      → Between 0 c.pending c.seq
      → Delivers c (enqueue now c env)
  unfolding enqueue
  enqueue-Delivers now c env h b = push_last-Delivers now env c _ h (
      make_room-Sheds now (limit_of c) env.size c.pending (record c { seq = next64 c.seq }) c.seq
        refl b)

  coalesce-Delivers :
      (c : Client P) (prev env : Envelope P)
      → last? c.pending ≡ some prev
      → Between 0 c.pending c.seq
      → Delivers c (some (coalesce c prev env, true))
  unfolding coalesce
  coalesce-Delivers c prev env e b = (
    omega (arith, length-replace_last c.pending (at_place_of prev env)),
    Between-replace_last c.pending prev env 0 c.seq e b,
  )

  -- On a client whose queued sequence numbers rise strictly, from above zero up to at most its own
  -- number, which is not the greatest uint64: if it takes a frame, the numbers still rise so, and the
  -- call gives out as many numbers as it adds frames to the queue and drops and counts them.
  pub queue_locked-Delivers :
      (now : Time) (c : Client P) (env : Envelope P)
      → c.seq + 1 < 18446744073709551616
      → Between 0 c.pending c.seq
      → Delivers c (queue_locked now c env)
  unfolding queue_locked
  queue_locked-Delivers now c env h b = elim (Option-cases (last? c.pending)) [
    | inl g ↦ ground (arith, enqueue-Delivers now c env h b)
    | inr (prev, g) ↦
        ground (arith, enqueue-Delivers now c env h b, coalesce-Delivers c prev env g b)
  ]

  -- The head of the queue.
  abbrev pub StartsWith : Envelope P → Option (Client P × Bool) → Type 0
  StartsWith first none = Unit
  StartsWith first (some (c, ok)) = (rest : List (Envelope P)) × (c.pending ≡ first ∷ rest)

  coalesce-StartsWith :
      (c : Client P) (prev env first : Envelope P) (rest : List (Envelope P))
      → last? (first ∷ rest) ≡ some prev
      → is_baseline first ≡ true
      → replaces c env prev ≡ true
      → (rest' : List (Envelope P)) × (replace_last (first ∷ rest) (at_place_of prev env)
          ≡ first ∷ rest')
  unfolding replaces
  coalesce-StartsWith c prev env first [] e h r = absurd (ground arith)
  coalesce-StartsWith c prev env first (x ∷ rest) e h r =
      (replace_last (x ∷ rest) (at_place_of prev env), refl)

  make_room-StartsWith :
      (now : Time) (limit size : ℕ) (first : Envelope P) (l rest : List (Envelope P)) (c : Client P)
      → l ≡ first ∷ rest
      → is_baseline first ≡ true
      → (make_room now limit size l c ≡ roomy c) ⊎ (make_room now limit size l c ≡ refused c)
  unfolding make_room
  make_room-StartsWith now limit size first [] rest c e h = cc
  make_room-StartsWith now limit size first (x ∷ l) rest c e h = ground arith

  enqueue-StartsWith :
      (now : Time) (c : Client P) (env first : Envelope P) (rest : List (Envelope P))
      → c.pending ≡ first ∷ rest
      → is_baseline first ≡ true
      → StartsWith first (enqueue now c env)
  unfolding enqueue push_last
  enqueue-StartsWith now c env first rest e h =
      let c' = record c { seq = next64 c.seq } in
      elim (make_room-StartsWith now (limit_of c) env.size first c.pending rest c' e h) [
        | inl r ↦ rw r (rest ++ record env { seq = next64 c.seq; queued_at = now } ∷ [], rw e)
        | inr r ↦ rw r (rest, e)
      ]

  -- If the first frame of a connection, the state snapshot with number one, is the head of the queue,
  -- then it is still the head after another frame is taken or refused: no frame replaces it, and no
  -- overload drops it.
  pub queue_locked-StartsWith :
      (now : Time) (c : Client P) (env first : Envelope P) (rest : List (Envelope P))
      → c.pending ≡ first ∷ rest
      → is_baseline first ≡ true
      → StartsWith first (queue_locked now c env)
  unfolding queue_locked coalesce
  queue_locked-StartsWith now c env first rest e h = elim (Option-cases (last? c.pending)) [
    | inl g ↦ ground (arith, enqueue-StartsWith now c env first rest e h)
    | inr (prev, g) ↦ elim (Bool-cases (replaces c env prev)) [
      | inl r ↦
          let (rest', k) = coalesce-StartsWith c prev env first rest (rw e at g) h r in
          ground (arith, k, rest')
      | inr r ↦ ground (arith, enqueue-StartsWith now c env first rest e h)
    ]
  ]
