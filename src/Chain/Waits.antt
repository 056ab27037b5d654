-- ===== src/Chain/Waits.antt =====
-- internal/chain/cometws/client.go: what holds of every run of the client.
use cmt_top.Base.{
  Bool, true, false, ℕ, zero, suc, ◌+◌, ◌*◌, ◌/◌, ◌^◌, ◌≤◌, ◌<◌, ◌≡◌, refl, ◌∙◌, subst, String,
  List, [], ◌∷◌, ◌++◌, String_eq, All, arith,
}
use cmt_top.Base.Int.{pos_part}
use cmt_top.Chain.Socket.{TransportState, live, subscribing, connecting, Client, subscription_url}
use cmt_top.Chain.Session.{
  Decoder, Read, lost, cancelled, reply, Session, Action, enter, hand_on, set_state, pump,
  subscribe_and_pump, connect_and_pump,
}
use cmt_top.Chain.Reconnect.{
  min, backoff, jitter_range, Round, Trace, act, dial, wait, acts, trace_of, is_usable, run,
}
use cmt_top.Chain.Lifecycle.{
  Moves, restart, Leads, IsLifecycle, connect_and_pump-IsSession, connect_and_pump-Opens, Opens,
  trace_of-IsLifecycle,
}
use cmt_top.Chain.Retries.{pause_of, after, run-induction}

-- The round comes to a dial.
abbrev dials_in : Round → Bool
dials_in r = is_usable (subscription_url r.session.url)

-- A draw as `rand.Int63n` makes it.
abbrev pub IsFair : Round → Type 0
IsFair r = (n : ℕ) → 0 < n → r.draw n < n

abbrev pub least_wait : ℕ → ℕ
least_wait most = min 250000000 most

two_pow-pos : (k : ℕ) → 1 ≤ 2 ^ k
two_pow-pos zero = omega arith
two_pow-pos (suc k) = omega (arith, two_pow-pos k)

least_wait-le :
    (most p : ℕ)
    → 1 ≤ p
    → (least_wait most ≤ min (250 * p * 1000000) most) × (min (250 * p * 1000000) most ≤ most)
least_wait-le most p h = ground (arith, h)

jitter-le : (w : ℕ) → (0 < jitter_range w) × (jitter_range w ≤ w / 5 + 1)
unfolding jitter_range
jitter-le w = ground arith

div-five_mono : (a b : ℕ) → a ≤ b → a / 5 ≤ b / 5
div-five_mono a b h = omega arith

small_jitter : (w d : ℕ) → d < jitter_range w → w + d ≤ w + w / 5
unfolding jitter_range
small_jitter w d h = ground arith

pause-bounds :
    (c : Client) (r : Round) (attempt : ℕ)
    → IsFair r
    → (least_wait (pos_part c.max_backoff) ≤ pause_of c r attempt)
      × (pause_of c r attempt ≤ pos_part c.max_backoff + pos_part c.max_backoff / 5)
unfolding backoff
pause-bounds c r attempt fair =
    let most : ℕ = pos_part c.max_backoff in
    let w : ℕ = backoff most attempt in
    let (low, high) = least_wait-le most (2 ^ min attempt 7) (two_pow-pos (min attempt 7)) in
    let drawn : w + r.draw (jitter_range w) ≤ w + w / 5 =
      small_jitter w (r.draw (jitter_range w)) (fair (jitter_range w) (jitter-le w).0) in
    (omega (arith, low), omega (arith, high, drawn, div-five_mono w most high))

module _ {ℓ} {P : Type ℓ} where
  -- Every wait of a trace is between two times.
  unfoldable pub Waits : ℕ → ℕ → List (Trace P) → Type 0
  Waits low high [] = Unit
  Waits low high (act a ∷ more) = Waits low high more
  Waits low high (dial ep ∷ more) = Waits low high more
  Waits low high (wait n ∷ more) = (low ≤ n) × (n ≤ high) × Waits low high more

  Waits-acts :
      (low high : ℕ) (actions : List (Action P)) (more : List (Trace P))
      → Waits low high more
      → Waits low high (acts actions ++ more)
  unfolding Waits
  Waits-acts low high [] more w = w
  Waits-acts low high (a ∷ actions) more w = Waits-acts low high actions more w

  Waits-acts_only : (low high : ℕ) (actions : List (Action P)) → Waits low high (acts actions)
  unfolding Waits
  Waits-acts_only low high [] = tt
  Waits-acts_only low high (a ∷ actions) = Waits-acts_only low high actions

  Waits-trace_of :
      (low high : ℕ) (dials : Bool) (ep : String) (actions : List (Action P))
      (more : List (Trace P))
      → Waits low high more
      → Waits low high (trace_of dials ep actions ++ more)
  unfolding Waits
  Waits-trace_of low high false ep actions more w = Waits-acts low high actions more w
  Waits-trace_of low high true ep [] more w = w
  Waits-trace_of low high true ep (a ∷ actions) more w = Waits-acts low high actions more w

  Waits-trace_of_only :
      (low high : ℕ) (dials : Bool) (ep : String) (actions : List (Action P))
      → Waits low high (trace_of dials ep actions)
  unfolding Waits
  Waits-trace_of_only low high false ep actions = Waits-acts_only low high actions
  Waits-trace_of_only low high true ep [] = tt
  Waits-trace_of_only low high true ep (a ∷ actions) = Waits-acts_only low high actions

  Leads-only :
      (s s' : TransportState) (actions : List (Action P))
      → Leads s actions s'
      → IsLifecycle s (acts actions)
  unfolding Leads IsLifecycle
  Leads-only s s' [] e = tt
  Leads-only s s' (enter t _ _ ∷ actions) (m, l) = (m, Leads-only t s' actions l)
  Leads-only s s' (hand_on _ ∷ actions) (m, l) = (m, Leads-only s s' actions l)

  traced-only :
      (dials : Bool) (ep : String) (s s' : TransportState) (actions : List (Action P))
      → Opens actions
      → Leads s actions s'
      → IsLifecycle s (trace_of dials ep actions)
  unfolding Opens Leads IsLifecycle
  traced-only false ep s s' actions o l = Leads-only s s' actions l
  traced-only true ep s s' [] o l = absurd o
  traced-only true ep s s' (enter t _ _ ∷ actions) o (m, l) = (m, (o, Leads-only t s' actions l))
  traced-only true ep s s' (hand_on _ ∷ actions) o l = absurd o

  module _ (decoder : Decoder P) where
    pump-backoff :
        (ep : String) (reads : List Read) (c : Client)
        → (pump decoder ep reads c).1.max_backoff ≡ c.max_backoff
    unfolding pump
    pump-backoff ep [] c = refl
    pump-backoff ep (lost ∷ reads) c = refl
    pump-backoff ep (cancelled ∷ reads) c = refl
    pump-backoff ep (reply resp ∷ reads) c =
        ground (arith, pump-backoff ep reads c, pump-backoff ep reads (set_state live ep c))

    connect_and_pump-backoff :
        (ep : String) (s : Session) (c : Client)
        → (connect_and_pump decoder ep s c).1.max_backoff ≡ c.max_backoff
    unfolding connect_and_pump subscribe_and_pump
    connect_and_pump-backoff ep s c =
        ground
          (arith, pump-backoff ep s.reads (set_state subscribing ep (set_state connecting ep c)))

    -- From a state in which the client may connect, a run goes through the states of the transport by
    -- its steps alone, whatever the sessions bring: it dials only while it connects, waits only while it
    -- reconnects, and hands on events only while it is live.
    pub run-IsLifecycle :
        (attempt : ℕ) (rounds : List Round) (c : Client)
        → Moves c.state connecting
        → IsLifecycle c.state (run decoder attempt rounds c)
    unfolding IsLifecycle
    run-IsLifecycle attempt rounds c h =
        run-induction decoder (λ k. Moves k.state connecting) (λ r. Unit)
          (λ k trace. IsLifecycle k.state trace) (λ ep r k good. restart) (λ k. tt)
          (λ ep r k good.
            traced-only (dials_in r) ep k.state (after decoder ep r k).1.state
              (after decoder ep r k).0 (connect_and_pump-Opens decoder ep r.session k)
              (connect_and_pump-IsSession decoder ep r.session k good).0)
          (λ ep r k attempt fault more good fair rest.
            let (leads, down) = connect_and_pump-IsSession decoder ep r.session k good in
            trace_of-IsLifecycle (dials_in r) ep k.state (after decoder ep r k).1.state
              (after decoder ep r k).0 _ (connect_and_pump-Opens decoder ep r.session k) leads
              (down, (refl, rest)))
          attempt rounds c (All_Unit rounds) h
      where
        All_Unit : (rounds : List Round) → All (λ r. Unit {0}) rounds
        All_Unit [] = tt
        All_Unit (r ∷ rounds) = (tt, All_Unit rounds)

    -- If the random generator draws numbers below its bound, every wait of a run is at least a quarter
    -- of a second, or the maximal backoff if that is less, and at most the maximal backoff and a fifth
    -- of it.
    pub run-Waits :
        (attempt : ℕ) (rounds : List Round) (c : Client)
        → All IsFair rounds
        → Waits
            (least_wait (pos_part c.max_backoff))
            (pos_part c.max_backoff + pos_part c.max_backoff / 5)
            (run decoder attempt rounds c)
    unfolding Waits
    run-Waits attempt rounds c fair =
        run-induction decoder (λ k. k.max_backoff ≡ c.max_backoff) IsFair
          (λ k trace. Waits low high trace)
          (λ ep r k good. connect_and_pump-backoff ep r.session k ∙ good) (λ k. tt)
          (λ ep r k good. Waits-trace_of_only low high (dials_in r) ep (after decoder ep r k).0)
          (λ ep r k attempt fault more good fair rest.
            let (l, h) = pause-bounds k r attempt fair in
            Waits-trace_of low high (dials_in r) ep (after decoder ep r k).0 _ (
              subst (λ m. least_wait (pos_part m) ≤ pause_of k r attempt) good l,
              subst (λ m. pause_of k r attempt ≤ pos_part m + pos_part m / 5) good h,
              rest,
            ))
          attempt rounds c fair refl
      where
        low : ℕ
        low = least_wait (pos_part c.max_backoff)

        high : ℕ
        high = pos_part c.max_backoff + pos_part c.max_backoff / 5
