-- ===== src/Chain/Reconnect.antt =====
-- internal/chain/cometws/client.go: the loop that reconnects. A round is what the network and the
-- caller do in one pass: the caller has cancelled before it, the session, the jitter that the random
-- generator draws, and whether the caller cancels the wait. Without a further round the loop waits.
use cmt_top.Base.{
  ℕ, suc, ◌+◌, ◌*◌, ◌/◌, ◌%◌, ◌^◌, Bool, true, false, String, List, [], ◌∷◌, ◌++◌, none, some,
  if◌then◌else◌, length,
}
use cmt_top.Base.{ltb as nat_ltb}
use cmt_top.Base.Int.{pos_part}
use cmt_top.Chain.Pool.{nth}
use cmt_top.Chain.Socket.{
  reconnecting, SocketFault, canceled, Client, Subscribed, subscribed, unusable, subscription_url,
}
use cmt_top.Chain.Session.{Decoder, Session, Action, enter, set_state, is_live, connect_and_pump}

abbrev pub min : ℕ → ℕ → ℕ
min a b = if nat_ltb a b then a else b

abbrev pub max : ℕ → ℕ → ℕ
max a b = if nat_ltb a b then b else a

-- The wait before the next attempt, in nanoseconds, without the jitter.
unfoldable pub backoff : ℕ → ℕ → ℕ
backoff max_backoff attempt = min (250 * 2 ^ min attempt 7 * 1000000) max_backoff

-- `rand.Int63n` draws a number below this one.
unfoldable pub jitter_range : ℕ → ℕ
jitter_range wait = max 1 (wait / 5)

abbrev pub is_canceled : SocketFault → Bool
is_canceled canceled = true
is_canceled _ = false

pub record Round : Type 0 where
  pub cancelled_before : Bool
  pub session : Session
  pub draw : ℕ → ℕ
  pub cancelled_wait : Bool

pub data Trace {ℓ} (P : Type ℓ) : Type ℓ where
  act : Action P → Trace P
  dial : String → Trace P
  wait : ℕ → Trace P

abbrev pub acts {ℓ} : {P : Type ℓ} → List (Action P) → List (Trace P)
acts [] = []
acts (a ∷ as_) = act a ∷ acts as_

abbrev pub is_usable : Subscribed → Bool
is_usable (subscribed _) = true
is_usable (unusable _) = false

-- The actions of a session with the dial, which comes after the first one if the endpoint has a URL.
abbrev pub trace_of {ℓ} : {P : Type ℓ} → Bool → String → List (Action P) → List (Trace P)
trace_of false ep actions = acts actions
trace_of true ep [] = []
trace_of true ep (a ∷ actions) = act a ∷ dial ep ∷ acts actions

abbrev pub session_trace {ℓ} : {P : Type ℓ} → String → Session → List (Action P) → List (Trace P)
session_trace ep s actions = trace_of (is_usable (subscription_url s.url)) ep actions

-- The attempt that the wait is computed from: a session that was live starts the count anew.
abbrev pub attempt_after : ℕ → Client → ℕ
attempt_after attempt c = if is_live c.state then 0 else attempt

module _ {ℓ} {P : Type ℓ} (decoder : Decoder P) where
  unfoldable pub run : ℕ → List Round → Client → List (Trace P)
  run attempt [] c = []
  run attempt (r ∷ rounds) c = elim r.cancelled_before [
    | true ↦ []
    | false ↦ elim (nth (attempt % length c.endpoints) c.endpoints) [
      | none ↦ []
      | some ep ↦
          let out = connect_and_pump decoder ep r.session c in
          elim out.2 [
            | none ↦ session_trace ep r.session out.0
            | some fault ↦ elim (is_canceled fault) [
              | true ↦ session_trace ep r.session out.0
              | false ↦
                  let attempt' = attempt_after attempt out.1 in
                  let c' = set_state reconnecting ep out.1 in
                  let pause = backoff (pos_part c.max_backoff) attempt' in
                  let rest = if r.cancelled_wait then [] else run (suc attempt') rounds c' in
                  session_trace ep r.session out.0
                  ++ act (enter reconnecting ep (some fault))
                    ∷ wait (pause + r.draw (jitter_range pause))
                    ∷ rest
            ]
          ]
    ]
  ]
