-- ===== src/Chain/Dials.antt =====
-- internal/chain/cometws/client.go: the endpoints that a run dials while none can be reached.
use mathlib.Core.Bool.{false≢true}
use native.Mathlib.Nat.{mod-lt, mod-add-mod}
use mathlib.Core.List.{Perm}
use cmt_top.Base.{
  ℕ, suc, ◌+◌, ◌%◌, ◌<◌, ◌≡◌, refl, sym, ap, ◌∙◌, subst, inl, inr, true, false, String, List, [],
  ◌∷◌, ◌++◌, some, length, All, arith,
}
use cmt_top.Chain.Pool.{nth}
use cmt_top.Chain.Rotation.{rotation, rotation-Perm, nth-rotation, length-rotation}
use cmt_top.Chain.Socket.{
  reconnecting, dial_failed, Client, SocketUrl, subscribed, subscription_url,
}
use cmt_top.Chain.Session.{Decoder, Session, Action, set_state, connect_and_pump}
use cmt_top.Chain.Reconnect.{
  Round, Trace, act, dial, wait, acts, trace_of, session_trace, is_usable, attempt_after, run,
}
use cmt_top.Chain.Lifecycle.{Subscribed-cases, connect_failed}
use cmt_top.Chain.Retries.{rest_of, run_nil, run_retries}

-- A round in which the endpoint has a URL, but no connection is made, and nobody cancels.
pub record IsDown (r : Round) : Type 0 where
  pub begins : r.cancelled_before ≡ false
  pub usable : is_usable (subscription_url r.session.url) ≡ true
  pub unreachable : r.session.dial_fault ≡ some false
  pub goes_on : r.cancelled_wait ≡ false

module _ {ℓ} {P : Type ℓ} where
  unfoldable pub dials : List (Trace P) → List String
  dials [] = []
  dials (act a ∷ more) = dials more
  dials (dial ep ∷ more) = ep ∷ dials more
  dials (wait n ∷ more) = dials more

  dials-acts :
      (actions : List (Action P)) (more : List (Trace P))
      → dials (acts actions ++ more) ≡ dials more
  unfolding dials
  dials-acts [] more = refl
  dials-acts (a ∷ actions) more = dials-acts actions more

  module _ (decoder : Decoder P) where
    fault_of_dial :
        (ep : String) (s : Session) (c : Client) (u : SocketUrl)
        → subscription_url s.url ≡ subscribed u
        → s.dial_fault ≡ some false
        → (connect_and_pump decoder ep s c).2 ≡ some dial_failed
    unfolding connect_and_pump
    fault_of_dial ep s c u e h = ground (arith, e, h)

    fault_of_down :
        (ep : String) (s : Session) (c : Client)
        → is_usable (subscription_url s.url) ≡ true
        → s.dial_fault ≡ some false
        → (connect_and_pump decoder ep s c).2 ≡ some dial_failed
    fault_of_down ep s c usable h = elim (Subscribed-cases (subscription_url s.url)) [
      | inl (u, e) ↦ fault_of_dial ep s c u e h
      | inr (f, e) ↦ absurd (false≢true (sym (ap is_usable e) ∙ usable))
    ]

    dials_of_session :
        (ep : String) (s : Session) (c : Client) (more : List (Trace P))
        → is_usable (subscription_url s.url) ≡ true
        → s.dial_fault ≡ some false
        → dials (session_trace ep s (connect_and_pump decoder ep s c).0 ++ more) ≡ ep ∷ dials more
    unfolding dials
    dials_of_session ep s c more usable h =
        let (only, _) = connect_failed decoder ep s c (inr (false, h)) in
        ap (λ b. dials (trace_of b ep (connect_and_pump decoder ep s c).0 ++ more)) usable
        ∙ ap (λ actions. dials (trace_of true ep actions ++ more)) only

    dials-run :
        (attempt : ℕ) (rounds : List Round) (c : Client) (eps : List String)
        → All IsDown rounds
        → length eps ≡ length rounds
        → ((k : ℕ)
            → k < length rounds
            → nth ((attempt + k) % length c.endpoints) c.endpoints ≡ nth k eps)
        → dials (run decoder attempt rounds c) ≡ eps
    unfolding dials
    dials-run attempt [] c [] down l f = ap dials (run_nil decoder attempt c)
    dials-run attempt [] c (ep ∷ eps) down l f = absurd (omega arith)
    dials-run attempt (r ∷ rounds) c [] down l f = absurd (omega arith)
    dials-run attempt (r ∷ rounds) c (ep ∷ eps) down l f =
        let n : ℕ = length c.endpoints in
        let here : nth (attempt % n) c.endpoints ≡ some ep =
          (let e : attempt ≡ attempt + 0 = omega arith in ap (λ k. nth (k % n) c.endpoints) e)
          ∙ f 0 (omega arith) in
        let failed = fault_of_down ep r.session c down.0.usable down.0.unreachable in
        let (_, left) = connect_failed decoder ep r.session c (inr (false, down.0.unreachable)) in
        let out = connect_and_pump decoder ep r.session c in
        let same : attempt_after attempt out.1 ≡ attempt = ap (attempt_after attempt) left in
        let rest : rest_of decoder (attempt_after attempt out.1) r rounds out.1 ep
            ≡ run decoder (suc attempt) rounds (set_state reconnecting ep c) =
          rw (down.0.goes_on, same, left) refl in
        ap dials
          (run_retries decoder attempt r rounds c ep down.0.begins here dial_failed failed refl)
        ∙ dials_of_session ep r.session c _ down.0.usable down.0.unreachable
        ∙ ap (λ tail. ep ∷ tail)
            (ap dials rest
              ∙ dials-run (suc attempt) rounds (set_state reconnecting ep c) eps down.1
                  (omega arith)
                  (λ k m.
                    (let e : suc attempt + k ≡ attempt + suc k = omega arith in
                      ap (λ a. nth (a % n) c.endpoints) e)
                    ∙ f (suc k) (omega arith)))

    -- If in as many rounds as there are endpoints, at least one, every URL is usable, no dial succeeds and
    -- nobody cancels, the client dials every endpoint once, in the order of a circle from the attempt's place on.
    pub run-dials :
        (attempt : ℕ) (rounds : List Round) (c : Client)
        → All IsDown rounds
        → 0 < length c.endpoints
        → length rounds ≡ length c.endpoints
        → (dials (run decoder attempt rounds c)
            ≡ rotation (attempt % length c.endpoints) c.endpoints)
          × Perm (dials (run decoder attempt rounds c)) c.endpoints
    run-dials attempt rounds c down any l =
        let n : ℕ = length c.endpoints in
        let s : ℕ = attempt % n in
        let below : s < n = mod-lt attempt any in
        let all : dials (run decoder attempt rounds c) ≡ rotation s c.endpoints =
          dials-run attempt rounds c (rotation s c.endpoints) down
            (length-rotation s c.endpoints below ∙ sym l)
            (λ k m.
              ap (λ i. nth i c.endpoints) (sym (mod-add-mod attempt n k))
              ∙ sym (nth-rotation s k c.endpoints below (omega arith))) in
        (all, subst (λ eps. Perm eps c.endpoints) (sym all) (rotation-Perm s c.endpoints))
