-- ===== src/Chain/Lifecycle.antt =====
-- internal/chain/cometws/client.go: the states that a run of the client goes through, and its waits.
use cmt_top.Base.{
  ◌≡◌, refl, sym, ap, subst, ◌⊎◌, inl, inr, Bool, true, false, String, List, [], ◌∷◌, ◌++◌, Option,
  none, some, String_eq, arith, Option-cases,
}
use cmt_top.Chain.Socket.{
  TransportState, disconnected, connecting, subscribing, live, reconnecting, SocketFault, Client,
  SocketUrl, subscription_refused, Subscribed, subscribed, unusable, subscription_url,
}
use cmt_top.Chain.Session.{
  Decoder, Event, RpcResponse, Read, lost, cancelled, reply, Session, Action, enter, hand_on,
  event_of, set_state, is_live, pump, subscribe_and_pump, connect_and_pump,
}
use cmt_top.Chain.Reconnect.{Trace, act, dial, wait, acts, trace_of}

-- The steps between the states of the transport.
pub data Moves : TransportState → TransportState → Type 0 where
  start : Moves disconnected connecting
  restart : Moves reconnecting connecting
  dialled : Moves connecting subscribing
  answered : Moves subscribing live
  drop_connecting : Moves connecting reconnecting
  drop_subscribing : Moves subscribing reconnecting
  drop_live : Moves live reconnecting

drops : {s : TransportState} → (s ≡ subscribing) ⊎ (s ≡ live) → Moves s reconnecting
drops (inl e) = subst (λ s. Moves s reconnecting) (sym e) drop_subscribing
drops (inr e) = subst (λ s. Moves s reconnecting) (sym e) drop_live

pub Subscribed-cases :
    (s : Subscribed)
    → ((u : SocketUrl) × (s ≡ subscribed u)) ⊎ ((f : SocketFault) × (s ≡ unusable f))
Subscribed-cases (subscribed u) = inl (u, refl)
Subscribed-cases (unusable f) = inr (f, refl)

module _ {ℓ} {P : Type ℓ} where
  -- The actions lead from one state to another by those steps, and events come while it is live.
  unfoldable pub Leads : TransportState → List (Action P) → TransportState → Type 0
  Leads s [] s' = s ≡ s'
  Leads s (enter t _ _ ∷ more) s' = Moves s t × Leads t more s'
  Leads s (hand_on _ ∷ more) s' = (s ≡ live) × Leads s more s'

  -- The same of a trace: the client dials while it connects, and waits before it connects again.
  unfoldable pub IsLifecycle : TransportState → List (Trace P) → Type 0
  IsLifecycle s [] = Unit
  IsLifecycle s (act (enter t _ _) ∷ more) = Moves s t × IsLifecycle t more
  IsLifecycle s (act (hand_on _) ∷ more) = (s ≡ live) × IsLifecycle s more
  IsLifecycle s (dial _ ∷ more) = (s ≡ connecting) × IsLifecycle s more
  IsLifecycle s (wait _ ∷ more) = (s ≡ reconnecting) × IsLifecycle s more

  pub Leads-IsLifecycle :
      (s s' : TransportState) (actions : List (Action P)) (more : List (Trace P))
      → Leads s actions s'
      → IsLifecycle s' more
      → IsLifecycle s (acts actions ++ more)
  unfolding Leads IsLifecycle
  Leads-IsLifecycle s s' [] more e k = subst (λ t. IsLifecycle t more) (sym e) k
  Leads-IsLifecycle s s' (enter t _ _ ∷ actions) more (m, l) k =
      (m, Leads-IsLifecycle t s' actions more l k)
  Leads-IsLifecycle s s' (hand_on _ ∷ actions) more (m, l) k =
      (m, Leads-IsLifecycle s s' actions more l k)

  -- The actions begin with the state in which a client dials.
  unfoldable pub Opens : List (Action P) → Type 0
  Opens [] = ⊥
  Opens (enter t _ _ ∷ _) = t ≡ connecting
  Opens (hand_on _ ∷ _) = ⊥

  pub trace_of-IsLifecycle :
      (dials : Bool) (ep : String) (s s' : TransportState) (actions : List (Action P))
      (more : List (Trace P))
      → Opens actions
      → Leads s actions s'
      → IsLifecycle s' more
      → IsLifecycle s (trace_of dials ep actions ++ more)
  unfolding Opens Leads IsLifecycle
  trace_of-IsLifecycle false ep s s' actions more o l k = Leads-IsLifecycle s s' actions more l k
  trace_of-IsLifecycle true ep s s' [] more o l k = absurd o
  trace_of-IsLifecycle true ep s s' (enter t _ _ ∷ actions) more o (m, l) k =
      (m, (o, Leads-IsLifecycle t s' actions more l k))
  trace_of-IsLifecycle true ep s s' (hand_on _ ∷ actions) more o l k = absurd o

  -- What a session leaves: a state that it came to by the steps, from which the client reconnects.
  abbrev pub IsSession : TransportState → List (Action P) × Client × Option SocketFault → Type 0
  IsSession s out = Leads s out.0 out.1.state × Moves out.1.state reconnecting

  module _ (decoder : Decoder P) where
    module _ (ep : String) (resp : RpcResponse) (reads : List Read) (c : Client)
        (fine : resp.error ≡ none) where
      pump_skip :
          event_of decoder resp ≡ none
          → pump decoder ep (reply resp ∷ reads) c ≡ pump decoder ep reads c
      unfolding pump
      pump_skip q = ground (arith, fine, q)

      pump_next :
          (ev : Event P)
          → event_of decoder resp ≡ some ev
          → is_live c.state ≡ true
          → let rest = pump decoder ep reads c in
            pump decoder ep (reply resp ∷ reads) c ≡ (hand_on ev ∷ rest.0, rest.1, rest.2)
      unfolding pump
      pump_next ev q l = ground (arith, fine, q, l)

      pump_first :
          (ev : Event P)
          → event_of decoder resp ≡ some ev
          → is_live c.state ≡ false
          → let rest = pump decoder ep reads (set_state live ep c) in
            pump decoder ep (reply resp ∷ reads) c
            ≡ (enter live ep none ∷ hand_on ev ∷ rest.0, rest.1, rest.2)
      unfolding pump
      pump_first ev q l = ground (arith, fine, q, l)

    pump-refused :
        (ep text : String) (resp : RpcResponse) (reads : List Read) (c : Client)
        → resp.error ≡ some text
        → pump decoder ep (reply resp ∷ reads) c ≡ ([], c, some (subscription_refused text))
    unfolding pump
    pump-refused ep text resp reads c e = ground (arith, e)

    pump-IsSession :
        (ep : String) (reads : List Read) (c : Client)
        → (c.state ≡ subscribing) ⊎ (c.state ≡ live)
        → IsSession c.state (pump decoder ep reads c)
    unfolding pump Leads
    pump-IsSession ep [] c up = (refl, drops up)
    pump-IsSession ep (lost ∷ reads) c up = (refl, drops up)
    pump-IsSession ep (cancelled ∷ reads) c up = (refl, drops up)
    pump-IsSession ep (reply resp ∷ reads) c up = elim (Option-cases resp.error) [
      | inr (text, e) ↦
          subst (IsSession c.state) (sym (pump-refused ep text resp reads c e)) (refl, drops up)
      | inl e ↦ elim (Option-cases (event_of decoder resp)) [
        | inl q ↦
            subst (IsSession c.state) (sym (pump_skip ep resp reads c e q))
              (pump-IsSession ep reads c up)
        | inr (ev, q) ↦ elim up [
          | inl sub ↦
              let (leads, down) = pump-IsSession ep reads (set_state live ep c) (inr refl) in
              subst (IsSession c.state) (sym (pump_first ep resp reads c e ev q (ap is_live sub)))
                ((subst (λ s. Moves s live) (sym sub) answered, (refl, leads)), down)
          | inr is ↦
              let (leads, down) = pump-IsSession ep reads c (inr is) in
              subst (IsSession c.state) (sym (pump_next ep resp reads c e ev q (ap is_live is)))
                ((is, leads), down)
        ]
      ]
    ]

    subscribe_and_pump-IsSession :
        (ep : String) (s : Session) (c : Client)
        → c.state ≡ connecting
        → IsSession c.state (subscribe_and_pump decoder ep s c)
    unfolding subscribe_and_pump Leads
    subscribe_and_pump-IsSession ep s c h =
        let first : Moves c.state subscribing = subst (λ t. Moves t subscribing) (sym h) dialled in
        elim (Option-cases s.unwritten) [
          | inr (q, e) ↦ rw e ((first, refl), drop_subscribing)
          | inl e ↦
              let (leads, down) =
                pump-IsSession ep s.reads (set_state subscribing ep c) (inl refl) in
              rw e ((first, leads), down)
        ]

    connect_dialled :
        (ep : String) (s : Session) (c : Client) (u : SocketUrl)
        → subscription_url s.url ≡ subscribed u
        → s.dial_fault ≡ none
        → let rest = subscribe_and_pump decoder ep s (set_state connecting ep c) in
          connect_and_pump decoder ep s c ≡ (enter connecting ep none ∷ rest.0, rest.1, rest.2)
    unfolding connect_and_pump
    connect_dialled ep s c u e q = ground (arith, e, q)

    -- A session that is not dialled ends where it began to connect.
    pub connect_failed :
        (ep : String) (s : Session) (c : Client)
        → ((f : SocketFault) × (subscription_url s.url ≡ unusable f))
          ⊎ ((b : Bool) × (s.dial_fault ≡ some b))
        → let out = connect_and_pump decoder ep s c in
          (out.0 ≡ enter connecting ep none ∷ []) × (out.1 ≡ set_state connecting ep c)
    unfolding connect_and_pump
    connect_failed ep s c h = ground (arith, h)

    pub connect_and_pump-IsSession :
        (ep : String) (s : Session) (c : Client)
        → Moves c.state connecting
        → IsSession c.state (connect_and_pump decoder ep s c)
    unfolding Leads
    connect_and_pump-IsSession ep s c h = elim (Subscribed-cases (subscription_url s.url)) [
      | inr f ↦ let (a, b) = connect_failed ep s c (inl f) in rw (a, b) ((h, refl), drop_connecting)
      | inl (u, e) ↦ elim (Option-cases s.dial_fault) [
        | inr b ↦
            let (x, y) = connect_failed ep s c (inr b) in rw (x, y) ((h, refl), drop_connecting)
        | inl q ↦
            let (leads, down) =
              subscribe_and_pump-IsSession ep s (set_state connecting ep c) refl in
            subst (IsSession c.state) (sym (connect_dialled ep s c u e q)) ((h, leads), down)
      ]
    ]

    pub connect_and_pump-Opens :
        (ep : String) (s : Session) (c : Client) → Opens (connect_and_pump decoder ep s c).0
    unfolding Opens
    connect_and_pump-Opens ep s c = elim (Subscribed-cases (subscription_url s.url)) [
      | inr f ↦ subst Opens (sym (connect_failed ep s c (inl f)).0) refl
      | inl (u, e) ↦ elim (Option-cases s.dial_fault) [
        | inr b ↦ subst Opens (sym (connect_failed ep s c (inr b)).0) refl
        | inl q ↦ subst Opens (sym (ap (λ out. out.0) (connect_dialled ep s c u e q))) refl
      ]
    ]
