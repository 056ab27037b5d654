-- ===== src/Chain/Retries.antt =====
-- internal/chain/cometws/client.go: a run of the client, round by round.
use cmt_top.Base.{
  ℕ, suc, ◌+◌, ◌%◌, ◌≡◌, refl, sym, ap, subst, ◌⊎◌, inl, inr, true, false, String, List, [], ◌∷◌,
  ◌++◌, Option, none, some, String_eq, if◌then◌else◌, length, All, arith, Bool-cases, Option-cases,
}
use cmt_top.Base.Int.{pos_part}
use cmt_top.Chain.Pool.{nth}
use cmt_top.Chain.Socket.{reconnecting, SocketFault, Client}
use cmt_top.Chain.Session.{Decoder, Action, enter, set_state, connect_and_pump}
use cmt_top.Chain.Reconnect.{
  backoff, jitter_range, is_canceled, Round, Trace, act, wait, attempt_after, session_trace, run,
}

append_nil_trace {ℓ} : {A : Type ℓ} (xs : List A) → xs ++ [] ≡ xs
append_nil_trace [] = refl
append_nil_trace (x ∷ xs) = ap (λ l. x ∷ l) (append_nil_trace xs)

-- The pause of a round, with its jitter.
abbrev pub pause_of : Client → Round → ℕ → ℕ
pause_of c r attempt =
    let pause = backoff (pos_part c.max_backoff) attempt in pause + r.draw (jitter_range pause)

module _ {ℓ} {P : Type ℓ} (decoder : Decoder P) where
  -- What is left of a run after a session that failed.
  abbrev pub rest_of : ℕ → Round → List Round → Client → String → List (Trace P)
  rest_of attempt r rounds c ep =
      if r.cancelled_wait
      then []
      else run decoder (suc attempt) rounds (set_state reconnecting ep c)

  pub run_cancelled :
      (attempt : ℕ) (r : Round) (rounds : List Round) (c : Client)
      → (r.cancelled_before ≡ true)
        ⊎ ((r.cancelled_before ≡ false) × (nth (attempt % length c.endpoints) c.endpoints ≡ none))
      → run decoder attempt (r ∷ rounds) c ≡ []
  unfolding run
  run_cancelled attempt r rounds c (inl e) = ground (arith, e)
  run_cancelled attempt r rounds c (inr (e, n)) = ground (arith, e, n)

  pub run_nil : (attempt : ℕ) (c : Client) → run decoder attempt [] c ≡ []
  unfolding run
  run_nil attempt c = refl

  module _ (attempt : ℕ) (r : Round) (rounds : List Round) (c : Client) (ep : String)
      (early : r.cancelled_before ≡ false)
      (chosen : nth (attempt % length c.endpoints) c.endpoints ≡ some ep) where
    run_ends :
        let out = connect_and_pump decoder ep r.session c in
        (out.2 ≡ none) ⊎ ((fault : SocketFault) × (out.2 ≡ some fault) × (is_canceled fault ≡ true))
        → run decoder attempt (r ∷ rounds) c ≡ session_trace ep r.session out.0
    unfolding run
    run_ends (inl e) = ground (arith, early, chosen, e)
    run_ends (inr (fault, e, q)) = ground (arith, early, chosen, e, q)

    pub run_retries :
        (fault : SocketFault)
        → let out = connect_and_pump decoder ep r.session c in
          out.2 ≡ some fault
          → is_canceled fault ≡ false
          → run decoder attempt (r ∷ rounds) c
            ≡ session_trace ep r.session out.0
              ++ act (enter reconnecting ep (some fault))
                ∷ wait (pause_of c r (attempt_after attempt out.1))
                ∷ rest_of (attempt_after attempt out.1) r rounds out.1 ep
    unfolding run
    run_retries fault e q = ground (arith, early, chosen, e, q)

  abbrev pub after : String → Round → Client → List (Action P) × Client × Option SocketFault
  after ep r c = connect_and_pump decoder ep r.session c

  -- Induction on the rounds of a run, for what holds of the trace that each client makes.
  module _ (Good : Client → Type 0) (Fair : Round → Type 0) (Q : Client → List (Trace P) → Type 0)
      (keeps : (ep : String) (r : Round) (c : Client)
        → Good c
        → Good (set_state reconnecting ep (after ep r c).1))
      (stops : (c : Client) → Q c [])
      (ends : (ep : String) (r : Round) (c : Client)
        → Good c
        → Q c (session_trace ep r.session (after ep r c).0))
      (retries : (ep : String) (r : Round) (c : Client) (attempt : ℕ) (fault : SocketFault)
          (more : List (Trace P))
        → Good c
        → Fair r
        → Q (set_state reconnecting ep (after ep r c).1) more
        → Q c (
            session_trace ep r.session (after ep r c).0
            ++ act (enter reconnecting ep (some fault)) ∷ wait (pause_of c r attempt) ∷ more)) where
    pub run-induction :
        (attempt : ℕ) (rounds : List Round) (c : Client)
        → All Fair rounds
        → Good c
        → Q c (run decoder attempt rounds c)
    run-induction attempt [] c fair good = subst (Q c) (sym (run_nil attempt c)) (stops c)
    run-induction attempt (r ∷ rounds) c fair good = elim (Bool-cases r.cancelled_before) [
      | inl e ↦ subst (Q c) (sym (run_cancelled attempt r rounds c (inl e))) (stops c)
      | inr early ↦ elim (Option-cases (nth (attempt % length c.endpoints) c.endpoints)) [
        | inl n ↦ subst (Q c) (sym (run_cancelled attempt r rounds c (inr (early, n)))) (stops c)
        | inr (ep, chosen) ↦ elim (Option-cases (after ep r c).2) [
          | inl q ↦
              subst (Q c) (sym (run_ends attempt r rounds c ep early chosen (inl q)))
                (ends ep r c good)
          | inr (fault, q) ↦ elim (Bool-cases (is_canceled fault)) [
            | inl gone ↦
                subst (Q c)
                  (sym (run_ends attempt r rounds c ep early chosen (inr (fault, q, gone))))
                  (ends ep r c good)
            | inr other ↦
                subst (Q c) (sym (run_retries attempt r rounds c ep early chosen fault q other)) (
                  retries ep r c (attempt_after attempt (after ep r c).1) fault _ good fair.0
                    (elim (Bool-cases r.cancelled_wait) [
                      | inl w ↦ rw w (stops _)
                      | inr w ↦ rw w (
                          run-induction (suc (attempt_after attempt (after ep r c).1)) rounds
                            (set_state reconnecting ep (after ep r c).1) fair.1 (keeps ep r c good))
                    ]))
          ]
        ]
      ]
    ]
