-- ===== src/State/Health.antt =====
-- internal/state/state.go: the initial state, `Mutate`, `Snapshot` and `Health.ModeAt`. The lock
-- makes each of them one step; a snapshot is a value, so that the deep copy needs no model.
use cmt_top.Base.{
  ℕ, ◌+◌, ◌*◌, ◌≤◌, ap, ◌∙◌, inl, inr, ◌≡◌, ◌≢◌, ◌↔◌, subst, ◌⊎◌, Bool, true, false, not, ◌&&◌, [],
  none, arith, if◌then◌else◌,
}
use cmt_top.Base.Int.{ℤ, pos, negsuc, wrap64_lem, ltb, leb, wrap64, ◌*ℤ◌, ◌≤ℤ◌, ◌<ℤ◌}
use cmt_top.State.Types.{
  Time, is_zero_time, time_sub, Mode, unavailable, stale, streaming, polling, Health, StateData,
  not_configured,
}

abbrev pub empty_health : Health
empty_health = record {
  mode = unavailable;
  ws_connected = false;
  ws_endpoint = "";
  http_endpoint = "";
  last_event_at = 0;
  last_http_at = 0;
  last_success_at = 0;
  last_error = "";
  stale_after_ms = pos 30000;
}

-- `New` at the time `now`.
abbrev pub new_state : Time → StateData
new_state now = record {
  height = pos 0;
  round = pos 0;
  step = pos 0;
  start_time = now;
  last_round = none;
  all_rounds = none;
  chain_validators = [];
  node_status = none;
  upgrade = none;
  block_time = pos 0;
  blocks = [];
  health = empty_health;
  rpc_comparison = record {
    status = not_configured;
    height = pos 0;
    chain_id = "";
    checked_at = 0;
    endpoints = [];
  };
  validator_height = pos 0;
  consensus_error = none;
  validators_error = none;
  status_error = none;
  upgrade_error = none;
  last_committed_height = pos 0;
  active_rpc = "";
  ws_connected = false;
  last_update = now;
}

-- `Mutate`, with the function's result beside the state.
abbrev pub mutate : {A : Type 0} → Time → (StateData → StateData × A) → StateData → StateData × A
mutate now fn s = let (s', a) = fn s in (record s' { last_update = now }, a)

abbrev pub second : ℤ
second = pos 1000000000

-- The window of `ModeAt`: the configured one, or thirty seconds if that is not positive.
unfoldable pub stale_after : Health → ℤ
stale_after h =
    let window = wrap64 (h.stale_after_ms *ℤ pos 1000000) in
    if leb window (pos 0) then pos 30000000000 else window

-- Seen within the window, at `now`.
unfoldable pub is_recent : Health → Time → Time → Bool
is_recent h now t = not (is_zero_time t) && leb (time_sub now t) (stale_after h)

unfoldable pub mode_at : Health → Time → Mode
mode_at h now =
    if is_zero_time h.last_success_at
    then unavailable
    else if ltb (stale_after h) (time_sub now h.last_success_at)
    then stale
    else if h.ws_connected && is_recent h now h.last_event_at
    then streaming
    else if is_recent h now h.last_http_at
    then polling
    else stale

unfoldable pub snapshot : Time → StateData → StateData
snapshot now s = record s { health = record (s.health) { mode = mode_at s.health now } }

-- Observed, and not longer ago than the window.
abbrev pub Fresh : ℤ → Time → Time → Type 0
Fresh window now t = (t ≢ 0) × (time_sub now t ≤ℤ window)

-- The window in nanoseconds: the configured milliseconds, or thirty seconds where they are not
-- positive, for as many as int64 holds in nanoseconds.
abbrev pub IsWindow : Health → ℤ → Type 0
IsWindow h window =
    ((pos 0 <ℤ h.stale_after_ms)
      × (h.stale_after_ms ≤ℤ pos 9223372036854)
      × (window ≡ h.stale_after_ms *ℤ pos 1000000))
    ⊎ ((h.stale_after_ms ≤ℤ pos 0)
        × (negsuc 9223372036853 ≤ℤ h.stale_after_ms)
        × (window ≡ pos 30000000000))

-- The connection is open and an event came within the window.
abbrev pub Streams : Health → ℤ → Time → Type 0
Streams h window now = (h.ws_connected ≡ true) × Fresh window now h.last_event_at

-- What each mode says of the connection, in terms of the observations alone.
abbrev pub Means : Health → ℤ → Time → Mode → Type 0
Means h window now unavailable = h.last_success_at ≡ 0
Means h window now streaming = Fresh window now h.last_success_at × Streams h window now
Means h window now polling =
    Fresh window now h.last_success_at × Fresh window now h.last_http_at × (¬ Streams h window now)
Means h window now stale =
    (h.last_success_at ≢ 0)
    × ((window <ℤ time_sub now h.last_success_at)
        ⊎ ((¬ Streams h window now) × (¬ Fresh window now h.last_http_at)))

scaled_pos : (n : ℕ) → pos n *ℤ pos 1000000 ≡ pos (n * 1000000)
unfolding ◌*ℤ◌
scaled_pos n = ground arith

scaled_negsuc : (n : ℕ) → negsuc n *ℤ pos 1000000 ≡ negsuc (n * 1000000 + 999999)
unfolding ◌*ℤ◌
scaled_negsuc n = ground arith

wrapped_pos : (n : ℕ) → n ≤ 9223372036854 → wrap64 (pos n *ℤ pos 1000000) ≡ pos (n * 1000000)
wrapped_pos n h =
    ap wrap64 (scaled_pos n) ∙ wrap64_lem (pos (n * 1000000)) (omega (arith, h)) (omega (arith, h))

wrapped_negsuc :
    (n : ℕ) → n ≤ 9223372036853 → wrap64 (negsuc n *ℤ pos 1000000) ≡ negsuc (n * 1000000 + 999999)
wrapped_negsuc n h =
    ap wrap64 (scaled_negsuc n)
    ∙ wrap64_lem (negsuc (n * 1000000 + 999999)) (omega (arith, h)) (omega (arith, h))

window_lem :
    (ms window : ℤ)
    → ((pos 0 <ℤ ms) × (ms ≤ℤ pos 9223372036854) × (window ≡ ms *ℤ pos 1000000))
      ⊎ ((ms ≤ℤ pos 0) × (negsuc 9223372036853 ≤ℤ ms) × (window ≡ pos 30000000000))
    → (let w = wrap64 (ms *ℤ pos 1000000) in if leb w (pos 0) then pos 30000000000 else w) ≡ window
window_lem (pos n) window (inl (positive, few, e)) =
    rw (wrapped_pos n (omega (arith, few))) (ground (arith, positive, e, scaled_pos n))
window_lem (pos n) window (inr (zero_, few, e)) =
    rw (wrapped_pos n (omega (arith, zero_))) (ground (arith, zero_, e))
window_lem (negsuc n) window (inl (positive, few, e)) = absurd (omega (arith, positive))
window_lem (negsuc n) window (inr (negative, few, e)) =
    rw (wrapped_negsuc n (omega (arith, few))) (ground (arith, e))

stale_after_window : (h : Health) (window : ℤ) → IsWindow h window → stale_after h ≡ window
unfolding stale_after
stale_after_window h window w = window_lem h.stale_after_ms window w

mode_at-Means : (h : Health) (now : Time) → Means h (stale_after h) now (mode_at h now)
unfolding mode_at is_recent
mode_at-Means h now = ground arith

Means-exclusive :
    (h : Health) (window : ℤ) (now : Time) (m n : Mode)
    → Means h window now m
    → Means h window now n
    → m ≡ n
Means-exclusive h window now m n a b = ground (arith, a, b)

-- At any time, the mode that is reported is a given one exactly if the observations mean that one:
-- none yet for unavailable; a success within the window and an event within it on an open connection
-- for streaming; such a success, a reply within the window and no streaming for polling; and a success
-- that is too old, or neither of the two, for stale. The window is the configured number of
-- milliseconds, or thirty seconds where that is not positive, if int64 holds it in nanoseconds.
pub mode_at_iff :
    (h : Health) (window : ℤ) (now : Time)
    → IsWindow h window
    → (m : Mode) → (mode_at h now ≡ m) ↔ Means h window now m
mode_at_iff h window now w m =
    let meant : Means h window now (mode_at h now) =
      subst (λ x. Means h x now (mode_at h now)) (stale_after_window h window w)
        (mode_at-Means h now) in
    (
      λ e. subst (Means h window now) e meant,
      λ a. Means-exclusive h window now (mode_at h now) m meant a,
    )
