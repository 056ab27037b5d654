-- ===== src/State/Tests.antt =====
-- The health of internal/state at a concrete input.
use cmt_top.Base.{◌≡◌, ◌↔◌, refl, true, inl, arith}
use cmt_top.Base.Int.{pos, ◌*ℤ◌}
use cmt_top.State.Types.{streaming, Health}
use cmt_top.State.Health.{empty_health, mode_at, Means, IsWindow, mode_at_iff}

abbrev live_health : Health
live_health = record empty_health {
  ws_connected = true;
  last_event_at = 900;
  last_success_at = 900;
}

live_health-IsWindow : IsWindow live_health (pos 30000000000)
unfolding ◌*ℤ◌
live_health-IsWindow = inl (ground arith, ground arith, refl)

mode_at_iff_example :
    (mode_at live_health 1000 ≡ streaming) ↔ Means live_health (pos 30000000000) 1000 streaming
mode_at_iff_example = mode_at_iff live_health (pos 30000000000) 1000 live_health-IsWindow streaming
