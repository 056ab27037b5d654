-- ===== src/Events/Tests.antt =====
-- The bus of internal/events/bus.go at concrete inputs.
use cmt_top.Base.{ℕ, ℕ_eq, ◌≡◌, refl, List, [], ◌∷◌, some, arith, keep}
use cmt_top.Base.Maps.{lookup}
use cmt_top.Events.Bus.{Event, Subscription, Bus, wants, kind_log, kind_error}
use cmt_top.Events.Delivery.{Takes, publish_all, publish_all-Takes}

abbrev log_of : ℕ → Event ℕ
log_of n = record { kind = kind_log; payload = n }

abbrev log_reader : Subscription ℕ
log_reader = record { ch = log_of 1 ∷ []; kinds = kind_log ∷ []; dropped = 0; name = "log" }

abbrev one_reader : Bus ℕ
one_reader = record { subs = (0, log_reader) ∷ []; next_id = 1; buf_cap = 2 }

abbrev some_events : List (Event ℕ)
some_events = log_of 2 ∷ record { kind = kind_error; payload = 9 } ∷ log_of 3 ∷ []

one_reader_lookup : lookup 0 one_reader.subs ≡ some log_reader
unfolding lookup
one_reader_lookup = refl

publish_all-Takes_example :
    (sub' : Subscription ℕ) × (lookup 0 (publish_all some_events one_reader).subs ≡ some sub')
    × Takes 2 (keep (wants log_reader) some_events) log_reader sub'
publish_all-Takes_example =
    publish_all-Takes some_events one_reader 0 log_reader one_reader_lookup (ground arith)
      (ground arith) (ground arith)
