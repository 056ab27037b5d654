-- ===== src/Chain/Tests.antt =====
-- The pool and the websocket client of internal/chain at concrete inputs: two endpoints, of which the
-- first does not answer.
use mathlib.Core.List.{Perm}
use cmt_top.Base.{
  ℕ, ◌≡◌, ◌≢◌, refl, true, false, String, [], ◌∷◌, Option, none, some, ◌+◌, arith, String_eq,
  if◌then◌else◌, ◌%◌, ◌/◌, nat_eqb,
}
use cmt_top.Base.Int.{ℤ, pos, ◌≤ℤ◌, max_int64}
use cmt_top.Base.Maps.{lookup, insert}
use cmt_top.Chain.Pool.{Endpoint, Pool, reply, no_error, Result, ok, failed, try_from, do_request}
use cmt_top.Chain.Rotation.{rotation}
use cmt_top.Chain.Failover.{first_answer, Pins, do_request_lem}
use cmt_top.Chain.Pages.{
  Validator, ResultValidators, mark_page, is_inconsistent, take_page, validators, collect,
  all_validators,
}
use cmt_top.Chain.Collected.{
  AllReplies, Replies, all_validators-ends, Tells, IsValidatorSet, all_validators-IsValidatorSet,
}
use cmt_top.Chain.Socket.{disconnected, Client, SocketUrl, subscription_url}
use cmt_top.Chain.Session.{Decoder, lost}
use cmt_top.Chain.Session.{reply as read_reply}
use cmt_top.Chain.Reconnect.{Round, run}
use cmt_top.Chain.Lifecycle.{start, IsLifecycle}
use cmt_top.Chain.Waits.{least_wait, Waits, run-IsLifecycle, run-Waits}
use cmt_top.Chain.Dials.{IsDown, dials, run-dials}

abbrev first_endpoint : Endpoint
first_endpoint = record { url = "http://a"; primary = true }

abbrev second_endpoint : Endpoint
second_endpoint = record { url = "http://b"; primary = false }

abbrev two_endpoints : Pool
two_endpoints = record { endpoints = first_endpoint ∷ second_endpoint ∷ []; active = 0 }

-- The world counts the attempts.
abbrev second_answers : Endpoint → ℕ → ℕ × Result ℕ
second_answers e n = (n + 1, if e.primary then failed (reply "down") else ok 7)

answered_by_second :
    (do_request second_answers two_endpoints 0)
    ≡ (2, record two_endpoints { active = 1 }, ok (7, "http://b"))
unfolding do_request try_from
answered_by_second = refl

do_request_lem_example :
    let r = do_request second_answers two_endpoints 0 in
    ((r.0, r.2) ≡ first_answer second_answers (rotation 0 (two_endpoints.endpoints)) no_error 0)
    × Pins second_answers two_endpoints r.1 r.2
    × Perm (rotation 0 (two_endpoints.endpoints)) (two_endpoints.endpoints)
do_request_lem_example = do_request_lem second_answers two_endpoints 0 (omega arith)

abbrev validator_at : String → Validator
validator_at addr = record { address = addr; voting_power = pos 1 }

-- Both endpoints know three validators, two of them on the first page.
abbrev two_pages : Option ℤ → ℕ → ℕ → Endpoint → ℕ → ℕ × Result ResultValidators
two_pages height page per e n = (
  n + 1,
  ok (record {
    block_height = pos 9;
    validators =
        if nat_eqb page 1 then validator_at "A" ∷ validator_at "B" ∷ [] else validator_at "C" ∷ [];
    total = pos 3;
  }),
)

three_at_nine : ℤ → ℕ
three_at_nine height = 3

two_pages-totals : AllReplies two_pages (λ res. res.total ≤ℤ max_int64)
unfolding AllReplies Replies
two_pages-totals height page per e w x h = ground (arith, h)

two_pages-Tells : AllReplies two_pages (Tells two_pages three_at_nine)
unfolding AllReplies Replies Tells three_at_nine
two_pages-Tells height page per e w x h = ground (arith, h)

collected_set :
    (all_validators two_pages none two_endpoints 0).2
    ≡ some (ok (validator_at "A" ∷ validator_at "B" ∷ validator_at "C" ∷ [], pos 9, "http://a"))
unfolding all_validators collect validators do_request try_from take_page mark_page is_inconsistent
    lookup insert
collected_set = refl

all_validators-ends_example : (all_validators two_pages none two_endpoints 0).2 ≢ none
all_validators-ends_example =
    all_validators-ends two_pages none two_endpoints 0 two_pages-totals (omega arith)

all_validators-IsValidatorSet_example :
    IsValidatorSet two_pages three_at_nine none
      (validator_at "A" ∷ validator_at "B" ∷ validator_at "C" ∷ [])
      (pos 9)
all_validators-IsValidatorSet_example =
    all_validators-IsValidatorSet two_pages three_at_nine none two_endpoints 0
      (validator_at "A" ∷ validator_at "B" ∷ validator_at "C" ∷ []) (pos 9) "http://a"
      two_pages-Tells (omega arith) collected_set

abbrev socket_client : Client
socket_client = record {
  endpoints = "http://a" ∷ "http://b" ∷ [];
  queries = "tm.event='Vote'" ∷ [];
  idle_timeout = pos 30000000000;
  max_backoff = pos 1000000000;
  state = disconnected;
  active = "";
}

-- A decoder that takes every text for a vote.
abbrev vote_decoder : Decoder String
vote_decoder = record {
  envelope = λ raw. some ("tm.event='Vote'", raw);
  typed = λ raw. some ("tendermint/event/Vote", raw);
  payload_of = λ kind raw. some raw;
}

abbrev some_url : SocketUrl
some_url = record { scheme = "http"; host = "a"; path = "/"; raw_path = ""; fragment = "" }

-- A session that delivers a vote and is lost, and one that cannot be dialled.
abbrev vote_then_lost : Round
vote_then_lost = record {
  cancelled_before = false;
  session = record {
    url = some some_url;
    dial_fault = none;
    unwritten = none;
    reads =
        read_reply (record { error = none; result = "" })
        ∷ read_reply (record { error = none; result = "v" })
        ∷ lost
        ∷ [];
  };
  draw = λ n. 0;
  cancelled_wait = false;
}

abbrev down_round : Round
down_round = record vote_then_lost {
  session = record { url = some some_url; dial_fault = some false; unwritten = none; reads = [] };
}

run-IsLifecycle_example :
    IsLifecycle disconnected (run vote_decoder 0 (vote_then_lost ∷ down_round ∷ []) socket_client)
run-IsLifecycle_example =
    run-IsLifecycle vote_decoder 0 (vote_then_lost ∷ down_round ∷ []) socket_client start

run-Waits_example :
    Waits
      (least_wait 1000000000)
      (1000000000 + 1000000000 / 5)
      (run vote_decoder 0 (vote_then_lost ∷ down_round ∷ []) socket_client)
run-Waits_example =
    run-Waits vote_decoder 0 (vote_then_lost ∷ down_round ∷ []) socket_client
      ((λ n h. h), ((λ n h. h), tt))

down_round-IsDown : IsDown down_round
unfolding subscription_url
down_round-IsDown = record { begins = refl; usable = refl; unreachable = refl; goes_on = refl }

run-dials_example :
    (dials (run vote_decoder 3 (down_round ∷ down_round ∷ []) socket_client)
      ≡ rotation (3 % 2) (socket_client.endpoints))
    × Perm
        (dials (run vote_decoder 3 (down_round ∷ down_round ∷ []) socket_client))
        (socket_client.endpoints)
run-dials_example =
    run-dials vote_decoder 3 (down_round ∷ down_round ∷ []) socket_client
      (down_round-IsDown, (down_round-IsDown, tt)) (omega arith) refl
