-- ===== src/Web/Tests.antt =====
-- The queue of a client, the cache of round reports and the address of a request, of internal/web, at
-- concrete inputs.
use cmt_top.Base.{
  if◌then◌else◌, ◌==◌, String_eq, ◌⊎◌, true, ℕ, ◌≡◌, refl, false, List, [], ◌∷◌, none, some, arith,
  String,
}
use cmt_top.Base.Int.{pos}
use cmt_top.Base.{leb as nat_leb}
use cmt_top.Config.Text.{trim_space, trim_left, trim_right, is_space}
use cmt_top.Base.{◌≤◌, ◌<◌, length}
use cmt_top.Web.Budget.{
  Netip, is_trusted, walk, forwarded_addr, is_decided, backward, forwarded_addr-prepend,
}
use cmt_top.Divergence.Tests.{whole, five_percent}
use cmt_top.Divergence.SnapshotTests.{
  found_after, same_evidence, first_calls, later_calls, first_tracker, later_tracker, report_found,
}
use cmt_top.Divergence.Snapshot.{ArchiveVersion, investigation_version, block_investigation}
use cmt_top.Web.Reports.{
  BuiltReport, is_hit, with_catalogue, serve-hit, version-header, build_report-evidence,
  build_report, serve, serve_fresh,
}
use cmt_top.Base.{not, ◌||◌, ℕ_eq, ap, ◌∙◌}
use cmt_top.Web.Reports.Settled.{IsSettledAs, serve_settled}
use cmt_top.Web.Cache.{new_rounds_cache}
use cmt_top.Web.Cache.Uses.{CacheUse, publishes, hits, stores, drops, Leaves, run-new-Leaves}
use cmt_top.Web.Cache.Uses.{run as run_uses}
use cmt_top.Web.Queue.{Envelope, Client, limit_of, queue_locked}
use cmt_top.Web.Queue.Accounting.{Use, queues, dequeues, run, IsAccounted, run-IsAccounted}
use cmt_top.Web.Queue.Order.{Delivers, StartsWith, queue_locked-Delivers, queue_locked-StartsWith}

abbrev frame : String → ℕ → Envelope ℕ
frame type seq = record {
  type = type;
  ts = "";
  height = pos 7;
  round = pos 0;
  seq = seq;
  payload = 0;
  size = 100;
  queued_at = 50;
}

abbrev one_frame : Client ℕ
one_frame = record {
  dropped = 0;
  seq = 1;
  pending = frame "state.snapshot" 1 ∷ [];
  queued_bytes = 100;
  queue_limit = pos 2;
  overloaded_at = 0;
  woken = false;
  closed = false;
}

one_frame-IsAccounted : IsAccounted one_frame
unfolding limit_of
one_frame-IsAccounted = record {
  exact = ground arith;
  in_bytes = ground arith;
  in_messages = ground arith;
}

abbrev some_uses : List (Use ℕ)
some_uses =
    queues 60 (some (frame "vote" 0))
    ∷ queues 70 (some (frame "vote" 0))
    ∷ dequeues
    ∷ queues 80 none
    ∷ []

run-IsAccounted_example : (c' : Client ℕ) × (run some_uses one_frame ≡ some c') × IsAccounted c'
run-IsAccounted_example = run-IsAccounted some_uses one_frame one_frame-IsAccounted

queue_locked-Delivers_example : Delivers one_frame (queue_locked 60 one_frame (frame "vote" 0))
queue_locked-Delivers_example =
    queue_locked-Delivers 60 one_frame (frame "vote" 0) (ground arith) (ground arith)

queue_locked-StartsWith_example :
    StartsWith (frame "state.snapshot" 1) (queue_locked 60 one_frame (frame "state.snapshot" 0))
queue_locked-StartsWith_example =
    queue_locked-StartsWith 60 one_frame (frame "state.snapshot" 0) (frame "state.snapshot" 1) []
      refl refl

-- Addresses are numbers, and a prefix has those up to it.
abbrev small_net : Netip ℕ ℕ
small_net = record {
  host_of = λ text. text;
  parse_addr =
      λ text. if text == "proxy" then some 1 else if text == "client" then some 9 else none;
  contains = λ prefix ip. nat_leb ip prefix;
  quota_ip = λ ip. if nat_leb ip 1 then "proxy" else "client";
}

abbrev real_hops : List String
real_hops = "client" ∷ " proxy" ∷ []

real_hops-decided : is_decided small_net (5 ∷ []) 1 (backward real_hops) ≡ true
unfolding is_decided is_trusted trim_space trim_left trim_right is_space
real_hops-decided = refl

abbrev forged_hops : List String
forged_hops = "proxy" ∷ "forged" ∷ real_hops

forwarded_addr-prepend_example :
    ((length ("proxy" ∷ "forged" ∷ real_hops) ≤ 32)
      × (forwarded_addr small_net (5 ∷ []) 1 ("proxy" ∷ "forged" ∷ real_hops)
          ≡ forwarded_addr small_net (5 ∷ []) 1 real_hops))
    ⊎ ((32 < length ("proxy" ∷ "forged" ∷ real_hops))
        × (forwarded_addr small_net (5 ∷ []) 1 ("proxy" ∷ "forged" ∷ real_hops) ≡ 1))
forwarded_addr-prepend_example =
    forwarded_addr-prepend small_net (5 ∷ []) 1 ("proxy" ∷ "forged" ∷ []) real_hops
      real_hops-decided

forwarded_addr-client : forwarded_addr small_net (5 ∷ []) 1 forged_hops ≡ 9
unfolding forwarded_addr walk is_trusted trim_space trim_left trim_right is_space
forwarded_addr-client = refl

abbrev cache_uses : List CacheUse
cache_uses =
    publishes true (pos 7) 10 30000000
    ∷ publishes true (pos 8) 20 1000
    ∷ hits 30 (pos 8)
    ∷ stores true (pos 8) "compact" 400
    ∷ publishes true (pos 9) 40 500
    ∷ drops (pos 9)
    ∷ []

run-new-Leaves_example : Leaves (run_uses cache_uses new_rounds_cache)
run-new-Leaves_example = run-new-Leaves cache_uses

serve_fresh_example :
    let v = investigation_version later_tracker (pos 7) in
    let e = build_report 15 first_tracker (pos 7) in
    serve false 30 (some e) v ≡ (
      if not v.header.found || e.evidence == v.evidence
      then some (block_investigation later_tracker (pos 7))
      else none)
serve_fresh_example =
    serve_fresh whole five_percent first_calls later_calls (pos 7) 15 30 (omega arith) report_found

abbrev seen_report : BuiltReport
seen_report = build_report 15 first_tracker (pos 7)

abbrev later_version : ArchiveVersion
later_version = investigation_version later_tracker (pos 7)

later_found : later_version.header.found ≡ true
later_found = ap (λ h. h.found) (version-header later_tracker (pos 7)) ∙ found_after

later_hit : is_hit true 30 seen_report later_version ≡ true
later_hit = ground (arith, same_evidence, build_report-evidence 15 first_tracker (pos 7))

serve_settled_example : IsSettledAs later_version.header (with_catalogue seen_report later_version)
serve_settled_example =
    serve_settled whole five_percent first_calls later_calls (pos 7) 15 30 true
      (with_catalogue seen_report later_version) (omega arith) report_found
      (serve-hit true 30 seen_report later_version later_found later_hit)
