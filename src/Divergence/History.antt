-- ===== src/Divergence/History.antt =====
-- The archive of internal/divergence/archive.go under votes that a node delivers more than once.
use cmt_top.Base.{◌≡◌, List}
use cmt_top.State.Types.{Time}
use cmt_top.Divergence.Types.{VoteEvent, Config, Floats}
use cmt_top.Divergence.Votes.{observe_vote}
use cmt_top.Divergence.Validators.{new}
use cmt_top.Divergence.VoteBounds.{IsBounded-IsKeyed}
use cmt_top.Divergence.Idempotence.{observe_vote_twice}
use cmt_top.Divergence.Runs.{Call, run, run-new-IsBounded}

-- After any history of calls on a new tracker, a vote that is observed twice leaves what it leaves
-- when it is observed once, timestamps, revisions, limits and evictions included, at whatever times
-- it is observed, and whether or not the archive has room for it.
pub run-observe_vote_twice :
    (fl : Floats) (cfg : Config) (calls : List (Time × Call)) (now later : Time) (v : VoteEvent)
    → observe_vote later (observe_vote now (run fl calls (new cfg)) v) v
      ≡ observe_vote now (run fl calls (new cfg)) v
run-observe_vote_twice fl cfg calls now later v =
    observe_vote_twice now later (run fl calls (new cfg)) v
      (IsBounded-IsKeyed (run fl calls (new cfg)) (run-new-IsBounded fl cfg calls))
