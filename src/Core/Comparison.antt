-- ===== src/Core/Comparison.antt =====
-- internal/core/comparison.go: the application hashes that the endpoints report at one height. What
-- an endpoint answers is a function of its name: each is asked once for its status and at most once
-- for a block, and the goroutines that ask write to a row of their own, so that their order does not
-- matter. The list of rows is its first one, the reference, and the others.
use cmt_top.Base.{
  Bool, true, false, not, ◌&&◌, String, List, [], ◌∷◌, map, ◌==◌, String_eq, if◌then◌else◌, any_of,
  length, nat_eqb, keep,
}
use cmt_top.Base.{ltb as nat_ltb}
use cmt_top.Base.Int.{ℤ, pos, ltb, eqb}
use cmt_top.State.Types.{
  Time, EndpointStatus, failed, pending, chain_mismatch, lagging, compared, reference, match,
  mismatch, CompareStatus, incomplete, matching, mismatching, EndpointResult, RpcComparison,
}
use cmt_top.Core.Notices.{Orchestrator, endpoint_apphash_divergence, publish, set_state}
use cmt_top.Core.Replies.{Reply, answered, refused, StatusReply, BlockReply}

-- The monitored endpoints, each once and without those in `seen`.
unfoldable pub distinct : List String → List String → List String
distinct seen [] = []
distinct seen (url ∷ urls) =
    let fresh = url ∷ distinct (url ∷ seen) urls in
    let rest = distinct seen urls in if any_of (λ u. u == url) seen then rest else fresh

abbrev pub is_status : EndpointStatus → EndpointResult → Bool
is_status failed row = elim row.status [ failed ↦ true | _ ↦ false ]
is_status pending row = elim row.status [ pending ↦ true | _ ↦ false ]
is_status chain_mismatch row = elim row.status [ chain_mismatch ↦ true | _ ↦ false ]
is_status lagging row = elim row.status [ lagging ↦ true | _ ↦ false ]
is_status compared row = elim row.status [ compared ↦ true | _ ↦ false ]
is_status reference row = elim row.status [ reference ↦ true | _ ↦ false ]
is_status match row = elim row.status [ match ↦ true | _ ↦ false ]
is_status mismatch row = elim row.status [ mismatch ↦ true | _ ↦ false ]

abbrev pub fail_row : EndpointStatus → String → EndpointResult → EndpointResult
fail_row status err row = record row { status = status; failure = err }

abbrev pub new_row : String → EndpointResult
new_row url = record {
  endpoint = url;
  status = failed;
  chain_id = "";
  height = pos 0;
  latest_height = pos 0;
  app_hash = "";
  failure = "";
}

unfoldable pub status_row : String → Reply StatusReply → EndpointResult
status_row url (refused err) = fail_row failed err (new_row url)
status_row url (answered st _) = record (new_row url) {
  chain_id = st.network;
  latest_height = st.latest_height;
  status = pending;
}

unfoldable pub block_row : ℤ → String → Reply BlockReply → EndpointResult → EndpointResult
block_row height chain (refused err) row = fail_row failed err row
block_row height chain (answered b _) row =
    if not (eqb b.height height)
    then fail_row failed "endpoint did not return requested height" row
    else if not (b.chain_id == chain)
    then fail_row chain_mismatch "block header belongs to a different chain" row
    else record row { height = b.height; app_hash = b.app_hash; status = compared }

-- A row that is asked for its block at the reference height, if its status allows that.
unfoldable pub fetch_row :
    ℤ → String → (String → Reply BlockReply) → EndpointResult → EndpointResult
fetch_row height chain block row =
    if is_status failed row
    then row
    else if not (row.chain_id == chain)
    then fail_row chain_mismatch "endpoint belongs to a different chain" row
    else if ltb row.latest_height height
    then record row { status = lagging }
    else block_row height chain (block row.endpoint) row

unfoldable pub judge_row : String → EndpointResult → EndpointResult
judge_row hash row =
    if not (is_status compared row)
    then row
    else if row.app_hash == hash
    then record row { status = match }
    else record row { status = mismatch }

abbrev pub drop_compared : EndpointResult → EndpointResult
drop_compared row =
    if is_status compared row then fail_row failed "reference block is unavailable" row else row

abbrev pub drop_pending : EndpointResult → EndpointResult
drop_pending row =
    if is_status pending row then fail_row failed "reference height is unavailable" row else row

-- The verdict over the judged rows beside the reference.
unfoldable pub verdict : List EndpointResult → CompareStatus
verdict rows =
    if any_of (is_status mismatch) rows
    then mismatching
    else if nat_ltb 0 (length rows) && nat_eqb (length (keep (is_status match) rows)) (length rows)
    then matching
    else incomplete

-- The rows once the blocks are fetched, with the reference first.
unfoldable pub judge : Time → ℤ → String → EndpointResult → List EndpointResult → RpcComparison
judge now height chain ref rows =
    let judged = map (judge_row ref.app_hash) rows in
    if is_status compared ref
    then record {
      status = verdict judged;
      height = height;
      chain_id = chain;
      checked_at = now;
      endpoints = record ref { status = reference } ∷ judged;
    }
    else record {
      status = incomplete;
      height = height;
      chain_id = chain;
      checked_at = now;
      endpoints = ref ∷ map drop_compared rows;
    }

unfoldable pub compare_rows :
    Time → (String → Reply BlockReply) → EndpointResult → List EndpointResult → RpcComparison
compare_rows now block ref rows =
    if is_status pending ref && ltb (pos 0) ref.latest_height
    then judge now ref.latest_height ref.chain_id
        (fetch_row ref.latest_height ref.chain_id block ref)
        (map (fetch_row ref.latest_height ref.chain_id block) rows)
    else record {
      status = incomplete;
      height = pos 0;
      chain_id = "";
      checked_at = now;
      endpoints = drop_pending ref ∷ map drop_pending rows;
    }

unfoldable pub compare :
    Time
    → (String → Reply StatusReply)
    → (String → Reply BlockReply)
    → String
    → List String
    → RpcComparison
compare now status block primary monitored =
    compare_rows now block (status_row primary (status primary))
      (map (λ url. status_row url (status url)) (distinct (primary ∷ []) monitored))

unfoldable pub refresh_rpc_comparison :
    Time
    → (String → Reply StatusReply)
    → (String → Reply BlockReply)
    → String
    → List String
    → Orchestrator
    → Orchestrator
refresh_rpc_comparison now status block primary monitored o =
    let rep = compare now status block primary monitored in
    publish (endpoint_apphash_divergence rep)
      (set_state now (record (o.state) { rpc_comparison = rep }) o)
