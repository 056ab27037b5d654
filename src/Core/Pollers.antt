-- ===== src/Core/Pollers.antt =====
-- internal/core/orchestrator.go: the pollers. What an endpoint answers to the calls of a poller is
-- an argument, as is the clock. Byte strings are their hexadecimal text. An answer without the
-- block that was asked for, or with text that does not decode, is an error. Of an error that the
-- code formats the fixed words are kept.
use cmt_top.Base.{
  ℕ, suc, false, not, ◌||◌, String, List, [], ◌∷◌, map, Option, none, some, String_eq,
  if◌then◌else◌, last?,
}
use cmt_top.Base.Int.{ℤ, pos, ltb, leb, eqb}
use cmt_top.Base.Maps.{Map, lookup}
use cmt_top.State.Types.{
  Time, ChainValidator, ValidatorWithVote, NodeStatus, BlockSample, StateData,
}
use cmt_top.Divergence.Types.{ValidatorPower, Floats}
use cmt_top.Divergence.Votes.{observe_round}
use cmt_top.Divergence.Validators.{set_validators}
use cmt_top.Divergence.Resolve.{resolve_commit}
use cmt_top.Core.Transitions.{
  empty_round_vote, append_block, merge_validator_round, record_http_success,
}
use cmt_top.Core.Notices.{
  round_changed, validator_set_updated, status_updated, Orchestrator, Texts, publish, set_state,
}
use cmt_top.Core.Handlers.{publish_resolved}
use cmt_top.Core.Replies.{
  fail_status, commit_status, other_chain, fail_validators, by_consensus, total_power, three_values,
  fail_consensus, consensus_state, has_reached, Reply, StatusReply, ValidatorReply, BlockReply,
  Library, answered, refused,
}

-- The rows of a validator set, from its place `i` on.
unfoldable pub validator_rows :
    Library
    → Texts
    → Map String ChainValidator
    → ℤ
    → ℕ
    → List ValidatorReply
    → List ValidatorWithVote
validator_rows lib tx by_cons total i [] = []
validator_rows lib tx by_cons total i (v ∷ vs) =
    let addr = tx.to_upper v.address in
    record {
      validator = record {
        address = addr;
        index = i;
        voting_power = v.voting_power;
        voting_power_percent = if ltb (pos 0) total then lib.share v.voting_power total else 0;
      };
      round_vote = empty_round_vote;
      chain_validator = lookup addr by_cons;
    }
    ∷ validator_rows lib tx by_cons total (suc i) vs

abbrev pub moniker_in : Option ChainValidator → String
moniker_in none = ""
moniker_in (some cv) = cv.moniker

unfoldable pub tracker_validators :
    Texts → Map String ChainValidator → List ValidatorReply → List ValidatorPower
tracker_validators tx by_cons [] = []
tracker_validators tx by_cons (v ∷ vs) =
    let addr = tx.to_upper v.address in
    record { address = addr; power = v.voting_power; moniker = moniker_in (lookup addr by_cons) }
    ∷ tracker_validators tx by_cons vs

-- The chain's validators: the new ones, or where they could not be had the old ones.
abbrev pub chain_validators_of : Reply (List ChainValidator) → StateData → List ChainValidator
chain_validators_of (answered cvs _) s = cvs
chain_validators_of (refused _) s = s.chain_validators

unfoldable pub take_validators :
    Library
    → Texts
    → Time
    → List ValidatorReply
    → ℤ
    → List ChainValidator
    → Orchestrator
    → Orchestrator
take_validators lib tx now vs height cvs o =
    let total = total_power vs in
    let by_cons = by_consensus cvs [] in
    let (s, accepted) =
      merge_validator_round o.state (validator_rows lib tx by_cons total 0 vs) total height in
    if not accepted
    then set_state now s o
    else (let o1 = set_state now (record s { validators_error = none; chain_validators = cvs }) o in
        publish (validator_set_updated height)
          (record o1 { tracker = set_validators o.tracker (tracker_validators tx by_cons vs) }))

unfoldable pub refresh_validators :
    Library
    → Texts
    → Time
    → Reply (List ValidatorReply × ℤ)
    → Reply (List ChainValidator)
    → Orchestrator
    → Orchestrator
refresh_validators lib tx now (refused err) chain o = fail_validators now err o
refresh_validators lib tx now (answered ([], height) endpoint) chain o =
    fail_validators now "RPC returned an empty validator set" o
refresh_validators lib tx now (answered (v ∷ vs, height) endpoint) chain o =
    take_validators lib tx now (v ∷ vs) height (chain_validators_of chain o.state) o

module _ (fl : Floats) where
  unfoldable pub take_block : Time → ℤ → BlockReply → String → Orchestrator → Orchestrator
  take_block now height block endpoint o =
      let sample : BlockSample = record {
        height = height;
        time = block.time;
        block_id_hash = block.block_id_hash;
        app_hash = block.app_hash;
        num_txs = block.num_txs;
        block_time_ms = pos 0;
      } in
      let o1 = set_state now (record_http_success now (append_block o.state sample) endpoint) o in
      let (tracker, resolved) = resolve_commit fl now o.tracker height block.block_id_hash in
      publish (status_updated "" "" "" false height)
        (publish_resolved resolved (record o1 { tracker = tracker }))

  unfoldable pub refresh_latest_block : Time → ℤ → Reply BlockReply → Orchestrator → Orchestrator
  refresh_latest_block now height (refused err) o = o
  refresh_latest_block now height (answered block endpoint) o =
      if leb height (pos 0) || has_reached height o.state.blocks
      then o
      else if not (eqb block.height height) || other_chain o.state block.chain_id
      then o
      else take_block now height block endpoint o

  unfoldable pub take_status :
      Texts → Time → StatusReply → String → Reply BlockReply → Orchestrator → Orchestrator
  take_status tx now st endpoint block o =
      let ns : NodeStatus = record {
        network = st.network;
        comet_version = st.version;
        app_version = "";
        moniker = st.moniker;
        our_validator = tx.to_upper st.address;
        catching_up = st.catching_up;
        latest_height = st.latest_height;
        latest_block_ts = st.latest_block_time;
      } in
      let s = commit_status st.latest_height (
        record_http_success now (record (o.state) { status_error = none; node_status = some ns })
          endpoint) in
      let o' =
        publish
          (status_updated ns.network ns.comet_version ns.our_validator ns.catching_up
            ns.latest_height)
          (set_state now s o) in
      elim (last? o.state.blocks) [
        | none ↦ refresh_latest_block now ns.latest_height block o'
        | some _ ↦
            if not o.state.health.ws_connected
            then refresh_latest_block now ns.latest_height block o'
            else o'
      ]

  unfoldable pub refresh_status :
      Texts → Time → Reply StatusReply → Reply BlockReply → Orchestrator → Orchestrator
  refresh_status tx now (refused err) block o = fail_status now err o
  refresh_status tx now (answered st endpoint) block o =
      if other_chain o.state st.network
      then fail_status now "RPC chain differs from established chain" o
      else take_status tx now st endpoint block o

-- The answer of `ConsensusState` with its height, round and step as one text.
unfoldable pub take_consensus : Time → String → ℤ × ℤ × ℤ → Orchestrator → Orchestrator
take_consensus now endpoint (height, round, step) o =
    let (s, accepted) = consensus_state now endpoint height round step o.state in
    let o1 = set_state now s o in
    if not accepted
    then o1
    else publish (round_changed height round step s.start_time "")
        (record o1 { tracker = observe_round now o.tracker height round "" })

unfoldable pub take_values : Time → String → ℤ × ℤ × ℤ → Orchestrator → Orchestrator
take_values now endpoint (height, round, step) o =
    if eqb height (pos 0)
    then fail_consensus now "consensus height is zero" o
    else take_consensus now endpoint (height, round, step) o

unfoldable pub refresh_consensus_via_http :
    Library → Time → Reply String → Orchestrator → Orchestrator
refresh_consensus_via_http lib now (refused err) o = fail_consensus now err o
refresh_consensus_via_http lib now (answered text endpoint) o =
    elim (three_values (map lib.parse_int (lib.split text "/"))) [
      | none ↦ fail_consensus now "invalid consensus height/round/step" o
      | some values ↦ take_values now endpoint values o
    ]
