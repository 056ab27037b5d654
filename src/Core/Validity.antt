-- ===== src/Core/Validity.antt =====
-- The pollers of internal/core/orchestrator.go keep the state sound and the archive bounded.
use cmt_top.Base.{
  ◌≡◌, refl, inl, inr, not, ◌||◌, List, [], ◌∷◌, map, none, some, String, String_eq, ℕ_eq, last?,
  Bool-cases, Option-cases,
}
use cmt_top.Base.Int.{ℤ, pos, leb, eqb}
use cmt_top.State.Types.{Time, ChainValidator}
use cmt_top.Divergence.Types.{RoundReport, Floats}
use cmt_top.Divergence.Validators.{new}
use cmt_top.Divergence.Bounds.{IsBounded}
use cmt_top.Divergence.VoteBounds.{observe_round-IsBounded}
use cmt_top.Divergence.Runs.{set_validators-IsBounded, resolve_commit-IsBounded}
use cmt_top.Core.Transitions.{merge_validator_round, record_http_success}
use cmt_top.Core.Notices.{Orchestrator, Texts, publish}
use cmt_top.Core.Handlers.{publish_resolved}
use cmt_top.Core.Replies.{
  Reply, answered, refused, Library, StatusReply, BlockReply, ValidatorReply, fail_status,
  fail_validators, fail_consensus, is_streaming, refresh_upgrade, refresh_block_time, three_values,
  total_power, by_consensus, other_chain, consensus_state, has_reached,
}
use cmt_top.Core.Pollers.{
  validator_rows, tracker_validators, chain_validators_of, take_validators, refresh_validators,
  take_block, refresh_latest_block, take_status, refresh_status, take_consensus, take_values,
  refresh_consensus_via_http,
}
use cmt_top.Core.Invariant.{IsSound, append_block-IsSound, merge_validator_round-IsSound}
use cmt_top.Core.Preserved.{commit_status-IsSound, consensus_state-IsSound}

-- A sound state beside a bounded archive.
abbrev pub IsValid : Orchestrator → Type 0
IsValid o = IsSound o.state × IsBounded o.tracker

publish_resolved-keeps :
    (rs : List RoundReport) (o : Orchestrator)
    → ((publish_resolved rs o).state ≡ o.state) × ((publish_resolved rs o).tracker ≡ o.tracker)
unfolding publish_resolved
publish_resolved-keeps [] o = (refl, refl)
publish_resolved-keeps (r ∷ rs) o = elim (Bool-cases r.is_divergent) [
  | inl d ↦ rw d (publish_resolved-keeps rs (publish _ o))
  | inr q ↦ rw q (publish_resolved-keeps rs o)
]

pub publish_resolved-IsValid :
    (rs : List RoundReport) (o : Orchestrator) → IsValid o → IsValid (publish_resolved rs o)
publish_resolved-IsValid rs o h = let k = publish_resolved-keeps rs o in rw (k.0, k.1) h

fail_consensus-IsValid :
    (now : Time) (err : String) (o : Orchestrator) → IsValid o → IsValid (fail_consensus now err o)
unfolding fail_consensus
fail_consensus-IsValid now err o h = elim (Bool-cases (is_streaming now o.state)) [
  | inl live ↦ rw live h
  | inr fallback ↦ rw fallback h
]

pub refresh_upgrade-IsValid :
    (now : Time) (r : Reply _) (o : Orchestrator) → IsValid o → IsValid (refresh_upgrade now r o)
unfolding refresh_upgrade
refresh_upgrade-IsValid now (refused err) o h = h
refresh_upgrade-IsValid now (answered none endpoint) o h = h
refresh_upgrade-IsValid now (answered (some u) endpoint) o h = h

pub refresh_block_time-IsValid :
    (now : Time) (st : Reply StatusReply) (latest earlier : Reply BlockReply) (o : Orchestrator)
    → IsValid o
    → IsValid (refresh_block_time now st latest earlier o)
unfolding refresh_block_time
refresh_block_time-IsValid now (answered st e) (answered latest f) (answered earlier g) o h =
    elim (Bool-cases (leb st.latest_height (pos 100))) [ inl few ↦ rw few h | inr many ↦ rw many h ]
refresh_block_time-IsValid now (answered st e) (answered latest f) (refused g) o h = h
refresh_block_time-IsValid now (answered st e) (refused f) g o h = h
refresh_block_time-IsValid now (refused e) f g o h = h

take_validators-IsValid :
    (lib : Library) (tx : Texts) (now : Time) (vs : List ValidatorReply) (height : ℤ)
    (cvs : List ChainValidator) (o : Orchestrator)
    → IsValid o
    → IsValid (take_validators lib tx now vs height cvs o)
unfolding take_validators
take_validators-IsValid lib tx now vs height cvs o h =
    let total = total_power vs in
    let by_cons = by_consensus cvs [] in
    let rows = validator_rows lib tx by_cons total 0 vs in
    let s : IsSound (merge_validator_round o.state rows total height).0 =
      merge_validator_round-IsSound o.state rows total height h.0 in
    let t = set_validators-IsBounded o.tracker (tracker_validators tx by_cons vs) h.1 in
    elim (Bool-cases (merge_validator_round o.state rows total height).1) [
      | inr old ↦ rw old (s, h.1)
      | inl new ↦ rw new (s, t)
    ]

pub refresh_validators-IsValid :
    (lib : Library) (tx : Texts) (now : Time) (r : Reply (List ValidatorReply × ℤ))
    (chain : Reply (List ChainValidator)) (o : Orchestrator)
    → IsValid o
    → IsValid (refresh_validators lib tx now r chain o)
unfolding refresh_validators fail_validators
refresh_validators-IsValid lib tx now (refused err) chain o h = h
refresh_validators-IsValid lib tx now (answered ([], height) e) chain o h = h
refresh_validators-IsValid lib tx now (answered (v ∷ vs, height) e) chain o h =
    take_validators-IsValid lib tx now (v ∷ vs) height (chain_validators_of chain o.state) o h

take_consensus-IsValid :
    (now : Time) (endpoint : String) (v : ℤ × ℤ × ℤ) (o : Orchestrator)
    → IsValid o
    → IsValid (take_consensus now endpoint v o)
unfolding take_consensus
take_consensus-IsValid now endpoint (height, round, step) o h =
    let r = consensus_state now endpoint height round step o.state in
    let s : IsSound r.0 = consensus_state-IsSound now endpoint height round step o.state h.0 in
    elim (Bool-cases r.1) [
      | inr late ↦ rw late (s, h.1)
      | inl taken ↦ rw taken (s, observe_round-IsBounded now o.tracker height round "" h.1)
    ]

take_values-IsValid :
    (now : Time) (endpoint : String) (v : ℤ × ℤ × ℤ) (o : Orchestrator)
    → IsValid o
    → IsValid (take_values now endpoint v o)
unfolding take_values
take_values-IsValid now endpoint (height, round, step) o h =
    elim (Bool-cases (eqb height (pos 0))) [
      | inl none_ ↦ rw none_ (fail_consensus-IsValid now "consensus height is zero" o h)
      | inr some_ ↦ rw some_ (take_consensus-IsValid now endpoint (height, round, step) o h)
    ]

pub refresh_consensus-IsValid :
    (lib : Library) (now : Time) (r : Reply String) (o : Orchestrator)
    → IsValid o
    → IsValid (refresh_consensus_via_http lib now r o)
unfolding refresh_consensus_via_http
refresh_consensus-IsValid lib now (refused err) o h = fail_consensus-IsValid now err o h
refresh_consensus-IsValid lib now (answered text endpoint) o h =
    elim (Option-cases (three_values (map lib.parse_int (lib.split text "/")))) [
      | inl e ↦
          rw (e, refresh_consensus_via_http)
            (fail_consensus-IsValid now "invalid consensus height/round/step" o h)
      | inr (v, e) ↦ rw (e, refresh_consensus_via_http) (take_values-IsValid now endpoint v o h)
    ]

module _ (fl : Floats) where
  take_block-IsValid :
      (now : Time) (height : ℤ) (block : BlockReply) (endpoint : String) (o : Orchestrator)
      → IsValid o
      → IsValid (take_block fl now height block endpoint o)
  unfolding take_block record_http_success
  take_block-IsValid now height block endpoint o h = publish_resolved-IsValid _ _ (
    append_block-IsSound o.state _ h.0,
    resolve_commit-IsBounded fl now o.tracker height block.block_id_hash h.1,
  )

  refresh_latest_block-IsValid :
      (now : Time) (height : ℤ) (r : Reply BlockReply) (o : Orchestrator)
      → IsValid o
      → IsValid (refresh_latest_block fl now height r o)
  unfolding refresh_latest_block
  refresh_latest_block-IsValid now height (refused err) o h = h
  refresh_latest_block-IsValid now height (answered block endpoint) o h =
      elim (Bool-cases (leb height (pos 0) || has_reached height o.state.blocks)) [
        | inl there ↦ rw there h
        | inr ahead ↦
            elim (Bool-cases
              (not (eqb block.height height) || other_chain o.state block.chain_id)) [
                | inl other ↦ rw (ahead, other) h
                | inr same ↦ rw (ahead, same) (take_block-IsValid now height block endpoint o h)
              ]
      ]

  take_status-IsValid :
      (tx : Texts) (now : Time) (st : StatusReply) (endpoint : String) (block : Reply BlockReply)
      (o : Orchestrator)
      → IsValid o
      → IsValid (take_status fl tx now st endpoint block o)
  unfolding take_status record_http_success
  take_status-IsValid tx now st endpoint block o h =
      let s = commit_status-IsSound st.latest_height _ h.0 in
      elim (Option-cases (last? o.state.blocks)) [
        | inl e ↦
            rw (e, take_status) (refresh_latest_block-IsValid now st.latest_height block _ (s, h.1))
        | inr (b, e) ↦ elim (Bool-cases (not o.state.health.ws_connected)) [
          | inl lost ↦
              rw (e, take_status)
                (rw lost (refresh_latest_block-IsValid now st.latest_height block _ (s, h.1)))
          | inr open_ ↦ rw (e, take_status) (rw open_ (s, h.1))
        ]
      ]

  pub refresh_status-IsValid :
      (tx : Texts) (now : Time) (r : Reply StatusReply) (block : Reply BlockReply)
      (o : Orchestrator)
      → IsValid o
      → IsValid (refresh_status fl tx now r block o)
  unfolding refresh_status fail_status
  refresh_status-IsValid tx now (refused err) block o h = h
  refresh_status-IsValid tx now (answered st endpoint) block o h =
      elim (Bool-cases (other_chain o.state st.network)) [
        | inl other ↦ rw other h
        | inr same ↦ rw same (take_status-IsValid tx now st endpoint block o h)
      ]
