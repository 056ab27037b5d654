-- ===== src/Core/Preserved.antt =====
-- The handlers and pollers of internal/core/orchestrator.go keep the state sound.

use cmt_top.Base.{
  ◌≡◌, refl, inl, inr, false, not, ◌&&◌, Option, none, some, arith, String, if◌then◌else◌,
  Bool-cases,
}
use cmt_top.Base.Int.{
  ℤ, pos, ltb, leb, eqb_iff, max_int32, max_int64, add64, add64_lem, ◌+ℤ◌, +ℤ_parts, ◌≤ℤ◌, ◌<ℤ◌,
}
use cmt_top.State.Types.{Time, Vote, RoundView, BlockSample, StateData}
use cmt_top.Divergence.Types.{VoteType, VoteEvent}
use cmt_top.Core.Transitions.{
  clear_round_votes, is_stale, is_same_round, enter_round, advance_round, append_block,
  record_http_success,
}
use cmt_top.Core.Transitions.Blocks.{IsHistory, append_block-IsHistory}
use cmt_top.Core.Handlers.{is_known_block, commit_state, vote_view, vote_state}
use cmt_top.Core.Replies.{commit_status, consensus_state, is_streaming}
use cmt_top.Core.Invariant.{
  InSync, IsSound, clear_round_votes-InSync, set_round-InSync, advance_round-IsSound,
  append_block-keeps,
}

-- A move to a height above the committed one makes the height open again.
opens :
    (now : Time) (s : StateData) (next : ℤ)
    → IsHistory s.blocks
    → pos 0 ≤ℤ s.last_committed_height
    → s.last_committed_height <ℤ next
    → pos 0 ≤ℤ s.round
    → s.round ≤ℤ max_int32
    → InSync s.last_round s.round
    → IsSound (advance_round now s next (pos 0) (pos 1)).0
unfolding advance_round is_stale enter_round
opens now s next hist c lt r0 r1 sync = elim (Bool-cases (is_stale s next (pos 0))) [
  | inl stale ↦ rw stale (record {
    history = hist;
    is_open = inr (ground (arith, eqb_iff next s.height));
    committed_from_zero = c;
    from_zero = r0;
    in_range = r1;
    in_sync = sync;
  })
  | inr taken ↦ elim (Bool-cases (is_same_round s next (pos 0))) [
    | inl same ↦
        let b : IsSound s = record {
          history = hist;
          is_open = inr (ground (arith, eqb_iff next s.height));
          committed_from_zero = c;
          from_zero = r0;
          in_range = r1;
          in_sync = sync;
        } in
        elim (Bool-cases (ltb s.step (pos 1))) [
          | inl later ↦ rw (taken, same, later) b
          | inr held ↦ rw (taken, same, held) b
        ]
    | inr moved ↦
        rw (taken, moved)
          (record {
            history = hist;
            is_open = inr lt;
            committed_from_zero = c;
            from_zero = ground arith;
            in_range = ground arith;
            in_sync = set_round-InSync (clear_round_votes s.last_round) (pos 0);
          })
  ]
]

next_height : (h : ℤ) → pos 0 <ℤ h → h <ℤ max_int64 → h <ℤ add64 h (pos 1)
next_height h lo hi =
    let e : add64 h (pos 1) ≡ h +ℤ pos 1 =
      add64_lem h (pos 1) (ground (arith, +ℤ_parts h (pos 1)))
        (ground (arith, +ℤ_parts h (pos 1))) in
    rw e (ground (arith, +ℤ_parts h (pos 1)))

pub commit_state-IsSound :
    (now : Time) (b : BlockSample) (s : StateData)
    → pos 0 <ℤ b.height
    → b.height <ℤ max_int64
    → is_known_block b.height s ≡ false
    → IsSound s
    → IsSound (commit_state now b s)
unfolding commit_state is_known_block
commit_state-IsSound now b s lo hi known h =
    let s1 : StateData = record s {
      last_committed_height =
          if ltb s.last_committed_height b.height then b.height else s.last_committed_height;
    } in
    let k = append_block-keeps s1 b in
    let up = next_height b.height lo hi in
    opens now (append_block s1 b) (add64 b.height (pos 1)) (append_block-IsHistory s1 b h.history)
      (rw k.2 (ground (arith, h.committed_from_zero))) (rw k.2 (ground (arith, up)))
      (rw k.1 h.from_zero) (rw k.1 h.in_range) (rw (k.1, k.3) h.in_sync)

vote_view-InSync :
    (vt : VoteType) (addr : String) (cell : Vote) (o : Option RoundView) (round : ℤ)
    → InSync o round
    → InSync (vote_view vt addr cell o).0 round
unfolding vote_view
vote_view-InSync vt addr cell none round h = tt
vote_view-InSync vt addr cell (some rv) round h = h

pub vote_state-IsSound :
    (now : Time) (vt : VoteType) (step : ℤ) (v : VoteEvent) (cell : Vote) (s : StateData)
    → IsSound s
    → IsSound (vote_state now vt step v cell s).0
unfolding vote_state
vote_state-IsSound now vt step v cell s h =
    let r = advance_round now s v.height v.round step in
    let a : IsSound r.0 = advance_round-IsSound now s v.height v.round step h in
    elim (Bool-cases r.1) [
      | inr late ↦ rw late a
      | inl taken ↦ rw taken (record {
        history = a.history;
        is_open = a.is_open;
        committed_from_zero = a.committed_from_zero;
        from_zero = a.from_zero;
        in_range = a.in_range;
        in_sync = vote_view-InSync vt v.validator_addr cell r.0.last_round r.0.round a.in_sync;
      })
    ]

pub commit_status-IsSound :
    (latest : ℤ) (s : StateData) → IsSound s → IsSound (commit_status latest s)
unfolding commit_status
commit_status-IsSound latest s h = elim (Bool-cases (ltb s.last_committed_height latest)) [
  | inr old ↦ rw old h
  | inl up ↦ elim (Bool-cases (ltb (pos 0) s.height)) [
    | inr unknown ↦
        rw (up, unknown)
          (record {
            history = h.history;
            is_open = inl (ground arith);
            committed_from_zero = ground arith;
            from_zero = h.from_zero;
            in_range = h.in_range;
            in_sync = h.in_sync;
          })
    | inl known ↦ elim (Bool-cases (leb s.height latest)) [
      | inl behind ↦
          rw (up, known, behind)
            (record {
              history = h.history;
              is_open = inl refl;
              committed_from_zero = ground arith;
              from_zero = ground arith;
              in_range = ground arith;
              in_sync = set_round-InSync (clear_round_votes s.last_round) (pos 0);
            })
      | inr ahead ↦
          rw (up, known, ahead)
            (record {
              history = h.history;
              is_open = inr (ground arith);
              committed_from_zero = ground arith;
              from_zero = h.from_zero;
              in_range = h.in_range;
              in_sync = h.in_sync;
            })
    ]
  ]
]

pub consensus_state-IsSound :
    (now : Time) (endpoint : String) (height round step : ℤ) (s : StateData)
    → IsSound s
    → IsSound (consensus_state now endpoint height round step s).0
unfolding consensus_state record_http_success
consensus_state-IsSound now endpoint height round step s h =
    let s1 : StateData = record_http_success now (record s { consensus_error = none }) endpoint in
    let r = advance_round now s1 height round step in
    let a : IsSound r.0 = advance_round-IsSound now s1 height round step h in
    elim (Bool-cases (is_streaming now s)) [
      | inl live ↦ rw live h
      | inr fallback ↦ elim (Bool-cases (r.1 && not (is_streaming now r.0))) [
        | inr kept ↦ rw (fallback, kept) a
        | inl cleared ↦
            rw (fallback, cleared)
              (record {
                history = a.history;
                is_open = a.is_open;
                committed_from_zero = a.committed_from_zero;
                from_zero = a.from_zero;
                in_range = a.in_range;
                in_sync = clear_round_votes-InSync r.0.last_round r.0.round a.in_sync;
              })
      ]
    ]
