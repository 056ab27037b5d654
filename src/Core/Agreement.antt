-- ===== src/Core/Agreement.antt =====
-- What the comparison of internal/core/comparison.go concludes from the answers of the endpoints.
use cmt_top.Base.{
  ap, ◌∙◌, ◌≡◌, ◌≢◌, refl, ◌⊎◌, inl, inr, true, false, String, List, [], ◌∷◌, map, Option, none,
  some, ◌==◌, String_eq, any_of, length, nat_eqb, keep, arith, All, Bool-cases, length-keep-le,
}
use cmt_top.Base.{ltb as nat_ltb}
use text.Mathlib.TextEquality.{eq_iff}
use cmt_top.Base.Int.{ℤ, pos, ltb}
use cmt_top.State.Types.{
  Time, match, mismatch, CompareStatus, incomplete, matching, mismatching, not_configured,
  EndpointResult, RpcComparison,
}
use cmt_top.Core.Replies.{Reply, answered, refused, StatusReply, BlockReply}
use cmt_top.Core.Comparison.{
  distinct, is_status, status_row, fetch_row, judge_row, verdict, judge, compare_rows, compare,
}
use cmt_top.Core.Offers.{offer, reference_at, reference_of, Any, Holds, fetch_row-Holds}

module _ (status : String → Reply StatusReply) (block : String → Reply BlockReply) where
  abbrev pub Agrees : ℤ → String → String → String → Type 0
  Agrees height chain hash url = offer height chain (status url) (block url) ≡ some hash

  abbrev pub Differs : ℤ → String → String → String → Type 0
  Differs height chain hash url =
      (other : String) × (offer height chain (status url) (block url) ≡ some other) × (other ≢ hash)

  -- A mismatch is another hash that some endpoint offers; a match is the same hash from every
  -- endpoint, of which there is one; anything else is incomplete.
  abbrev pub Concludes : ℤ → String → String → List String → CompareStatus → Type 0
  Concludes height chain hash urls mismatching = Any (Differs height chain hash) urls
  Concludes height chain hash urls matching = (urls ≢ []) × All (Agrees height chain hash) urls
  Concludes height chain hash urls incomplete =
      (¬ Any (Differs height chain hash) urls)
      × (¬ ((urls ≢ []) × All (Agrees height chain hash) urls))
  Concludes height chain hash urls not_configured = ⊥

  abbrev pub judged : ℤ → String → String → String → EndpointResult
  judged height chain hash url =
      judge_row hash (fetch_row height chain block (status_row url (status url)))

  -- What the row of an endpoint says of its offer.
  abbrev pub Tells : ℤ → String → String → String → EndpointResult → Type 0
  Tells height chain hash url row =
      ((is_status match row ≡ true)
        × (is_status mismatch row ≡ false)
        × Agrees height chain hash url)
      ⊎ ((is_status match row ≡ false)
          × (is_status mismatch row ≡ true)
          × Differs height chain hash url)
      ⊎ ((is_status match row ≡ false)
          × (is_status mismatch row ≡ false)
          × (offer height chain (status url) (block url) ≡ none))

  judged-Tells :
      (height : ℤ) (chain hash url : String)
      → Tells height chain hash url (judged height chain hash url)
  unfolding judge_row
  judged-Tells height chain hash url =
      let row = fetch_row height chain block (status_row url (status url)) in
      elim (fetch_row-Holds height chain url (status url) block) [
        | inr (c, m, n, e) ↦ rw c (inr (inr (m, n, e)))
        | inl (c, e) ↦ elim (Bool-cases (row.app_hash == hash)) [
          | inl same ↦
              rw (c, same) (inl (refl, refl, e ∙ ap some ((eq_iff row.app_hash hash).0 same)))
          | inr other ↦
              rw (c, other)
                (inr (
                  inl (
                    refl,
                    refl,
                    (row.app_hash, e, λ q. absurd (ground (arith, (eq_iff row.app_hash hash).1 q))),
                  )))
        ]
      ]

  not_both :
      (height : ℤ) (chain hash url : String)
      → Agrees height chain hash url
      → ¬ Differs height chain hash url
  not_both height chain hash url e (other, f, ne) = ne (cc (e, f))

  not_none :
      (height : ℤ) (chain hash url : String)
      → offer height chain (status url) (block url) ≡ none
      → ¬ Differs height chain hash url
  not_none height chain hash url e (other, f, ne) = absurd (cc (e, f))

  mismatch_found :
      (height : ℤ) (chain hash : String) (urls : List String)
      → any_of (is_status mismatch) (map (judged height chain hash) urls) ≡ true
      → Any (Differs height chain hash) urls
  mismatch_found height chain hash [] h = absurd (ground arith)
  mismatch_found height chain hash (url ∷ urls) h = elim (judged-Tells height chain hash url) [
    | inl (m, n, e) ↦ inr (mismatch_found height chain hash urls (ground arith))
    | inr (inl (m, n, d)) ↦ inl d
    | inr (inr (m, n, e)) ↦ inr (mismatch_found height chain hash urls (ground arith))
  ]

  mismatch_missing :
      (height : ℤ) (chain hash : String) (urls : List String)
      → any_of (is_status mismatch) (map (judged height chain hash) urls) ≡ false
      → ¬ Any (Differs height chain hash) urls
  mismatch_missing height chain hash [] h a = a
  mismatch_missing height chain hash (url ∷ urls) h a = elim (judged-Tells height chain hash url) [
    | inl (m, n, e) ↦ elim a [
      | inl d ↦ not_both height chain hash url e d
      | inr t ↦ mismatch_missing height chain hash urls (ground arith) t
    ]
    | inr (inl (m, n, d)) ↦ ground arith
    | inr (inr (m, n, e)) ↦ elim a [
      | inl d ↦ not_none height chain hash url e d
      | inr t ↦ mismatch_missing height chain hash urls (ground arith) t
    ]
  ]

  full_agreement :
      (height : ℤ) (chain hash : String) (urls : List String)
      → length (keep (is_status match) (map (judged height chain hash) urls))
        ≡ length (map (judged height chain hash) urls)
      → All (Agrees height chain hash) urls
  full_agreement height chain hash [] h = tt
  full_agreement height chain hash (url ∷ urls) h = elim (judged-Tells height chain hash url) [
    | inl (m, n, e) ↦ (e, full_agreement height chain hash urls (ground arith))
    | inr (inl (m, n, d)) ↦
        absurd
          (ground (arith, length-keep-le (is_status match) (map (judged height chain hash) urls)))
    | inr (inr (m, n, e)) ↦
        absurd
          (ground (arith, length-keep-le (is_status match) (map (judged height chain hash) urls)))
  ]

  agreement_full :
      (height : ℤ) (chain hash : String) (urls : List String)
      → All (Agrees height chain hash) urls
      → length (keep (is_status match) (map (judged height chain hash) urls))
        ≡ length (map (judged height chain hash) urls)
  agreement_full height chain hash [] h = refl
  agreement_full height chain hash (url ∷ urls) h = elim (judged-Tells height chain hash url) [
    | inl (m, n, e) ↦ ground (arith, agreement_full height chain hash urls h.1)
    | inr (inl (m, n, d)) ↦ absurd (not_both height chain hash url h.0 d)
    | inr (inr (m, n, e)) ↦ absurd (cc (e, h.0))
  ]

  verdict-Concludes :
      (height : ℤ) (chain hash : String) (urls : List String)
      → Concludes height chain hash urls (verdict (map (judged height chain hash) urls))
  unfolding verdict
  verdict-Concludes height chain hash [] = ((λ a. a), λ a. a.0 refl)
  verdict-Concludes height chain hash (url ∷ urls) =
      let rows = map (judged height chain hash) (url ∷ urls) in
      let has : nat_ltb 0 (length rows) ≡ true = ground arith in
      elim (Bool-cases (any_of (is_status mismatch) rows)) [
        | inl d ↦ rw d (mismatch_found height chain hash (url ∷ urls) d)
        | inr same ↦
            elim (Bool-cases (nat_eqb (length (keep (is_status match) rows)) (length rows))) [
              | inl full ↦
                  rw (same, has, full)
                    (
                      (λ e. absurd (cc e)),
                      full_agreement height chain hash (url ∷ urls) (ground (arith, full)),
                    )
              | inr part ↦
                  rw (same, has, part)
                    (
                      mismatch_missing height chain hash (url ∷ urls) same,
                      λ a.
                          absurd (
                            ground
                              (arith, part, agreement_full height chain hash (url ∷ urls) a.1)),
                    )
            ]
      ]

  -- What the comparison of a primary endpoint with the others says, from their answers alone.
  abbrev pub Explains : Option (ℤ × String × String) → List String → RpcComparison → Type 0
  Explains none urls rep = rep.status ≡ incomplete
  Explains (some (height, chain, hash)) urls rep =
      (rep.height ≡ height) × (rep.chain_id ≡ chain) × Concludes height chain hash urls rep.status

  map-judged :
      (height : ℤ) (chain hash : String) (urls : List String)
      → map
          (judge_row hash)
          (map (fetch_row height chain block) (map (λ url. status_row url (status url)) urls))
        ≡ map (judged height chain hash) urls
  map-judged height chain hash [] = refl
  map-judged height chain hash (url ∷ urls) = cc (map-judged height chain hash urls)

  judge-Explains :
      (now : Time) (st : StatusReply) (o : Option String) (ref : EndpointResult)
      (urls : List String)
      → ltb (pos 0) st.latest_height ≡ true
      → Holds o ref
      → Explains (reference_at st o) urls (
          judge now st.latest_height st.network ref (
            map
              (fetch_row st.latest_height st.network block)
              (map (λ url. status_row url (status url)) urls)))
  unfolding judge
  judge-Explains now st o ref urls up (inr (c, m, n, e)) = rw (e, c) refl
  judge-Explains now st o ref urls up (inl (c, e)) =
      rw (e, c, up)
        (
          refl,
          refl,
          rw (map-judged st.latest_height st.network ref.app_hash urls)
              (verdict-Concludes st.latest_height st.network ref.app_hash urls),
        )

  reference_at-none :
      (st : StatusReply) (o : Option String)
      → ltb (pos 0) st.latest_height ≡ false
      → reference_at st o ≡ none
  reference_at-none st none h = refl
  reference_at-none st (some hash) h = rw h refl

  compare_rows-Explains :
      (now : Time) (primary : String) (urls : List String) (s : Reply StatusReply)
      → Explains (reference_of s (block primary)) urls (
          compare_rows now block
            (status_row primary s)
            (map (λ url. status_row url (status url)) urls))
  unfolding compare_rows status_row
  compare_rows-Explains now primary urls (refused err) = refl
  compare_rows-Explains now primary urls (answered st x) =
      elim (Bool-cases (ltb (pos 0) st.latest_height)) [
        | inr zero_ ↦ rw (zero_, reference_at-none st _ zero_) refl
        | inl up ↦ rw up (
            judge-Explains now st _ _ urls up
              (fetch_row-Holds st.latest_height st.network primary (answered st x) block))
      ]

  -- The status of a comparison, from the answers of the endpoints alone. If the primary endpoint
  -- does not give the block at its own latest height, above zero and on its own chain, the status is
  -- `incomplete`. If it does, the comparison is at that height of that chain, and the status is
  -- `mismatching` exactly if another endpoint, which is on the chain and has reached the height,
  -- gives a block there with another application hash; `matching` exactly if there are other
  -- endpoints and all of them give the same hash; and `incomplete` otherwise.
  pub compare-Explains :
      (now : Time) (primary : String) (monitored : List String)
      → Explains
          (reference_of (status primary) (block primary))
          (distinct (primary ∷ []) monitored)
          (compare now status block primary monitored)
  unfolding compare
  compare-Explains now primary monitored =
      compare_rows-Explains now primary (distinct (primary ∷ []) monitored) (status primary)
