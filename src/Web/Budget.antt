-- ===== src/Web/Budget.antt =====
-- internal/web/budget.go: the address that a request is counted for. Addresses and prefixes are those
-- of `net/netip`, with its parser, `Unmap`, `Contains` and the printing of `quotaIP` as parameters.
use Prim.Native.String.{len}
use mathlib.Core.List.{append-nil, append_assoc}
use cmt_top.Base.{
  Bool, true, false, not, ◌||◌, String, List, [], ◌∷◌, ◌++◌, Option, none, some, ◌==◌, String_eq,
  if◌then◌else◌, length, any_of, length-append, ◌≡◌, ◌⊎◌, refl, sym, ap, ◌∙◌, inl, inr, Bool-cases,
  Option-cases, arith,
}
use cmt_top.Base.{◌≤◌, ◌<◌}
use cmt_top.Base.{ltb as nat_ltb}
use cmt_top.Config.Text.{trim_space, split_commas}

pub record Netip {ℓ κ} (A : Type ℓ) (R : Type κ) : Type (ℓ ⊔ κ) where
  -- The host of "host:port", or the text itself where it does not split.
  pub host_of : String → String
  -- `ParseAddr` and `Unmap`.
  pub parse_addr : String → Option A
  pub contains : R → A → Bool
  pub quota_ip : A → String

-- The hops from the last to the first.
abbrev pub backward : List String → List String
backward [] = []
backward (hop ∷ hops) = backward hops ++ hop ∷ []

backward-append :
    (front hops : List String) → backward (front ++ hops) ≡ backward hops ++ backward front
backward-append [] hops = sym (append-nil (backward hops))
backward-append (hop ∷ front) hops =
    ap (λ l. l ++ hop ∷ []) (backward-append front hops)
    ∙ append_assoc (backward hops) (backward front) (hop ∷ [])

module _ {ℓ κ} {A : Type ℓ} {R : Type κ} (net : Netip A R) (trusted : List R) where
  unfoldable pub is_trusted : A → Bool
  is_trusted ip = any_of (λ prefix. net.contains prefix ip) trusted

  -- The loop over the hops, the last one first; `none` where one does not parse.
  unfoldable pub walk : A → List String → Option A
  walk current [] = some current
  walk current (hop ∷ hops) =
      if not (is_trusted current)
      then some current
      else elim (net.parse_addr (trim_space hop)) [ none ↦ none | some next ↦ walk next hops ]

  -- The address that the hops of a header lead to, from the peer.
  unfoldable pub forwarded_addr : A → List String → A
  forwarded_addr peer hops =
      if nat_ltb 32 (length hops)
      then peer
      else elim (walk peer (backward hops)) [ none ↦ peer | some ip ↦ ip ]

  unfoldable pub client_addr : A → String → A
  client_addr peer raw =
      if not (is_trusted peer)
      then peer
      else if raw == "" || nat_ltb 2048 (len raw)
      then peer
      else forwarded_addr peer (split_commas raw)

  unfoldable pub client_ip : String → String → String
  client_ip remote_addr raw = elim (net.parse_addr (net.host_of remote_addr)) [
    | none ↦ "unknown"
    | some peer ↦ net.quota_ip (client_addr peer raw)
  ]

  -- The walk is decided by these hops: it comes to an address that is not trusted, or to a hop that
  -- does not parse.
  unfoldable pub is_decided : A → List String → Bool
  is_decided current [] = not (is_trusted current)
  is_decided current (hop ∷ hops) =
      if not (is_trusted current)
      then true
      else elim (net.parse_addr (trim_space hop)) [ none ↦ true | some next ↦ is_decided next hops ]

  walk-append :
      (current : A) (hops more : List String)
      → is_decided current hops ≡ true
      → walk current (hops ++ more) ≡ walk current hops
  unfolding walk is_decided
  walk-append current [] [] h = refl
  walk-append current [] (hop ∷ more) h = ground (arith, h)
  walk-append current (hop ∷ hops) more h = elim (Bool-cases (is_trusted current)) [
    | inr stranger ↦ rw stranger refl
    | inl friend ↦ elim (Option-cases (net.parse_addr (trim_space hop))) [
      | inl e ↦ rw (friend, e) refl
      | inr (next, e) ↦ rw (friend, e) (walk-append next hops more (rw (friend, e) at h))
    ]
  ]

  -- If the walk over some hops, the last one first, comes to an address that is not trusted or to a hop
  -- that does not parse, hops put in front of them leave the address as it is where they are at most
  -- 32 together, and where they are more the request counts for the peer.
  pub forwarded_addr-prepend :
      (peer : A) (front hops : List String)
      → is_decided peer (backward hops) ≡ true
      → ((length (front ++ hops) ≤ 32)
          × (forwarded_addr peer (front ++ hops) ≡ forwarded_addr peer hops))
        ⊎ ((32 < length (front ++ hops)) × (forwarded_addr peer (front ++ hops) ≡ peer))
  unfolding forwarded_addr
  forwarded_addr-prepend peer front hops h =
      elim (Bool-cases (nat_ltb 32 (length (front ++ hops)))) [
        | inl many ↦ inr (ground arith, rw many refl)
        | inr few ↦
            let fewer : nat_ltb 32 (length hops) ≡ false =
              ground (arith, few, length-append front hops) in
            let same : walk peer (backward (front ++ hops)) ≡ walk peer (backward hops) =
              ap (walk peer) (backward-append front hops)
              ∙ walk-append peer (backward hops) (backward front) h in
            inl (ground (arith, few), rw (few, fewer, same) refl)
      ]
