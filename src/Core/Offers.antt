-- ===== src/Core/Offers.antt =====
-- What an endpoint offers for the comparison of internal/core/comparison.go.
use cmt_top.Base.{
  ◌≡◌, refl, ◌⊎◌, inl, inr, true, false, not, ◌&&◌, String, List, [], ◌∷◌, Option, none, some, ◌==◌,
  String_eq, if◌then◌else◌, Bool-cases,
}
use cmt_top.Base.Int.{ℤ, pos, ltb, eqb}
use cmt_top.State.Types.{compared, match, mismatch, EndpointResult}
use cmt_top.Core.Replies.{Reply, answered, refused, StatusReply, BlockReply}
use cmt_top.Core.Comparison.{is_status, status_row, block_row, fetch_row}

-- The hash of a block's header, if it is the block at the height of the chain.
unfoldable pub block_hash : ℤ → String → Reply BlockReply → Option String
block_hash height chain (refused err) = none
block_hash height chain (answered b _) =
    if eqb b.height height && b.chain_id == chain then some b.app_hash else none

-- The hash that an endpoint offers at a height of a chain: it says that it is on the chain and has
-- reached the height, and it gives the block.
unfoldable pub offer : ℤ → String → Reply StatusReply → Reply BlockReply → Option String
offer height chain (refused err) block = none
offer height chain (answered st _) block =
    if st.network == chain && not (ltb st.latest_height height)
    then block_hash height chain block
    else none

-- Height, chain and hash that the others are compared with: the latest block of the primary
-- endpoint, if it offers that.
abbrev pub reference_at : StatusReply → Option String → Option (ℤ × String × String)
reference_at st none = none
reference_at st (some hash) =
    if ltb (pos 0) st.latest_height then some (st.latest_height, st.network, hash) else none

abbrev pub reference_of : Reply StatusReply → Reply BlockReply → Option (ℤ × String × String)
reference_of (refused err) block = none
reference_of (answered st x) block =
    reference_at st (offer st.latest_height st.network (answered st x) block)

abbrev pub Any : (String → Type 0) → List String → Type 0
Any P [] = ⊥
Any P (x ∷ xs) = P x ⊎ Any P xs

-- Either the row holds the hash, or there is none and the row is neither a match nor a mismatch.
abbrev pub Holds : Option String → EndpointResult → Type 0
Holds hash row =
    ((is_status compared row ≡ true) × (hash ≡ some row.app_hash))
    ⊎ ((is_status compared row ≡ false)
        × (is_status match row ≡ false)
        × (is_status mismatch row ≡ false)
        × (hash ≡ none))

block_row-Holds :
    (height : ℤ) (chain : String) (b : Reply BlockReply) (row : EndpointResult)
    → Holds (block_hash height chain b) (block_row height chain b row)
unfolding block_row block_hash
block_row-Holds height chain (refused err) row = inr (refl, refl, refl, refl)
block_row-Holds height chain (answered b x) row = elim (Bool-cases (eqb b.height height)) [
  | inr other ↦ rw other (inr (refl, refl, refl, refl))
  | inl same ↦ elim (Bool-cases (b.chain_id == chain)) [
    | inr other ↦ rw (same, other) (inr (refl, refl, refl, refl))
    | inl here ↦ rw (same, here) (inl (refl, refl))
  ]
]

pub fetch_row-Holds :
    (height : ℤ) (chain url : String) (s : Reply StatusReply) (block : String → Reply BlockReply)
    → Holds (offer height chain s (block url)) (fetch_row height chain block (status_row url s))
unfolding fetch_row status_row offer
fetch_row-Holds height chain url (refused err) block = inr (refl, refl, refl, refl)
fetch_row-Holds height chain url (answered st x) block = elim (Bool-cases (st.network == chain)) [
  | inr other ↦ rw other (inr (refl, refl, refl, refl))
  | inl same ↦ elim (Bool-cases (ltb st.latest_height height)) [
    | inl behind ↦ rw (same, behind) (inr (refl, refl, refl, refl))
    | inr there ↦ rw (same, there) (block_row-Holds height chain (block url) _)
  ]
]
