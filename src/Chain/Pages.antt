-- ===== src/Chain/Pages.antt =====
-- internal/chain/cometrpc/client.go: the validator set, a page at a time, through the pool. A
-- request of one page to one endpoint is `ask`, the client's and the circuit breaker's.
use cmt_top.Base.{
  ℕ, zero, suc, ◌+◌, Bool, true, false, not, ◌&&◌, ◌||◌, String, List, [], ◌∷◌, ◌++◌, Option, none,
  some, String_eq, if◌then◌else◌, length,
}
use cmt_top.Base.{leb as nat_leb}
use cmt_top.Base.Int.{ℤ, pos, negsuc, ltb, leb, eqb}
use cmt_top.Base.Maps.{Map, lookup, insert}
use cmt_top.Chain.Pool.{
  Endpoint, Pool, Failure, other_height, inconsistent_total, incomplete, duplicate, Result, ok,
  failed, do_request,
}

-- What the code reads of a validator.
pub record Validator : Type 0 where
  pub address : String
  pub voting_power : ℤ

pub record ResultValidators : Type 0 where
  pub block_height : ℤ
  pub validators : List Validator
  pub total : ℤ

abbrev pub per_page : ℕ
per_page = 100

-- The variables of the loop. `seen` holds the addresses that are marked.
pub record Progress : Type 0 where
  pub page : ℕ
  pub collected : List Validator
  pub pinned_height : ℤ
  pub seen : Map String Bool
  pub expected_total : ℤ

abbrev pub marked : String → Map String Bool → Bool
marked addr seen = elim (lookup addr seen) [ none ↦ false | some b ↦ b ]

-- The addresses of a page marked, or `none` where one was marked before.
unfoldable pub mark_page : List Validator → Map String Bool → Option (Map String Bool)
mark_page [] seen = some seen
mark_page (v ∷ vs) seen =
    if marked v.address seen then none else mark_page vs (insert v.address true seen)

-- What one page makes of the loop: an error, the whole set, or the next page.
pub data Verdict : Type 0 where
  wrong : Failure → Verdict
  whole : List Validator → ℤ → Verdict
  more : Progress → Verdict

unfoldable pub is_inconsistent : List Validator → ResultValidators → ℤ → Bool
is_inconsistent collected res expected =
    not (eqb res.total expected)
    || ltb res.total (pos 0)
    || ltb expected (pos (length collected + length res.validators))

unfoldable pub take_page : Progress → ResultValidators → Verdict
take_page g res =
    let pinned = if eqb g.pinned_height (pos 0) then res.block_height else g.pinned_height in
    let expected = if ltb g.expected_total (pos 0) then res.total else g.expected_total in
    if not (eqb res.block_height pinned)
    then wrong other_height
    else if is_inconsistent g.collected res expected
    then wrong inconsistent_total
    else if nat_leb (length res.validators) 0 && ltb (pos (length g.collected)) expected
    then wrong incomplete
    else elim (mark_page res.validators g.seen) [
      | none ↦ wrong duplicate
      | some seen ↦
          (let all = g.collected ++ res.validators in
            if leb res.total (pos (length all)) || nat_leb (length res.validators) 0
            then whole all res.block_height
            else more (record {
              page = suc g.page;
              collected = all;
              pinned_height = pinned;
              seen = seen;
              expected_total = expected;
            }))
    ]

-- The height that a page is asked at: the pinned one if it is positive, or the caller's.
abbrev pub request_height : Option ℤ → Progress → Option ℤ
request_height height g = if ltb (pos 0) g.pinned_height then some g.pinned_height else height

abbrev pub first_progress : Option ℤ → Progress
first_progress height = record {
  page = 1;
  collected = [];
  pinned_height = elim height [ none ↦ pos 0 | some h ↦ h ];
  seen = [];
  expected_total = negsuc 0;
}

-- How the loop ends; `none` stands for a loop that has not ended in the rounds given to it.
module _ {ℓ} {W : Type ℓ}
    (ask : Option ℤ → ℕ → ℕ → Endpoint → W → W × Result ResultValidators) where
  unfoldable pub validators :
      Option ℤ → ℕ → Pool → W → W × Pool × Result (ResultValidators × String)
  validators height page = do_request (ask height page per_page)

  unfoldable pub collect :
      Option ℤ → ℕ → Progress → Pool → W → W × Pool × Option (Result (List Validator × ℤ × String))
  collect height zero g p w = (w, p, none)
  collect height (suc rounds) g p w =
      let r = validators (request_height height g) g.page p w in
      elim r.2 [
        | failed err ↦ (r.0, r.1, some (failed err))
        | ok (res, url) ↦ elim (take_page g res) [
          | wrong err ↦ (r.0, r.1, some (failed err))
          | whole all at ↦ (r.0, r.1, some (ok (all, at, url)))
          | more g' ↦ collect height rounds g' r.1 r.0
        ]
      ]

  -- A total is an `int`, and every page but the last brings a validator.
  unfoldable pub all_validators :
      Option ℤ → Pool → W → W × Pool × Option (Result (List Validator × ℤ × String))
  all_validators height = collect height 9223372036854775809 (first_progress height)
