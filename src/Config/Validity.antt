-- ===== src/Config/Validity.antt =====
-- internal/config/config.go: the checks of `Validate`, which are all made where none refuses.
use cmt_top.Base.{
  ◌≡◌, ◌↔◌, ◌⊎◌, refl, inl, inr, subst, Bool, true, false, not, ◌&&◌, ◌||◌, List, [], ◌∷◌, ◌++◌,
  Option, none, some, ◌==◌, String_eq, if◌then◌else◌, All, arith,
}
use cmt_top.Base.Int.{ℤ, pos, ltb, leb, ◌<ℤ◌}
use cmt_top.Config.Text.{lowers_to, replace_from}
use cmt_top.Config.Types.{Config, primary_rpc}
use cmt_top.Config.Validate.{
  Parsers, Fault, Interval, interval_name, interval_of, require, ◌orelse◌, each, first_fault,
  is_http, validate_url, is_mode, is_percentage, validate, max_clients_fault, api_rate_limit_fault,
  no_rpc_fault, threshold_fault, history_size_fault, disabled_web_fault, web_listen_fault,
  metrics_listen_fault, trusted_proxy_fault, mode_fault, interval_fault, endpoint_fault,
}

-- An order of the loop that comes to an interval.
unfoldable pub Has : Interval → List Interval → Type 0
Has i [] = ⊥
Has i (j ∷ js) = (j ≡ i) ⊎ Has i js

module _ (ps : Parsers) (c : Config) where
  -- What the checks ask for, one by one.
  pub record Passes : Type 0 where
    pub has_clients : pos 0 <ℤ c.ui.web.max_clients
    pub has_rate : pos 0 <ℤ c.ui.web.api_rate_limit
    pub proxies_parse : All (λ cidr. ps.parse_prefix cidr ≡ true) c.ui.web.trusted_proxies
    pub has_rpc : (primary_rpc c == "") ≡ false
    pub knows_mode : is_mode ps c.ui.mode ≡ true
    pub in_range : is_percentage ps c.divergence.threshold_pct ≡ true
    pub intervals_pass : (i : Interval) → pos 0 <ℤ interval_of c.refresh i
    pub retains : pos 0 <ℤ c.divergence.history_size
    pub serves : (c.ui.web.disabled && lowers_to "web" c.ui.mode) ≡ false
    pub monitored_parse :
        All
          (λ url. is_http ps (ps.parse_url url) ≡ true)
          (c.chain.monitored_rpcs ++ primary_rpc c ∷ [])
    pub rpcs_parse : All (λ r. is_http ps (ps.parse_url r.url) ≡ true) c.chain.rpcs
    pub lcd_parses : (c.chain.lcd == "" || is_http ps (ps.parse_url c.chain.lcd)) ≡ true
    pub explorer_parses :
        (c.chain.explorer_url == ""
          || is_http ps
              (ps.parse_url (replace_from "{address}" "validator" 0 c.chain.explorer_url)))
        ≡ true
    pub web_listens : (c.ui.web.listen == "" || ps.split_host_port c.ui.web.listen) ≡ true
    pub metrics_listens :
        (c.obs.metrics_listen == "" || ps.split_host_port c.obs.metrics_listen) ≡ true

orelse_iff : (a b : Option Fault) → (a orelse b ≡ none) ↔ ((a ≡ none) × (b ≡ none))
orelse_iff none b = (λ e. (refl, e), λ e. e.1)
orelse_iff (some f) b = (λ e. absurd (ground arith), λ e. absurd (ground arith))

require_iff : (b : Bool) (f : Fault) → (require b f ≡ none) ↔ (b ≡ true)
require_iff true f = (λ e. refl, λ e. refl)
require_iff false f = (λ e. absurd (ground arith), λ e. absurd (ground arith))

unless_iff :
    (b d : Bool) (f : Fault) → ((if b then none else require d f) ≡ none) ↔ ((b || d) ≡ true)
unless_iff true d f = (λ e. refl, λ e. refl)
unless_iff false d f = require_iff d f

each_iff :
    {A : Type 0} (test : A → Bool) (fault : A → Fault) (xs : List A)
    → (each (λ x. require (test x) (fault x)) xs ≡ none) ↔ All (λ x. test x ≡ true) xs
unfolding each
each_iff test fault [] = (λ e. tt, λ a. refl)
each_iff test fault (x ∷ xs) =
    let (split, join) =
      orelse_iff (require (test x) (fault x)) (each (λ y. require (test y) (fault y)) xs) in
    let (there, back) = each_iff test fault xs in
    (
      λ e. ((require_iff (test x) (fault x)).0 (split e).0, there (split e).1),
      λ a. join ((require_iff (test x) (fault x)).1 a.0, back a.1),
    )

All-Has :
    (P : Interval → Type 0) (i : Interval) (order : List Interval) → Has i order → All P order → P i
unfolding Has
All-Has P i [] h a = absurd h
All-Has P i (j ∷ js) (inl e) a = subst P e a.0
All-Has P i (j ∷ js) (inr h) a = All-Has P i js h a.1

All-of_each : (P : Interval → Type 0) (order : List Interval) → ((i : Interval) → P i) → All P order
All-of_each P [] f = tt
All-of_each P (i ∷ is) f = (f i, All-of_each P is f)

first_fault_iff :
    (found : List (Option Fault)) → (first_fault found ≡ none) ↔ All (λ o. o ≡ none) found
unfolding first_fault
first_fault_iff [] = (λ e. tt, λ a. refl)
first_fault_iff (o ∷ found) =
    let (split, join) = orelse_iff o (first_fault found) in
    let (there, back) = first_fault_iff found in
    (λ e. ((split e).0, there (split e).1), λ a. join (a.0, back a.1))

positive_iff : (n : ℤ) (f : Fault) → (require (ltb (pos 0) n) f ≡ none) ↔ (pos 0 <ℤ n)
positive_iff n f = (λ e. ground arith, λ h. ground arith)

at_least_one_iff : (n : ℤ) (f : Fault) → (require (leb (pos 1) n) f ≡ none) ↔ (pos 0 <ℤ n)
at_least_one_iff n f = (λ e. ground arith, λ h. ground arith)

refuse_iff : (b : Bool) (f : Fault) → (require (not b) f ≡ none) ↔ (b ≡ false)
refuse_iff true f = (λ e. absurd (ground arith), λ h. absurd (ground arith))
refuse_iff false f = (λ e. refl, λ h. refl)

module _ (ps : Parsers) (order : List Interval) (c : Config)
    (covers : (i : Interval) → Has i order) where
  intervals_iff :
      (each
          (λ i. require (ltb (pos 0) (interval_of c.refresh i)) (interval_fault (interval_name i)))
          order
        ≡ none)
      ↔ ((i : Interval) → pos 0 <ℤ interval_of c.refresh i)
  intervals_iff =
      let (there, back) =
        each_iff (λ i. ltb (pos 0) (interval_of c.refresh i))
          (λ i. interval_fault (interval_name i)) order in
      (
        λ e i.
            let h : ltb (pos 0) (interval_of c.refresh i) ≡ true =
              All-Has (λ j. ltb (pos 0) (interval_of c.refresh j) ≡ true) i order (covers i)
                (there e) in
            ground arith,
        λ f. back (
            All-of_each (λ j. ltb (pos 0) (interval_of c.refresh j) ≡ true) order
              (λ i. let h : pos 0 <ℤ interval_of c.refresh i = f i in ground arith)),
      )

  -- Every check, as what it accepts.
  proxies_iff :
      (each
          (λ cidr. require (ps.parse_prefix cidr) (trusted_proxy_fault cidr))
          c.ui.web.trusted_proxies
        ≡ none)
      ↔ All (λ cidr. ps.parse_prefix cidr ≡ true) c.ui.web.trusted_proxies
  proxies_iff = each_iff ps.parse_prefix trusted_proxy_fault c.ui.web.trusted_proxies

  monitored_iff :
      (each (validate_url ps) (c.chain.monitored_rpcs ++ primary_rpc c ∷ []) ≡ none)
      ↔ All
          (λ url. is_http ps (ps.parse_url url) ≡ true)
          (c.chain.monitored_rpcs ++ primary_rpc c ∷ [])
  monitored_iff =
      each_iff (λ url. is_http ps (ps.parse_url url)) endpoint_fault
        (c.chain.monitored_rpcs ++ primary_rpc c ∷ [])

  rpcs_iff :
      (each (λ r. validate_url ps r.url) c.chain.rpcs ≡ none)
      ↔ All (λ r. is_http ps (ps.parse_url r.url) ≡ true) c.chain.rpcs
  rpcs_iff =
      each_iff (λ r. is_http ps (ps.parse_url r.url)) (λ r. endpoint_fault r.url) c.chain.rpcs

  lcd_iff :
      ((if c.chain.lcd == "" then none else validate_url ps c.chain.lcd) ≡ none)
      ↔ ((c.chain.lcd == "" || is_http ps (ps.parse_url c.chain.lcd)) ≡ true)
  lcd_iff =
      unless_iff (c.chain.lcd == "") (is_http ps (ps.parse_url c.chain.lcd))
        (endpoint_fault c.chain.lcd)

  -- A configuration is accepted exactly if it passes every check.
  pub validate_passes : (validate ps order c ≡ none) ↔ Passes ps c
  unfolding validate
  validate_passes = (
    λ e.
        let (
          clients,
          (
            rate,
            (
              proxies,
              (
                rpc,
                (
                  mode,
                  (
                    percent,
                    (
                      intervals,
                      (
                        retains,
                        (serves, (monitored, (rpcs, (lcd, (explorer, (web, (metrics, _))))))),
                      ),
                    ),
                  ),
                ),
              ),
            ),
          ),
        ) =
          (first_fault_iff _).0 e in
        record {
          has_clients = (positive_iff c.ui.web.max_clients max_clients_fault).0 clients;
          has_rate = (positive_iff c.ui.web.api_rate_limit api_rate_limit_fault).0 rate;
          proxies_parse = proxies_iff.0 proxies;
          has_rpc = (refuse_iff (primary_rpc c == "") no_rpc_fault).0 rpc;
          knows_mode = (require_iff (is_mode ps c.ui.mode) (mode_fault c.ui.mode)).0 mode;
          in_range =
              (require_iff (is_percentage ps c.divergence.threshold_pct) threshold_fault).0 percent;
          intervals_pass = intervals_iff.0 intervals;
          retains = (at_least_one_iff c.divergence.history_size history_size_fault).0 retains;
          serves =
              (refuse_iff (c.ui.web.disabled && lowers_to "web" c.ui.mode) disabled_web_fault).0
                serves;
          monitored_parse = monitored_iff.0 monitored;
          rpcs_parse = rpcs_iff.0 rpcs;
          lcd_parses = lcd_iff.0 lcd;
          explorer_parses = (unless_iff (c.chain.explorer_url == "") _ _).0 explorer;
          web_listens = (require_iff _ web_listen_fault).0 web;
          metrics_listens = (require_iff _ metrics_listen_fault).0 metrics;
        },
    λ k. (first_fault_iff _).1 (
      (positive_iff c.ui.web.max_clients max_clients_fault).1 k.has_clients,
      (
        (positive_iff c.ui.web.api_rate_limit api_rate_limit_fault).1 k.has_rate,
        (
          proxies_iff.1 k.proxies_parse,
          (
            (refuse_iff (primary_rpc c == "") no_rpc_fault).1 k.has_rpc,
            (
              (require_iff (is_mode ps c.ui.mode) (mode_fault c.ui.mode)).1 k.knows_mode,
              (
                (require_iff (is_percentage ps c.divergence.threshold_pct) threshold_fault).1
                    k.in_range,
                (
                  intervals_iff.1 k.intervals_pass,
                  (
                    (at_least_one_iff c.divergence.history_size history_size_fault).1 k.retains,
                    (
                      (refuse_iff (c.ui.web.disabled && lowers_to "web" c.ui.mode)
                            disabled_web_fault).1
                          k.serves,
                      (
                        monitored_iff.1 k.monitored_parse,
                        (
                          rpcs_iff.1 k.rpcs_parse,
                          (
                            lcd_iff.1 k.lcd_parses,
                            (
                              (unless_iff (c.chain.explorer_url == "") _ _).1 k.explorer_parses,
                              (
                                (require_iff _ web_listen_fault).1 k.web_listens,
                                ((require_iff _ metrics_listen_fault).1 k.metrics_listens, tt),
                              ),
                            ),
                          ),
                        ),
                      ),
                    ),
                  ),
                ),
              ),
            ),
          ),
        ),
      ),
    ),
  )
