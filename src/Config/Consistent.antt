-- ===== src/Config/Consistent.antt =====
-- internal/config/config.go: the configurations that `Validate` accepts, in terms of what is configured.
use cmt_top.Base.{◌≡◌, ◌≢◌, ◌↔◌, ◌⊎◌, sym, subst, true, false, String, List, none, String_eq, All}
use cmt_top.Base.Int.{pos, ◌<ℤ◌}
use cmt_top.Config.Text.{replace_from}
use cmt_top.Config.Types.{Config, primary_rpc}
use cmt_top.Config.Validate.{Parsers, Interval, interval_of, is_http, validate}
use cmt_top.Config.Validity.{Has, Passes, validate_passes}
use cmt_top.Config.Words.{Spells, web_letters}
use cmt_top.Config.Primary.{IsPrimary, primary_rpc-IsPrimary, IsPrimary-primary_rpc}
use cmt_top.Config.Checks.{
  IsMode, IsHttp, text_filled, is_mode_iff, is_http_iff, set_iff, percentage_iff, listens_iff,
  serves_iff, All-implies, All-last,
}

module _ (ps : Parsers) where
  pub record IsConsistent (c : Config) : Type 0 where
    pub has_clients : pos 0 <ℤ c.ui.web.max_clients
    pub has_rate : pos 0 <ℤ c.ui.web.api_rate_limit
    pub proxies_parse : All (λ cidr. ps.parse_prefix cidr ≡ true) c.ui.web.trusted_proxies
    pub has_rpc : (url : String) × IsPrimary c.chain.rpcs url × (url ≢ "") × IsHttp ps url
    pub knows_mode : IsMode c.ui.mode
    pub is_number : ps.is_nan c.divergence.threshold_pct ≡ false
    pub is_finite : ps.is_inf c.divergence.threshold_pct ≡ false
    pub from_zero : ps.below_zero c.divergence.threshold_pct ≡ false
    pub to_hundred : ps.above_hundred c.divergence.threshold_pct ≡ false
    pub intervals_pass : (i : Interval) → pos 0 <ℤ interval_of c.refresh i
    pub retains : pos 0 <ℤ c.divergence.history_size
    pub serves : (c.ui.web.disabled ≡ false) ⊎ (¬ Spells web_letters c.ui.mode)
    pub monitored_parse : All (IsHttp ps) c.chain.monitored_rpcs
    pub rpcs_parse : All (λ r. IsHttp ps r.url) c.chain.rpcs
    pub lcd_parses : (c.chain.lcd ≡ "") ⊎ IsHttp ps c.chain.lcd
    pub explorer_parses :
        (c.chain.explorer_url ≡ "")
        ⊎ IsHttp ps (replace_from "{address}" "validator" 0 c.chain.explorer_url)
    pub web_listens : (c.ui.web.listen ≡ "") ⊎ (ps.split_host_port c.ui.web.listen ≡ true)
    pub metrics_listens :
        (c.obs.metrics_listen ≡ "") ⊎ (ps.split_host_port c.obs.metrics_listen ≡ true)

module _ (ps : Parsers) (c : Config) where
  Passes-IsConsistent : Passes ps c → IsConsistent ps c
  Passes-IsConsistent k =
      let P : String → Type 0 = (λ url. is_http ps (ps.parse_url url) ≡ true) in
      let (others, primary) =
        (All-last P c.chain.monitored_rpcs (primary_rpc c)).0 k.monitored_parse in
      let x = c.divergence.threshold_pct in
      let (nan, inf, below, above) =
        (percentage_iff ps (ps.is_nan x) (ps.is_inf x) (ps.below_zero x) (ps.above_hundred x)).0
          k.in_range in
      record {
        has_clients = k.has_clients;
        has_rate = k.has_rate;
        proxies_parse = k.proxies_parse;
        has_rpc = (
          primary_rpc c,
          primary_rpc-IsPrimary c,
          (text_filled (primary_rpc c)).0 k.has_rpc,
          (is_http_iff ps (primary_rpc c)).0 primary,
        );
        knows_mode = (is_mode_iff ps c.ui.mode).0 k.knows_mode;
        is_number = nan;
        is_finite = inf;
        from_zero = below;
        to_hundred = above;
        intervals_pass = k.intervals_pass;
        retains = k.retains;
        serves = (serves_iff c.ui.web.disabled c.ui.mode).0 k.serves;
        monitored_parse =
            All-implies P (IsHttp ps) c.chain.monitored_rpcs (λ url. (is_http_iff ps url).0) others;
        rpcs_parse =
            All-implies _ (λ r. IsHttp ps r.url) c.chain.rpcs (λ r. (is_http_iff ps r.url).0)
              k.rpcs_parse;
        lcd_parses = (set_iff ps c.chain.lcd c.chain.lcd).0 k.lcd_parses;
        explorer_parses = (set_iff ps c.chain.explorer_url _).0 k.explorer_parses;
        web_listens = (listens_iff c.ui.web.listen _).0 k.web_listens;
        metrics_listens = (listens_iff c.obs.metrics_listen _).0 k.metrics_listens;
      }

  IsConsistent-Passes : IsConsistent ps c → Passes ps c
  IsConsistent-Passes k =
      let P : String → Type 0 = (λ url. is_http ps (ps.parse_url url) ≡ true) in
      let (url, chosen, filled, http) = k.has_rpc in
      let same : url ≡ primary_rpc c = sym (IsPrimary-primary_rpc c url chosen) in
      let primary : P (primary_rpc c) = subst P same ((is_http_iff ps url).1 http) in
      let others : All P c.chain.monitored_rpcs =
        All-implies (IsHttp ps) P c.chain.monitored_rpcs (λ u. (is_http_iff ps u).1)
          k.monitored_parse in
      let x = c.divergence.threshold_pct in
      record {
        has_clients = k.has_clients;
        has_rate = k.has_rate;
        proxies_parse = k.proxies_parse;
        has_rpc = (text_filled (primary_rpc c)).1 (subst (λ u. u ≢ "") same filled);
        knows_mode = (is_mode_iff ps c.ui.mode).1 k.knows_mode;
        in_range =
            (percentage_iff ps (ps.is_nan x) (ps.is_inf x) (ps.below_zero x) (ps.above_hundred x)).1
              (k.is_number, k.is_finite, k.from_zero, k.to_hundred);
        intervals_pass = k.intervals_pass;
        retains = k.retains;
        serves = (serves_iff c.ui.web.disabled c.ui.mode).1 k.serves;
        monitored_parse = (All-last P c.chain.monitored_rpcs (primary_rpc c)).1 (others, primary);
        rpcs_parse =
            All-implies (λ r. IsHttp ps r.url) _ c.chain.rpcs (λ r. (is_http_iff ps r.url).1)
              k.rpcs_parse;
        lcd_parses = (set_iff ps c.chain.lcd c.chain.lcd).1 k.lcd_parses;
        explorer_parses = (set_iff ps c.chain.explorer_url _).1 k.explorer_parses;
        web_listens = (listens_iff c.ui.web.listen _).1 k.web_listens;
        metrics_listens = (listens_iff c.obs.metrics_listen _).1 k.metrics_listens;
      }

  -- Whatever the order in which it comes to the five intervals, `Validate` accepts a configuration
  -- exactly if the configuration is consistent: the numbers of clients and of requests, the retention
  -- and the intervals are positive; the threshold is a finite number that is neither below zero nor
  -- above a hundred; the mode is tui, web, both or headless in any case, and not web while the server
  -- is disabled; the primary endpoint, the first that is marked or else the first, is set; it, every
  -- other RPC endpoint and every monitored one, and the LCD and the explorer where they are set, are
  -- URLs of HTTP or HTTPS with a host; and every trusted network, and the two addresses to listen at
  -- where they are set, parse.
  pub validate_iff :
      (order : List Interval)
      → ((i : Interval) → Has i order)
      → (validate ps order c ≡ none) ↔ IsConsistent ps c
  validate_iff order covers =
      let (there, back) = validate_passes ps order c covers in
      (λ e. Passes-IsConsistent (there e), λ k. back (IsConsistent-Passes k))
