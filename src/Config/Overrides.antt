-- ===== src/Config/Overrides.antt =====
-- internal/config/config.go: what the environment leaves of a configuration, for each field.
use cmt_top.Base.{
  ◌≡◌, ◌≢◌, ◌⊎◌, refl, sym, ap, ◌∙◌, subst, inl, inr, true, false, String, List, [], ◌∷◌, Option,
  none, some, ◌==◌, String_eq, if◌then◌else◌, Bool-cases, Option-cases, arith,
}
use mathlib.Core.Bool.{false≢true}
use cmt_top.Base.Int.{ℤ, pos, leb, ◌≤ℤ◌, ◌<ℤ◌}
use cmt_top.Config.Text.{split_csv}
use cmt_top.Config.Types.{Config}
use cmt_top.Config.Env.{
  Setting, max_clients_setting, api_rate_limit_setting, variable_of, with_web, set_number,
  apply_texts, number_of, apply_numbers, apply_env,
}

-- The two orders of the loop over the numbers.
abbrev pub one_way : List Setting
one_way = max_clients_setting ∷ api_rate_limit_setting ∷ []

abbrev pub other_way : List Setting
other_way = api_rate_limit_setting ∷ max_clients_setting ∷ []

module _ (getenv : String → String) (atoi : String → Option ℤ) where
  -- A field is as it was where the variable is not set, and else what the variable says.
  abbrev pub Says {ℓ} : {A : Type ℓ} → String → A → A → A → Type ℓ
  Says name said old new = ((getenv name ≡ "") × (new ≡ old)) ⊎ ((getenv name ≢ "") × (new ≡ said))

  abbrev pub SaysNumber : String → ℤ → ℤ → Type 0
  SaysNumber name old new =
      ((getenv name ≡ "") × (new ≡ old))
      ⊎ ((getenv name ≢ "") × (atoi (getenv name) ≡ some new) × (pos 0 <ℤ new))

  -- The variable is set, and not to a positive number.
  abbrev pub IsWrong : String → Type 0
  IsWrong name =
      (getenv name ≢ "")
      × ((atoi (getenv name) ≡ none) ⊎ ((n : ℤ) × (atoi (getenv name) ≡ some n) × (n ≤ℤ pos 0)))

  pub record Overrides (c d : Config) : Type 0 where
    pub max_clients : SaysNumber "CMTOP_WEB_MAX_CLIENTS" c.ui.web.max_clients d.ui.web.max_clients
    pub api_rate_limit :
        SaysNumber "CMTOP_WEB_API_RATE_LIMIT" c.ui.web.api_rate_limit d.ui.web.api_rate_limit
    pub trusted_proxies :
        Says "CMTOP_WEB_TRUSTED_PROXIES"
          (split_csv (getenv "CMTOP_WEB_TRUSTED_PROXIES"))
          c.ui.web.trusted_proxies
          d.ui.web.trusted_proxies
    pub rpcs :
        Says "CMTOP_RPC"
          (record { url = getenv "CMTOP_RPC"; primary = true } ∷ [])
          c.chain.rpcs
          d.chain.rpcs
    pub mode : Says "CMTOP_MODE" (getenv "CMTOP_MODE") c.ui.mode d.ui.mode
    pub listen : Says "CMTOP_WEB_LISTEN" (getenv "CMTOP_WEB_LISTEN") c.ui.web.listen d.ui.web.listen
    pub token : Says "CMTOP_WEB_TOKEN" (getenv "CMTOP_WEB_TOKEN") c.ui.web.token d.ui.web.token
    pub log_level :
        Says "CMTOP_LOG_LEVEL" (getenv "CMTOP_LOG_LEVEL") c.obs.log_level d.obs.log_level
    pub bech32_prefix :
        Says "CMTOP_BECH32_PREFIX"
          (getenv "CMTOP_BECH32_PREFIX")
          c.chain.bech32_prefix
          d.chain.bech32_prefix
    pub lcd : Says "CMTOP_LCD" (getenv "CMTOP_LCD") c.chain.lcd d.chain.lcd
    pub monitored_rpcs :
        Says "CMTOP_MONITORED_RPCS"
          (split_csv (getenv "CMTOP_MONITORED_RPCS"))
          c.chain.monitored_rpcs
          d.chain.monitored_rpcs
    pub metrics_listen :
        Says "CMTOP_METRICS_LISTEN"
          (getenv "CMTOP_METRICS_LISTEN")
          c.obs.metrics_listen
          d.obs.metrics_listen
    pub refresh_kept : d.refresh ≡ c.refresh
    pub divergence_kept : d.divergence ≡ c.divergence
    pub name_kept : d.chain.name ≡ c.chain.name
    pub explorer_kept : d.chain.explorer_url ≡ c.chain.explorer_url
    pub tui_kept : d.ui.tui ≡ c.ui.tui
    pub origin_kept : d.ui.web.cors_origin ≡ c.ui.web.cors_origin
    pub disabled_kept : d.ui.web.disabled ≡ c.ui.web.disabled
    pub log_format_kept : d.obs.log_format ≡ c.obs.log_format

  -- No variable of the two numbers is wrong, or the one that is reported is.
  abbrev pub IsApplied : Config → Config × Option String → Type 0
  IsApplied c r =
      ((r.1 ≡ none) × Overrides c r.0)
      ⊎ ((name : String) × (r.1 ≡ some name)
          × ((name ≡ "CMTOP_WEB_MAX_CLIENTS") ⊎ (name ≡ "CMTOP_WEB_API_RATE_LIMIT"))
          × IsWrong name)

  value_or-Says {ℓ} :
      {A : Type ℓ} (name : String) (said old : A)
      → Says name said old (if getenv name == "" then old else said)
  value_or-Says name said old = elim (Bool-cases (getenv name == "")) [
    | inl unset ↦ inl ((String_eq.decides (getenv name) "").0 unset, rw unset refl)
    | inr set ↦
        inr (λ e. false≢true (sym set ∙ (String_eq.decides (getenv name) "").1 e), rw set refl)
  ]

  abbrev number_or : Option ℤ → ℤ → ℤ
  number_or none old = old
  number_or (some n) old = n

  number_of-unset :
      (s : Setting) → (getenv (variable_of s) == "") ≡ true → number_of getenv atoi s ≡ some none
  unfolding number_of
  number_of-unset s h = ground (arith, h)

  number_of-none :
      (s : Setting)
      → (getenv (variable_of s) == "") ≡ false
      → atoi (getenv (variable_of s)) ≡ none
      → number_of getenv atoi s ≡ none
  unfolding number_of
  number_of-none s h e = ground (arith, h, e)

  number_of-low :
      (s : Setting) (n : ℤ)
      → (getenv (variable_of s) == "") ≡ false
      → atoi (getenv (variable_of s)) ≡ some n
      → leb n (pos 0) ≡ true
      → number_of getenv atoi s ≡ none
  unfolding number_of
  number_of-low s n h e l = ground (arith, h, e, l)

  number_of-some :
      (s : Setting) (n : ℤ)
      → (getenv (variable_of s) == "") ≡ false
      → atoi (getenv (variable_of s)) ≡ some n
      → leb n (pos 0) ≡ false
      → number_of getenv atoi s ≡ some (some n)
  unfolding number_of
  number_of-some s n h e l = ground (arith, h, e, l)

  number_of-cases :
      (s : Setting)
      → ((number_of getenv atoi s ≡ none) × IsWrong (variable_of s))
        ⊎ ((o : Option ℤ) × (number_of getenv atoi s ≡ some o)
            × ((old : ℤ) → SaysNumber (variable_of s) old (number_or o old)))
  number_of-cases s = elim (Bool-cases (getenv (variable_of s) == "")) [
    | inl unset ↦ inr (
      none,
      number_of-unset s unset,
      λ old. inl ((String_eq.decides (getenv (variable_of s)) "").0 unset, refl),
    )
    | inr set ↦
        let filled : getenv (variable_of s) ≢ "" =
          (λ e. false≢true (sym set ∙ (String_eq.decides (getenv (variable_of s)) "").1 e)) in
        elim (Option-cases (atoi (getenv (variable_of s)))) [
          | inl e ↦ inl (number_of-none s set e, (filled, inl e))
          | inr (n, e) ↦ elim (Bool-cases (leb n (pos 0))) [
            | inl low ↦ inl (number_of-low s n set e low, (filled, inr (n, e, ground (arith, low))))
            | inr high ↦ inr (
              some n,
              number_of-some s n set e high,
              λ old. inr (filled, e, ground (arith, high)),
            )
          ]
        ]
  ]

  -- The configuration with the two numbers.
  abbrev numbered : Option ℤ → Option ℤ → Config → Config
  numbered a b = with_web (λ w. record w {
    max_clients = number_or a w.max_clients;
    api_rate_limit = number_or b w.api_rate_limit;
  })

  apply_numbers-both :
      (a b : Option ℤ) (order : List Setting) (c : Config)
      → (order ≡ one_way) ⊎ (order ≡ other_way)
      → number_of getenv atoi max_clients_setting ≡ some a
      → number_of getenv atoi api_rate_limit_setting ≡ some b
      → apply_numbers getenv atoi order c ≡ (numbered a b c, none)
  unfolding apply_numbers set_number
  apply_numbers-both none none order c o ha hb = ground (arith, o, ha, hb)
  apply_numbers-both none (some n) order c o ha hb = ground (arith, o, ha, hb)
  apply_numbers-both (some m) none order c o ha hb = ground (arith, o, ha, hb)
  apply_numbers-both (some m) (some n) order c o ha hb = ground (arith, o, ha, hb)

  wrong_first :
      (s : Setting) (rest : List Setting) (c : Config)
      → number_of getenv atoi s ≡ none
      → (apply_numbers getenv atoi (s ∷ rest) c).1 ≡ some (variable_of s)
  unfolding apply_numbers
  wrong_first s rest c h = ground (arith, h)

  wrong_second :
      (s t : Setting) (o : Option ℤ) (c : Config)
      → number_of getenv atoi s ≡ some o
      → number_of getenv atoi t ≡ none
      → (apply_numbers getenv atoi (s ∷ t ∷ []) c).1 ≡ some (variable_of t)
  unfolding apply_numbers
  wrong_second s t none c h k = ground (arith, h, k)
  wrong_second s t (some n) c h k = ground (arith, h, k)

  apply_env-wrong :
      (order : List Setting) (c : Config) (name : String)
      → (apply_numbers getenv atoi order c).1 ≡ some name
      → (apply_env getenv atoi order c).1 ≡ some name
  unfolding apply_env
  apply_env-wrong order c name h = ground (arith, h)

  apply_env-right :
      (order : List Setting) (c d : Config)
      → apply_numbers getenv atoi order c ≡ (d, none)
      → apply_env getenv atoi order c ≡ (apply_texts getenv d, none)
  unfolding apply_env
  apply_env-right order c d h = ground (arith, h)

  texts-Overrides :
      (a b : Option ℤ) (c : Config)
      → ((old : ℤ) → SaysNumber "CMTOP_WEB_MAX_CLIENTS" old (number_or a old))
      → ((old : ℤ) → SaysNumber "CMTOP_WEB_API_RATE_LIMIT" old (number_or b old))
      → Overrides c (apply_texts getenv (numbered a b c))
  unfolding apply_texts
  texts-Overrides a b c ma mb = record {
    max_clients = ma c.ui.web.max_clients;
    api_rate_limit = mb c.ui.web.api_rate_limit;
    trusted_proxies = value_or-Says "CMTOP_WEB_TRUSTED_PROXIES" _ c.ui.web.trusted_proxies;
    rpcs = value_or-Says "CMTOP_RPC" _ c.chain.rpcs;
    mode = value_or-Says "CMTOP_MODE" _ c.ui.mode;
    listen = value_or-Says "CMTOP_WEB_LISTEN" _ c.ui.web.listen;
    token = value_or-Says "CMTOP_WEB_TOKEN" _ c.ui.web.token;
    log_level = value_or-Says "CMTOP_LOG_LEVEL" _ c.obs.log_level;
    bech32_prefix = value_or-Says "CMTOP_BECH32_PREFIX" _ c.chain.bech32_prefix;
    lcd = value_or-Says "CMTOP_LCD" _ c.chain.lcd;
    monitored_rpcs = value_or-Says "CMTOP_MONITORED_RPCS" _ c.chain.monitored_rpcs;
    metrics_listen = value_or-Says "CMTOP_METRICS_LISTEN" _ c.obs.metrics_listen;
    refresh_kept = refl;
    divergence_kept = refl;
    name_kept = refl;
    explorer_kept = refl;
    tui_kept = refl;
    origin_kept = refl;
    disabled_kept = refl;
    log_format_kept = refl;
  }

  wrong_of :
      (order : List Setting) (c : Config) (s : Setting)
      → (apply_numbers getenv atoi order c).1 ≡ some (variable_of s)
      → IsWrong (variable_of s)
      → IsApplied c (apply_env getenv atoi order c)
  wrong_of order c max_clients_setting h w =
      inr ("CMTOP_WEB_MAX_CLIENTS", apply_env-wrong order c _ h, inl refl, w)
  wrong_of order c api_rate_limit_setting h w =
      inr ("CMTOP_WEB_API_RATE_LIMIT", apply_env-wrong order c _ h, inr refl, w)

  -- Where the second number is wrong and the first is not, or where neither is.
  second_wrong :
      (s t : Setting) (o : Option ℤ) (order : List Setting) (c : Config)
      → ((order ≡ s ∷ t ∷ []) ⊎ (order ≡ t ∷ s ∷ []))
      → number_of getenv atoi s ≡ some o
      → number_of getenv atoi t ≡ none
      → IsWrong (variable_of t)
      → IsApplied c (apply_env getenv atoi order c)
  second_wrong s t o order c (inl e) hs ht w =
      wrong_of order c t
        (ap (λ l. (apply_numbers getenv atoi l c).1) e ∙ wrong_second s t o c hs ht) w
  second_wrong s t o order c (inr e) hs ht w =
      wrong_of order c t
        (ap (λ l. (apply_numbers getenv atoi l c).1) e ∙ wrong_first t (s ∷ []) c ht) w

  both_wrong :
      (order : List Setting) (c : Config)
      → (order ≡ one_way) ⊎ (order ≡ other_way)
      → number_of getenv atoi max_clients_setting ≡ none
      → number_of getenv atoi api_rate_limit_setting ≡ none
      → IsWrong "CMTOP_WEB_MAX_CLIENTS"
      → IsWrong "CMTOP_WEB_API_RATE_LIMIT"
      → IsApplied c (apply_env getenv atoi order c)
  both_wrong order c (inl e) ha hb wa wb =
      wrong_of order c max_clients_setting
        (ap (λ l. (apply_numbers getenv atoi l c).1) e ∙ wrong_first max_clients_setting _ c ha) wa
  both_wrong order c (inr e) ha hb wa wb =
      wrong_of order c api_rate_limit_setting
        (ap (λ l. (apply_numbers getenv atoi l c).1) e ∙ wrong_first api_rate_limit_setting _ c hb)
        wb

  swapped :
      (order : List Setting)
      → (order ≡ one_way) ⊎ (order ≡ other_way)
      → (order ≡ other_way) ⊎ (order ≡ one_way)
  swapped order (inl e) = inr e
  swapped order (inr e) = inl e

  -- In either order of the two numbers: the environment is accepted, and then every field that a
  -- variable stands for is as it was where the variable is not set, and else what the variable says, a
  -- list by its parts, a number if it is positive, the RPC endpoints as one primary endpoint, and the
  -- other fields stay; or it is refused for a variable of a number that is set to
  -- something else than a positive number.
  pub apply_env-IsApplied :
      (order : List Setting) (c : Config)
      → (order ≡ one_way) ⊎ (order ≡ other_way)
      → IsApplied c (apply_env getenv atoi order c)
  apply_env-IsApplied order c way = elim (number_of-cases max_clients_setting) [
    | inl (ha, wa) ↦ elim (number_of-cases api_rate_limit_setting) [
      | inl (hb, wb) ↦ both_wrong order c way ha hb wa wb
      | inr (b, hb, mb) ↦
          second_wrong api_rate_limit_setting max_clients_setting b order c (swapped order way) hb
            ha wa
    ]
    | inr (a, ha, ma) ↦ elim (number_of-cases api_rate_limit_setting) [
      | inl (hb, wb) ↦
          second_wrong max_clients_setting api_rate_limit_setting a order c way ha hb wb
      | inr (b, hb, mb) ↦
          let e =
            apply_env-right order c (numbered a b c) (apply_numbers-both a b order c way ha hb) in
          inl (ap (λ r. r.1) e, subst (λ r. Overrides c r.0) (sym e) (texts-Overrides a b c ma mb))
    ]
  ]
