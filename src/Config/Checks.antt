-- ===== src/Config/Checks.antt =====
-- internal/config/config.go: each test of `Validate`, in terms of what is configured.
use mathlib.Core.Bool.{false≢true}
use cmt_top.Base.{
  ◌≡◌, ◌≢◌, ◌↔◌, ◌⊎◌, refl, sym, ap, ◌∙◌, inl, inr, Bool, true, false, not, ◌&&◌, ◌||◌, String,
  List, [], ◌∷◌, ◌++◌, Option, none, some, ◌==◌, String_eq, All, arith, Bool-cases,
}
use cmt_top.Config.Text.{lowers_to}
use cmt_top.Config.Validate.{Parsers, Url, is_http, is_mode}
use cmt_top.Config.Words.{
  Spells, tui_letters, web_letters, both_letters, headless_letters, lowers_to-tui, lowers_to-web,
  lowers_to-both, lowers_to-headless,
}

abbrev pub IsMode : String → Type 0
IsMode mode =
    Spells tui_letters mode
    ⊎ Spells web_letters mode
    ⊎ Spells both_letters mode
    ⊎ Spells headless_letters mode

module _ (ps : Parsers) where
  -- A URL with a host, of HTTP or HTTPS.
  abbrev pub IsHttp : String → Type 0
  IsHttp text =
      (u : Url) × (ps.parse_url text ≡ some u)
      × (u.host ≢ "")
      × ((u.scheme ≡ "http") ⊎ (u.scheme ≡ "https"))

or_iff : (a b : Bool) → ((a || b) ≡ true) ↔ ((a ≡ true) ⊎ (b ≡ true))
or_iff a b = (λ e. ground (arith, e), λ e. ground (arith, e))

pub text_iff : (s t : String) → ((s == t) ≡ true) ↔ (s ≡ t)
text_iff s t = String_eq.decides s t

pub text_filled : (s : String) → ((s == "") ≡ false) ↔ (s ≢ "")
text_filled s = (
  λ e q. false≢true (sym e ∙ (String_eq.decides s "").1 q),
  λ f. elim (Bool-cases (s == "")) [
    | inl e ↦ absurd (f ((String_eq.decides s "").0 e))
    | inr e ↦ e
  ],
)

pub is_mode_iff : (ps : Parsers) (mode : String) → (is_mode ps mode ≡ true) ↔ IsMode mode
is_mode_iff ps mode =
    let tui = lowers_to-tui mode in
    let web = lowers_to-web mode in
    let both = lowers_to-both mode in
    let headless = lowers_to-headless mode in
    (
      λ e.
          mode_of (lowers_to "tui" mode) (lowers_to "web" mode) (lowers_to "both" mode)
            (lowers_to "headless" mode) tui.0 web.0 both.0 headless.0 e,
      λ m. elim m [
        | inl a ↦ ground (arith, tui.1 a)
        | inr (inl a) ↦ ground (arith, web.1 a)
        | inr (inr (inl a)) ↦ ground (arith, both.1 a)
        | inr (inr (inr a)) ↦ ground (arith, headless.1 a)
      ],
    )
  where
    mode_of :
        (a b c d : Bool)
        → (a ≡ true → Spells tui_letters mode)
        → (b ≡ true → Spells web_letters mode)
        → (c ≡ true → Spells both_letters mode)
        → (d ≡ true → Spells headless_letters mode)
        → (a || b || c || d) ≡ true
        → IsMode mode
    mode_of true b c d f g h k e = inl (f refl)
    mode_of false true c d f g h k e = inr (inl (g refl))
    mode_of false false true d f g h k e = inr (inr (inl (h refl)))
    mode_of false false false true f g h k e = inr (inr (inr (k refl)))
    mode_of false false false false f g h k e = absurd (false≢true e)

module _ (ps : Parsers) where
  http_of :
      (o : Option Url)
      → is_http ps o ≡ true
      → (u : Url) × (o ≡ some u) × (u.host ≢ "") × ((u.scheme ≡ "http") ⊎ (u.scheme ≡ "https"))
  http_of none e = absurd (false≢true e)
  http_of (some u) e =
      let scheme : (u.scheme == "http" || u.scheme == "https") ≡ true = ground (arith, e) in
      (
        u,
        refl,
        (text_filled u.host).0 (ground (arith, e)),
        elim ((or_iff (u.scheme == "http") (u.scheme == "https")).0 scheme) [
          | inl h ↦ inl ((text_iff u.scheme "http").0 h)
          | inr h ↦ inr ((text_iff u.scheme "https").0 h)
        ],
      )

  of_http :
      (u : Url)
      → u.host ≢ ""
      → (u.scheme ≡ "http") ⊎ (u.scheme ≡ "https")
      → is_http ps (some u) ≡ true
  of_http u h (inl s) = ground (arith, (text_filled u.host).1 h, (text_iff u.scheme "http").1 s)
  of_http u h (inr s) = ground (arith, (text_filled u.host).1 h, (text_iff u.scheme "https").1 s)

  pub is_http_iff : (text : String) → (is_http ps (ps.parse_url text) ≡ true) ↔ IsHttp ps text
  is_http_iff text =
      (λ e. http_of (ps.parse_url text) e, λ (u, e, h, s). ap (is_http ps) e ∙ of_http u h s)

  pub set_iff :
      (text url : String)
      → ((text == "" || is_http ps (ps.parse_url url)) ≡ true) ↔ ((text ≡ "") ⊎ IsHttp ps url)
  set_iff text url = (
    λ e. elim ((or_iff (text == "") (is_http ps (ps.parse_url url))).0 e) [
      | inl a ↦ inl ((text_iff text "").0 a)
      | inr b ↦ inr ((is_http_iff url).0 b)
    ],
    λ e.
        (or_iff (text == "") (is_http ps (ps.parse_url url))).1
          (elim e [ inl a ↦ inl ((text_iff text "").1 a) | inr b ↦ inr ((is_http_iff url).1 b) ]),
  )

  pub percentage_iff :
      (nan inf below above : Bool)
      → (not (nan || inf || below || above) ≡ true)
        ↔ ((nan ≡ false) × (inf ≡ false) × (below ≡ false) × (above ≡ false))
  percentage_iff nan inf below above = (λ e. ground (arith, e), λ e. ground (arith, e))

pub listens_iff :
    (text : String) (parses : Bool)
    → ((text == "" || parses) ≡ true) ↔ ((text ≡ "") ⊎ (parses ≡ true))
listens_iff text parses = (
  λ e. elim ((or_iff (text == "") parses).0 e) [
    | inl a ↦ inl ((text_iff text "").0 a)
    | inr b ↦ inr b
  ],
  λ e.
      (or_iff (text == "") parses).1
        (elim e [ inl a ↦ inl ((text_iff text "").1 a) | inr b ↦ inr b ]),
)

pub serves_iff :
    (disabled : Bool) (mode : String)
    → ((disabled && lowers_to "web" mode) ≡ false)
      ↔ ((disabled ≡ false) ⊎ (¬ Spells web_letters mode))
serves_iff false mode = (λ e. inl refl, λ e. refl)
serves_iff true mode = (
  λ e. inr (λ w. false≢true (sym e ∙ (lowers_to-web mode).1 w)),
  λ e. elim e [
    | inl a ↦ absurd (false≢true (sym a))
    | inr f ↦ elim (Bool-cases (lowers_to "web" mode)) [
      | inl w ↦ absurd (f ((lowers_to-web mode).0 w))
      | inr w ↦ w
    ]
  ],
)

pub All-implies {ℓ} :
    {A : Type ℓ} (P Q : A → Type 0) (xs : List A) → ((x : A) → P x → Q x) → All P xs → All Q xs
All-implies P Q [] f a = tt
All-implies P Q (x ∷ xs) f a = (f x a.0, All-implies P Q xs f a.1)

pub All-last {ℓ} :
    {A : Type ℓ} (P : A → Type 0) (xs : List A) (y : A) → All P (xs ++ y ∷ []) ↔ (All P xs × P y)
All-last P [] y = (λ a. (tt, a.0), λ a. (a.1, tt))
All-last P (x ∷ xs) y =
    let (there, back) = All-last P xs y in
    (λ a. ((a.0, (there a.1).0), (there a.1).1), λ a. (a.0.0, back (a.0.1, a.1)))
