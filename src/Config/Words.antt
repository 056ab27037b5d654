-- ===== src/Config/Words.antt =====
-- internal/config/config.go: when a text is a word in small letters or capitals.
use Prim.Native.Char.{code}
use Prim.Native.String.{[] as empty, ◌∷◌ as ◌followed◌}
use cmt_top.Base.{ℕ, ◌+◌, ◌≤◌, ◌≡◌, ◌↔◌, ◌⊎◌, refl, true, String, List, [], ◌∷◌, All, arith}
use cmt_top.Config.Text.{lower_code, lower_codes, codes_equal, lowers_to}

-- The letter, its capital, or the one other character with that lower case: the capital I with a dot
-- and the sign of the kelvin.
abbrev pub IsLetter : ℕ → ℕ → Type 0
IsLetter d c = (c ≡ d) ⊎ (c + 32 ≡ d) ⊎ ((d ≡ 105) × (c ≡ 304)) ⊎ ((d ≡ 107) × (c ≡ 8490))

-- The text has these letters of ASCII, in either case.
abbrev pub Spells : List ℕ → String → Type 0
Spells [] empty = Unit
Spells [] (c followed s) = ⊥
Spells (d ∷ ds) empty = ⊥
Spells (d ∷ ds) (c followed s) = IsLetter d (code c) × Spells ds s

-- t, u, i and the other words, by the numbers of their letters.
abbrev pub tui_letters : List ℕ
tui_letters = 116 ∷ 117 ∷ 105 ∷ []

abbrev pub web_letters : List ℕ
web_letters = 119 ∷ 101 ∷ 98 ∷ []

abbrev pub both_letters : List ℕ
both_letters = 98 ∷ 111 ∷ 116 ∷ 104 ∷ []

abbrev pub headless_letters : List ℕ
headless_letters = 104 ∷ 101 ∷ 97 ∷ 100 ∷ 108 ∷ 101 ∷ 115 ∷ 115 ∷ []

abbrev IsSmall : ℕ → Type 0
IsSmall d = (97 ≤ d) × (d ≤ 122)

lower_code-IsLetter :
    (d c : ℕ) → IsSmall d → (lower_code c ≡ d → IsLetter d c) × (IsLetter d c → lower_code c ≡ d)
lower_code-IsLetter d c (low, high) =
    (λ e. ground (arith, e, low, high), λ l. ground (arith, l, low, high))

lower_codes-Spells :
    (ds : List ℕ) (s : String)
    → All IsSmall ds
    → (codes_equal (lower_codes s) ds ≡ true) ↔ Spells ds s
unfolding lower_codes
lower_codes-Spells [] empty small = (λ e. tt, λ e. refl)
lower_codes-Spells [] (c followed s) small = (λ e. absurd (ground arith), λ e. absurd e)
lower_codes-Spells (d ∷ ds) empty small = (λ e. absurd (ground arith), λ e. absurd e)
lower_codes-Spells (d ∷ ds) (c followed s) small =
    let (there, back) = lower_codes-Spells ds s small.1 in
    let (letter, lower) = lower_code-IsLetter d (code c) small.0 in
    (
      λ e. (letter (ground (arith, e)), there (ground (arith, e))),
      λ (l, more). ground (arith, lower l, back more),
    )

pub lowers_to-tui : (s : String) → (lowers_to "tui" s ≡ true) ↔ Spells tui_letters s
unfolding lowers_to lower_codes
lowers_to-tui s = lower_codes-Spells tui_letters s (ground arith)

pub lowers_to-web : (s : String) → (lowers_to "web" s ≡ true) ↔ Spells web_letters s
unfolding lowers_to lower_codes
lowers_to-web s = lower_codes-Spells web_letters s (ground arith)

pub lowers_to-both : (s : String) → (lowers_to "both" s ≡ true) ↔ Spells both_letters s
unfolding lowers_to lower_codes
lowers_to-both s = lower_codes-Spells both_letters s (ground arith)

pub lowers_to-headless : (s : String) → (lowers_to "headless" s ≡ true) ↔ Spells headless_letters s
unfolding lowers_to lower_codes
lowers_to-headless s = lower_codes-Spells headless_letters s (ground arith)
