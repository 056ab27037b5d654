-- ===== src/Config/Text.antt =====
-- internal/config/config.go: the operations on texts that it takes from Go's `strings`, by the
-- characters of a text.
use Prim.Native.Char.{Char, code}
use Prim.Native.String.{[] as empty, ◌∷◌ as ◌followed◌, ◌++◌, count}
use text.Mathlib.Text.{starts_with}
use cmt_top.Base.{
  ℕ, zero, suc, ◌+◌, ◌-◌, Bool, true, false, ◌&&◌, ◌||◌, String, List, [], ◌∷◌, ◌==◌, String_eq,
  if◌then◌else◌, nat_eqb,
}
use cmt_top.Base.{leb as nat_leb}

abbrev between : ℕ → ℕ → ℕ → Bool
between low high c = nat_leb low c && nat_leb c high

-- `unicode.IsSpace`.
unfoldable pub is_space : Char → Bool
is_space c =
    between 9 13 (code c)
    || nat_eqb (code c) 32
    || nat_eqb (code c) 133
    || nat_eqb (code c) 160
    || nat_eqb (code c) 5760
    || between 8192 8202 (code c)
    || between 8232 8233 (code c)
    || nat_eqb (code c) 8239
    || nat_eqb (code c) 8287
    || nat_eqb (code c) 12288

unfoldable pub trim_left : String → String
trim_left empty = empty
trim_left (c followed s) = let rest = trim_left s in if is_space c then rest else c followed s

unfoldable pub trim_right : String → String
trim_right empty = empty
trim_right (c followed s) =
    let rest = trim_right s in if is_space c && rest == "" then empty else c followed rest

unfoldable pub trim_space : String → String
trim_space s = trim_left (trim_right s)

-- A character in front of the first part.
abbrev pub grow_first : Char → List String → List String
grow_first c [] = (c followed empty) ∷ []
grow_first c (part ∷ parts) = (c followed part) ∷ parts

-- `strings.Split(s, ",")`.
unfoldable pub split_commas : String → List String
split_commas empty = empty ∷ []
split_commas (c followed s) =
    let parts = split_commas s in if nat_eqb (code c) 44 then empty ∷ parts else grow_first c parts

-- `splitCSV`: the loop over the parts.
unfoldable pub keep_parts : List String → List String
keep_parts [] = []
keep_parts (part ∷ parts) =
    let rest = keep_parts parts in if trim_space part == "" then rest else trim_space part ∷ rest

unfoldable pub split_csv : String → List String
split_csv s = keep_parts (split_commas s)

-- The lower case of a character's number, where that is a letter of ASCII; no other character's
-- lower case is one.
abbrev pub lower_code : ℕ → ℕ
lower_code c =
    if between 65 90 c
    then c + 32
    else if nat_eqb c 304
    then 105
    else if nat_eqb c 8490
    then 107
    else c

unfoldable pub lower_codes : String → List ℕ
lower_codes empty = []
lower_codes (c followed s) = lower_code (code c) ∷ lower_codes s

abbrev pub codes_equal : List ℕ → List ℕ → Bool
codes_equal [] [] = true
codes_equal [] (d ∷ ds) = false
codes_equal (c ∷ cs) [] = false
codes_equal (c ∷ cs) (d ∷ ds) = nat_eqb c d && codes_equal cs ds

-- `strings.ToLower(s) == word`, for a word of small letters of ASCII.
unfoldable pub lowers_to : String → String → Bool
lowers_to word s = codes_equal (lower_codes s) (lower_codes word)

-- `strings.ReplaceAll`, with `skip` characters of an occurrence still to pass over.
unfoldable pub replace_from : String → String → ℕ → String → String
replace_from old new skip empty = empty
replace_from old new (suc skip) (c followed s) = replace_from old new skip s
replace_from old new zero (c followed s) = elim (starts_with (c followed s) old) [
  | true ↦ new ++ replace_from old new (count old - 1) s
  | false ↦ c followed replace_from old new zero s
]
