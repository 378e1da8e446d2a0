-- ===== src/Prelude/Text.antt =====
-- Texts: their equality test, and their characters as numbers.
use Prim.Native.Nat.{ℕ, zero, suc, ◌/◌, ◌%◌}
use Prim.Native.Char.{Char, code}
use Prim.Native.String.{String, ◌++◌}
use mathlib.Core.Bool.{Bool, true, false, ◌&&◌, ◌||◌}
use mathlib.Core.Option.{none, some}
use mathlib.Core.List.{List, [], ◌∷◌}
use text.Mathlib.Text
use cluster_api_provider_bri.Prelude.Tests.{ltb, leb, ◌==◌, if◌then◌else◌}
use cluster_api_provider_bri.Prelude.Lists.{any, get_elem?}

abbrev pub str_eq : String → String → Bool
str_eq s t = Text.◌==◌ s t

-- The code points of a text: its bytes, if it is ASCII.
abbrev pub codes : String → List ℕ
codes String.[] = []
codes (String.◌∷◌ c s) = code c ∷ codes s

abbrev pub cons_head : Char → List String → List String
cons_head c [] = String.◌∷◌ c "" ∷ []
cons_head c (t ∷ ts) = String.◌∷◌ c t ∷ ts

-- `strings.Split(s, sep)`, for a separator of one character.
unfoldable pub split : ℕ → String → List String
split sep String.[] = "" ∷ []
split sep (String.◌∷◌ c s) =
    let rest = split sep s in if code c == sep then "" ∷ rest else cons_head c rest

-- `strings.Join(texts, sep)`
abbrev pub join : String → List String → String
join sep [] = ""
join sep (t ∷ []) = t
join sep (t ∷ ts) = t ++ (sep ++ join sep ts)

-- A text of lines, each ended by a line break.
abbrev pub unlines : List String → String
unlines [] = ""
unlines (t ∷ ts) = t ++ ("\n" ++ unlines ts)

-- The texts of a separated list are trimmed, searched and printed.
module _ (p : Char → Bool) where
  unfoldable pub trim_left : String → String
  trim_left String.[] = ""
  trim_left (String.◌∷◌ c s) = let rest = trim_left s in if p c then rest else String.◌∷◌ c s

  abbrev pub keep_unless : Char → String → String
  keep_unless c String.[] = if p c then "" else String.◌∷◌ c ""
  keep_unless c (String.◌∷◌ d s) = String.◌∷◌ c (String.◌∷◌ d s)

  unfoldable pub trim_right : String → String
  trim_right String.[] = ""
  trim_right (String.◌∷◌ c s) = keep_unless c (trim_right s)

  unfoldable pub trim : String → String
  unfolding trim_left trim_right
  trim s = trim_right (trim_left s)

-- `unicode.IsSpace`
abbrev is_space : Char → Bool
is_space c =
    (leb 9 (code c) && leb (code c) 13)
    || any (λ n. code c == n)
        (32 ∷ 0x85 ∷ 0xA0 ∷ 0x1680 ∷ 0x2028 ∷ 0x2029 ∷ 0x202F ∷ 0x205F ∷ 0x3000 ∷ [])
    || (leb 0x2000 (code c) && leb (code c) 0x200A)

-- `strings.TrimSpace`
unfoldable pub trim_space : String → String
unfolding trim
trim_space s = trim is_space s

abbrev has_prefix : List ℕ → List ℕ → Bool
has_prefix [] s = true
has_prefix (n ∷ p) [] = false
has_prefix (n ∷ p) (m ∷ s) = n == m && has_prefix p s

abbrev contains_codes : List ℕ → List ℕ → Bool
contains_codes p [] = has_prefix p []
contains_codes p (m ∷ s) = has_prefix p (m ∷ s) || contains_codes p s

-- `strings.Contains(s, p)`
abbrev pub contains : String → String → Bool
contains s p = contains_codes (codes p) (codes s)

abbrev digit : ℕ → String
digit n =
    elim (get_elem? {A = String} ("0" ∷ "1" ∷ "2" ∷ "3" ∷ "4" ∷ "5" ∷ "6" ∷ "7" ∷ "8" ∷ "9" ∷ [])
      n) [ none ↦ "" | some d ↦ d ]

-- `%d` of a number with at most as many digits as the fuel.
unfoldable pub decimal : ℕ → ℕ → String
decimal zero n = ""
decimal (suc fuel) n =
    let rest = decimal fuel (n / 10) in if ltb n 10 then digit n else rest ++ digit (n % 10)
