-- ===== src/Agent/Flags.antt =====
-- `labelFlags` of agent/main.go, the flag with the labels of a host. A map is printed in the order of
-- its list.
pub mod Labels
use Prim.Native.Char.{Char, code}
use cluster_api_provider_bri.Prelude.{
  ℕ, ◌==◌, String, ◌<>◌, Option, none, some, List, [], ◌∷◌, if◌then◌else◌, str_eq,
}
use cluster_api_provider_bri.Prelude.{split, join, trim_space}
use cluster_api_provider_bri.Prelude.Dict.{Dict, insert}
use cluster_api_provider_bri.Api.Meta.{Error, failed}

-- `strings.SplitN(s, sep, 2)`, where the separator is found.
unfoldable pub cut : ℕ → String → Option (String × String)
cut sep String.[] = none
cut sep (String.◌∷◌ c s) =
    let rest = cut sep s in
    if code c == sep
    then some ("", s)
    else elim rest [ none ↦ none | some p ↦ some (String.◌∷◌ c p.0, p.1) ]

-- `String`
abbrev pub pair_text : String × String → String
pair_text (k, v) = k <> ("=" <> v)

abbrev pub pair_texts : Dict String → List String
pair_texts [] = []
pair_texts (p ∷ m) = pair_text p ∷ pair_texts m

unfoldable pub to_string : Dict String → String
to_string m = join "," (pair_texts m)

-- The map after a setting, and the error.
abbrev pub Setting : Type 0
Setting = Dict String × Option Error

abbrev pub with_pair : Option (String × String) → Dict String → Setting
with_pair none m = (m, some (failed "invalid argument value"))
with_pair (some (k, v)) m = (insert (trim_space k) (trim_space v) m, none)

unfoldable pub set_pair : String → Dict String → Setting
unfolding cut trim_space insert
set_pair text m = with_pair (cut b'=' text) m

abbrev pub next_setting : (Dict String → Setting) → Setting → Setting
next_setting f (m, some e) = (m, some e)
next_setting f (m, none) = f m

-- The pairs are set in order, up to the first that is malformed.
unfoldable pub set_pairs : List String → Dict String → Setting
unfolding set_pair
set_pairs [] m = (m, none)
set_pairs (text ∷ texts) m =
    if str_eq text "" then set_pairs texts m else next_setting (set_pairs texts) (set_pair text m)

abbrev pub set_split : String → List String → Dict String → Setting
set_split value (p ∷ q ∷ texts) m = set_pairs (p ∷ q ∷ texts) m
set_split value texts m = set_pair value m

-- `Set`
unfoldable pub set : String → Dict String → Setting
unfolding set_pairs split
set value m = set_split value (split b',' value) m
