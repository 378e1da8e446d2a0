-- ===== src/MachineController/Tls/Extract.antt =====
-- `extractCAFromKubeconfig`, `extractCAFromCloudInit` and `extractTokenFromBootstrapKubeconfig`.
use Prim.Native.Char.{Char, code}
use cluster_api_provider_bri.Prelude.{
  ◌==◌, String, Bool, ◌||◌, Option, none, some, List, [], ◌∷◌, if◌then◌else◌, get_elem?, str_eq,
  split, trim, trim_space, contains,
}
use cluster_api_provider_bri.Api.Meta.{ok, err}
use cluster_api_provider_bri.MachineController.Tls.{Parsers}

-- The first text that is not empty.
unfoldable pub first_non_empty : List String → Option String
first_non_empty [] = none
first_non_empty (t ∷ ts) = let rest = first_non_empty ts in if str_eq t "" then rest else some t

abbrev is_quote : Char → Bool
is_quote c = code c == b'"' || code c == 39

module _ (x : Parsers) where
  abbrev decoded_or : Option String → String → Option String
  decoded_or other text = elim (x.decode_string text) [ ok t ↦ some t | err _ ↦ other ]

  -- The line after a key, where it can be decoded.
  unfoldable pub extract_from_lines : List String → Option String
  extract_from_lines [] = none
  extract_from_lines (line ∷ []) = none
  extract_from_lines (line ∷ next ∷ lines) =
      let rest = extract_from_lines (next ∷ lines) in
      if contains line "certificate-authority-data:"
      then decoded_or rest (trim is_quote (trim_space next))
      else rest

  -- `extractCAFromKubeconfigSimple`
  unfoldable pub extract_simple : String → Option String
  unfolding extract_from_lines split trim trim_space
  extract_simple text =
      if contains text "certificate-authority-data:"
      then extract_from_lines (split b'\n' text)
      else none

  unfoldable pub extract_ca_from_kubeconfig : String → Option String
  unfolding extract_simple first_non_empty
  extract_ca_from_kubeconfig text = elim (x.unmarshal_clusters text) [
    | err _ ↦ extract_simple text
    | ok cas ↦ first_non_empty cas
  ]

  -- The first pattern whose group can be decoded.
  unfoldable pub extract_by : String → List String → Option String
  extract_by script [] = none
  extract_by script (pattern ∷ patterns) =
      let rest = extract_by script patterns in
      elim (get_elem? {A = String} (x.find_submatch pattern script) 1) [
        | none ↦ rest
        | some group ↦ decoded_or rest group
      ]

  unfoldable pub extract_ca_from_cloud_init : String → Option String
  unfolding extract_by
  extract_ca_from_cloud_init script = extract_by script (
      "ca\\.crt[\"']?\\s*:\\s*[\"']?([A-Za-z0-9+/=]+)[\"']?"
      ∷ "certificate-authority-data[\"']?\\s*:\\s*[\"']?([A-Za-z0-9+/=]+)[\"']?" ∷ [])

  -- `extractTokenFromBootstrapKubeconfig`; `none` stands for "".
  unfoldable pub extract_token : String → Option String
  unfolding first_non_empty
  extract_token text = elim (x.unmarshal_users text) [
    | err _ ↦ none
    | ok tokens ↦ first_non_empty tokens
  ]
