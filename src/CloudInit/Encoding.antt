-- ===== src/CloudInit/Encoding.antt =====
-- The content of a file: `parseEncodingScheme` and `decodeContent` of agent/cloudinit/cloudinit.go.
pub mod Laws
use cluster_api_provider_bri.Prelude.{String, Bool, ◌||◌, List, [], ◌∷◌, str_eq, if◌then◌else◌}
use cluster_api_provider_bri.Api.Meta.{Error, failed, Result, ok, err}

-- `strings.TrimSpace(strings.ToLower(e))`, and the decoders of base64 and gzip.
pub record Decoders : Type 0 where
  pub normal_scheme : String → String
  pub decode_string : String → Result {0} String
  pub gunzip_data : String → Result {0} String

module _ (d : Decoders) where
  unfoldable pub parse_encoding_scheme : String → List String
  parse_encoding_scheme scheme =
      let e = d.normal_scheme scheme in
      if str_eq e "gz+base64" || str_eq e "gzip+base64" || str_eq e "gz+b64" || str_eq e "gzip+b64"
      then "application/base64" ∷ "application/x-gzip" ∷ []
      else if str_eq e "base64" || str_eq e "b64"
      then "application/base64" ∷ []
      else "text/plain" ∷ []

  -- One turn of the loop.
  unfoldable pub decode_one : String → String → Result {0} String
  decode_one content e =
      if str_eq e "application/base64"
      then d.decode_string content
      else if str_eq e "application/x-gzip"
      then d.gunzip_data content
      else if str_eq e "text/plain"
      then ok content
      else err (failed "Unknown bootstrap data encoding")

  unfoldable pub decode_content : String → List String → Result {0} String
  unfolding decode_one
  decode_content content [] = ok content
  decode_content content (e ∷ encodings) = elim (decode_one content e) [
    | ok decoded ↦ decode_content decoded encodings
    | err x ↦ err x
  ]
