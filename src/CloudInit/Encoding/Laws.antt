-- ===== src/CloudInit/Encoding/Laws.antt =====
-- What is decoded is what was encoded.
use cluster_api_provider_bri.Prelude.{◌≡◌, refl, ◌⊎◌, inl, inr, String, [], ◌∷◌}
use cluster_api_provider_bri.Api.Meta.{ok}
use cluster_api_provider_bri.CloudInit.Encoding.{
  Decoders, parse_encoding_scheme, decode_one, decode_content,
}

-- The names of the scheme that zips, then encodes.
abbrev pub IsZipped : String → Type 0
IsZipped e = (e ≡ "gz+base64") ⊎ (e ≡ "gzip+base64") ⊎ (e ≡ "gz+b64") ⊎ (e ≡ "gzip+b64")

module _ (d : Decoders) where
  zipped_scheme :
      (scheme : String)
      → IsZipped (d.normal_scheme scheme)
      → parse_encoding_scheme d scheme ≡ "application/base64" ∷ "application/x-gzip" ∷ []
  unfolding parse_encoding_scheme
  zipped_scheme scheme (inl e) = rw e refl
  zipped_scheme scheme (inr (inl e)) = rw e refl
  zipped_scheme scheme (inr (inr (inl e))) = rw e refl
  zipped_scheme scheme (inr (inr (inr e))) = rw e refl

  decode_zipped :
      (content zipped plain : String)
      → d.decode_string content ≡ ok zipped
      → d.gunzip_data zipped ≡ ok plain
      → decode_content d content ("application/base64" ∷ "application/x-gzip" ∷ []) ≡ ok plain
  unfolding decode_content decode_one
  decode_zipped content zipped plain first second = rw first (rw second refl)

  -- Under each of the four names of the scheme, a text that is zipped and then encoded in base64 is
  -- decoded to itself, where the two decoders undo the two encoders.
  pub decode-encode :
      (zip encode : String → String) (scheme plain : String)
      → ((t : String) → d.decode_string (encode t) ≡ ok t)
      → ((t : String) → d.gunzip_data (zip t) ≡ ok t)
      → IsZipped (d.normal_scheme scheme)
      → decode_content d (encode (zip plain)) (parse_encoding_scheme d scheme) ≡ ok plain
  decode-encode zip encode scheme plain decodes unzips named =
      rw (zipped_scheme scheme named)
        (decode_zipped (encode (zip plain)) (zip plain) plain (decodes (zip plain)) (unzips plain))
