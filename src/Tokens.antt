-- ===== src/Tokens.antt =====
-- Bootstrap tokens: common/bootstraptoken/token.go, and the constants of
-- apis/infrastructure/v1beta1/bootstrapkubeconfig_types.go. The pattern of a token and the format of a
-- time are the libraries'.
pub mod Kubeconfigs
use cluster_api_provider_bri.Prelude.{ℕ, ◌+◌, String, ◌<>◌, Bool, Option, none, some, List, [], ◌∷◌}
use cluster_api_provider_bri.Prelude.Dict.{Dict}
use cluster_api_provider_bri.Api.Meta.{failed, Result, ok, err}

-- `BootstrapTokenRegexp.FindStringSubmatch`, which gives the two parts, and the format RFC 3339.
pub record TokenOps : Type 0 where
  pub token_parts : String → Option (String × String)
  pub format_time : ℕ → String

-- A `corev1.Secret`, the fields that the code sets.
pub record TokenSecret : Type 0 where
  pub name : String
  pub namespace : String
  pub kind : String
  pub contents : Dict String

-- `clientcmdapi.Config` with one cluster, one user and one context.
pub record TokenConfig : Type 0 where
  pub server : String
  pub insecure_skip_tls_verify : Bool
  pub certificate_authority_data : String
  pub token : String

pub record BootstrapKubeconfigSpec : Type 0 where
  pub api_server : String
  pub insecure_skip_tls_verify : Bool
  pub certificate_authority_data : String

pub record BootstrapKubeconfigStatus : Type 0 where
  pub bootstrap_kubeconfig_data : Option String
  pub data_secret_name : String
  pub data_secret_created : Option Bool

-- `owners` are the kinds and names of the owner references.
pub record BootstrapKubeconfig : Type 0 where
  pub name : String
  pub namespace : String
  pub owners : List (String × String)
  pub spec : BootstrapKubeconfigSpec
  pub status : BootstrapKubeconfigStatus

abbrev pub bootstrap_token_description : String
bootstrap_token_description = "Token generated by cluster-api-provider-bringyourownhost"

abbrev pub bootstrap_token_extra_groups : String
bootstrap_token_extra_groups = "system:bootstrappers:byoh"

module _ (t : TokenOps) where
  -- `GetTokenIDSecretFromBootstrapToken`
  unfoldable pub token_id_secret : String → Result {0} (String × String)
  token_id_secret token = elim (t.token_parts token) [
    | none ↦ err (failed "the bootstrap token was not of the form")
    | some parts ↦ ok parts
  ]

  unfoldable pub secret_of_parts : ℕ → Result {0} (String × String) → Result {0} TokenSecret
  secret_of_parts expiration (err e) = err e
  secret_of_parts expiration (ok (id, secret)) = ok (record {
    name = "bootstrap-token-" <> id;
    namespace = "kube-system";
    kind = "bootstrap.kubernetes.io/token";
    contents =
        ("token-id", id)
        ∷ ("token-secret", secret)
        ∷ ("expiration", t.format_time expiration)
        ∷ ("usage-bootstrap-signing", "true")
        ∷ ("usage-bootstrap-authentication", "true")
        ∷ ("description", bootstrap_token_description)
        ∷ ("auth-extra-groups", bootstrap_token_extra_groups)
        ∷ [];
  })

  -- `GenerateSecretFromBootstrapToken` at a time
  unfoldable pub generate_secret : String → ℕ → ℕ → Result {0} TokenSecret
  unfolding token_id_secret secret_of_parts
  generate_secret token ttl now = secret_of_parts (now + ttl) (token_id_secret token)

  unfoldable pub config_of_parts :
      BootstrapKubeconfig → Result {0} (String × String) → Result {0} TokenConfig
  config_of_parts k (err e) = err e
  config_of_parts k (ok (id, secret)) = ok (record {
    server = k.spec.api_server;
    insecure_skip_tls_verify = k.spec.insecure_skip_tls_verify;
    certificate_authority_data = k.spec.certificate_authority_data;
    token = id <> ("." <> secret);
  })

  -- `GenerateBootstrapKubeconfigFromBootstrapToken`
  unfoldable pub generate_kubeconfig : String → BootstrapKubeconfig → Result {0} TokenConfig
  unfolding token_id_secret config_of_parts
  generate_kubeconfig token k = config_of_parts k (token_id_secret token)
