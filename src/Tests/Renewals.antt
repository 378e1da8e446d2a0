-- ===== src/Tests/Renewals.antt =====
-- A BootstrapKubeconfig with data, reconciled once more; the state counts the tokens.
use cluster_api_provider_bri.Prelude.{ℕ, suc, ◌≡◌, refl, false, none, some, []}
use cluster_api_provider_bri.Api.Meta.{ok, err, not_found}
use cluster_api_provider_bri.Tokens.{BootstrapKubeconfig, generate_secret, generate_kubeconfig}
use cluster_api_provider_bri.Tokens.Kubeconfigs.{TokenServer, reconcile}
use cluster_api_provider_bri.Tokens.Kubeconfigs.Renewal.{Counts, reconcile-makes_token}

abbrev config : BootstrapKubeconfig
config = record {
  name = "b";
  namespace = "default";
  owners = [];
  spec = record {
    api_server = "https://10.0.0.1:6443";
    insecure_skip_tls_verify = false;
    certificate_authority_data = "Y2E=";
  };
  status = record {
    bootstrap_kubeconfig_data = some "kubeconfig";
    data_secret_name = "bootstrap-token-id";
    data_secret_created = none;
  };
}

abbrev token_server : TokenServer ℕ
token_server = record {
  now = λ s. (s, 0);
  get_config = λ namespace name s. (s, ok config);
  get_machine = λ namespace name s. (s, err not_found);
  get_cluster = λ namespace name s. (s, err not_found);
  patch = λ before k s. (s, none);
  generate_token = λ s. (s, ok "id.secret");
  create_secret = λ t s. (suc s, none);
  decode_string = λ t. ok t;
  encode_config = λ c. ok "kubeconfig";
  tokens = record { token_parts = λ t. some ("id", "secret"); format_time = λ n. "" };
}

token_server-Counts : Counts token_server (λ s. s)
token_server-Counts = record {
  now = λ s. refl;
  get_config = λ n m s. refl;
  get_machine = λ n m s. refl;
  get_cluster = λ n m s. refl;
  patch = λ k j s. refl;
  generate_token = λ s. refl;
  create_secret = λ t s done. refl;
}

reconciled : (reconcile token_server "default" "b" 0).1 ≡ none
unfolding reconcile generate_secret generate_kubeconfig
reconciled = refl

reconcile-makes_token_example : (reconcile token_server "default" "b" 0).0 ≡ suc 0
reconcile-makes_token_example =
    reconcile-makes_token token_server (λ s. s) token_server-Counts "default" "b" "kubeconfig" 0 0
      config refl refl reconciled
