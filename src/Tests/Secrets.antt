-- ===== src/Tests/Secrets.antt =====
-- The secret for a TLS bootstrap, made by a server that answers every call.
use cluster_api_provider_bri.Prelude.{ℕ, ◌≡◌, refl, String, none, some, [], ◌∷◌, suc}
use cluster_api_provider_bri.Prelude.Dict.{Dict, lookup, insert}
use cluster_api_provider_bri.Api.Meta.{ok, err, not_found}
use cluster_api_provider_bri.MachineController.Tls.{Parsers, TlsServer}
use cluster_api_provider_bri.MachineController.Tls.Agreement.{Serves, secret-Serves}
use cluster_api_provider_bri.MachineController.Tls.Sources.{sources}
use cluster_api_provider_bri.MachineController.Tls.Secrets.{secret_of, create_bootstrap_secret}
use cluster_api_provider_bri.Tests.{scope}
use cluster_api_provider_bri.Tests.Agents.{env}

abbrev parsers : Parsers
parsers = record {
  unmarshal_clusters = λ text. ok ("certificate" ∷ []);
  unmarshal_users = λ text. ok ("token" ∷ []);
  find_submatch = λ pattern text. "v1.26" ∷ "1.26" ∷ [];
  encode_to_string = λ t. t;
  decode_string = λ t. ok t;
  tokens = record { token_parts = λ t. some ("id", "secret"); format_time = λ n. "" };
}

-- The state counts the secrets that were created.
abbrev tls_server : TlsServer ℕ
tls_server = record {
  now = λ s. (s, 0);
  get_bootstrap_kubeconfig = λ namespace name s. (s, err not_found);
  list_bootstrap_kubeconfigs = λ namespace s. (s, ok []);
  get_secret = λ namespace name s. (s, ok (("bootstrap-kubeconfig", "kubeconfig") ∷ []));
  rest_config = λ s. (s, err not_found);
  generate_token = λ s. (s, ok "token");
  create_token_secret = λ secret s. (s, none);
  read_file = λ path s. (s, err not_found);
  get_remote_client = λ s. (s, none);
  get_config_map = λ name s. (s, err not_found);
  list_daemon_sets = λ s. (s, ok []);
  get_cluster_ip = λ name s. (s, ok "10.0.0.10");
  create_secret = λ secret s. (suc s, none);
}

made_secret :
    create_bootstrap_secret parsers tls_server (scope none) none 0
    ≡ (1, some (ok ("default", "m-tls-bootstrap")))
unfolding create_bootstrap_secret sources lookup insert
made_secret = refl

secret-Serves_example :
    (d : Dict String) × (u : ℕ) × (tls_server.create_secret (secret_of (scope none) d) u
      ≡ (1, none))
    × ◌≡◌ {A = String × String} ("default", "m-tls-bootstrap") ("default", "m-tls-bootstrap")
    × Serves env d
secret-Serves_example =
    secret-Serves parsers tls_server env (scope none) none 0 1 ("default", "m-tls-bootstrap")
      made_secret
