-- ===== src/MachineController/Tls/Secrets.antt =====
-- The secret put together and created, and the call of the ByoMachine controller that it answers.
use cluster_api_provider_bri.Prelude.{
  String, ◌<>◌, Bool, ◌||◌, Option, none, some, [], if◌then◌else◌, is_some,
}
use cluster_api_provider_bri.Prelude.Dict.{Dict}
use cluster_api_provider_bri.Api.Meta.{Error, failed, Result, ok, err}
use cluster_api_provider_bri.Api.Host.{ByoHost}
use cluster_api_provider_bri.MachineController.Server.{Server, Scope}
use cluster_api_provider_bri.MachineController.Tls.{Parsers, Secret, TlsServer}
use cluster_api_provider_bri.MachineController.Tls.Sources.{Found, non_empty, sources}
use cluster_api_provider_bri.MachineController.Tls.Configs.{
  put, with_remote, copy_local, add_kubeconfig,
}

-- The keys for what was found.
unfoldable pub first_keys : Found → Dict String
first_keys f =
    put "bootstrap-kubeconfig" (non_empty f.kubeconfig) (put "ca.crt" (non_empty f.ca) [])

unfoldable pub is_found : Found → Bool
is_found f = is_some (non_empty f.ca) || is_some (non_empty f.kubeconfig)

abbrev pub secret_of : Scope → Dict String → Secret
secret_of p d = record {
  name = p.byo_machine.meta.name <> "-tls-bootstrap";
  namespace = p.byo_machine.meta.namespace;
  owner = p.byo_machine;
  contents = d;
}

module _ (x : Parsers) {S : Type 0} (a : TlsServer S) where
  -- `none` where a nil pointer is followed.
  abbrev pub Made : Type 0
  Made = S × Option (Result {0} (String × String))

  unfoldable pub created : Scope → S × Option Error → Made
  created p (s, some e) = (s, some (err e))
  created p (s, none) =
      (s, some (ok (p.byo_machine.meta.namespace, p.byo_machine.meta.name <> "-tls-bootstrap")))

  unfoldable pub with_configs :
      Scope → Option ByoHost → Found → String → S × Option (Dict String) → S × Option (Dict String)
  unfolding copy_local add_kubeconfig
  with_configs p h f endpoint (s, none) = (s, none)
  with_configs p h f endpoint (s, some d) =
      let r =
        add_kubeconfig x a h endpoint f (copy_local x a p p.machine.data_secret_name (s, d)) in
      (r.0, some r.1)

  -- The data of the secret.
  unfoldable pub contents_of :
      Scope → Option ByoHost → Found → String → S → S × Option (Dict String)
  unfolding with_configs with_remote first_keys
  contents_of p h f endpoint s =
      with_configs p h f endpoint
        (with_remote x a p.machine.version (first_keys f) (a.get_remote_client s))

  unfoldable pub create : Scope → S × Option (Dict String) → Made
  unfolding created
  create p (s, none) = (s, none)
  create p (s, some d) = created p (a.create_secret (secret_of p d) s)

  unfoldable pub from_found : Scope → Option ByoHost → (S × Found) × String → Made
  unfolding create contents_of is_found
  from_found p h ((s, f), endpoint) =
      if is_found f then create p (contents_of p h f endpoint s) else (
        s,
        some (
            err (
              failed
                "failed to obtain CA certificate or bootstrap kubeconfig for TLS Bootstrap mode")),
      )

  -- `createBootstrapSecretTLSBootstrap`
  unfoldable pub create_bootstrap_secret : Scope → Option ByoHost → S → Made
  unfolding from_found sources
  create_bootstrap_secret p h s = from_found p h (sources x a p h s)

  -- The calls of the controller, with this function in its place.
  unfoldable pub with_tls : Server S → Server S
  unfolding create_bootstrap_secret
  with_tls server = record server {
    tls_bootstrap_secret = λ p h s. create_bootstrap_secret p (some h) s;
  }
