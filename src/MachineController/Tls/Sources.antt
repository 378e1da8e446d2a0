-- ===== src/MachineController/Tls/Sources.antt =====
-- The four sources of the certificate and of the bootstrap kubeconfig, in the order of the code.
use cluster_api_provider_bri.Prelude.{
  ◌*◌, String, ◌<>◌, ◌||◌, Option, none, some, List, [], ◌∷◌, if◌then◌else◌, str_eq, is_some,
  decimal,
}
use cluster_api_provider_bri.Prelude.Dict.{Dict, lookup}
use cluster_api_provider_bri.Api.Names.{end_point_ip_annotation}
use cluster_api_provider_bri.Api.Meta.{
  ObjectReference, Error, already_exists, Result, ok, err, minute,
}
use cluster_api_provider_bri.Api.Host.{ByoHost, is_tls_bootstrap}
use cluster_api_provider_bri.Api.Machine.{Cluster}
use cluster_api_provider_bri.Tokens.{TokenSecret, BootstrapKubeconfig, generate_secret}
use cluster_api_provider_bri.MachineController.Server.{Scope}
use cluster_api_provider_bri.MachineController.Tls.{Parsers, RestConfig, TlsServer}
use cluster_api_provider_bri.MachineController.Tls.Extract.{
  extract_ca_from_kubeconfig, extract_ca_from_cloud_init,
}
use cluster_api_provider_bri.MachineController.Tls.Texts.{bootstrap_kubeconfig_text}

-- `caData` and `bootstrapKubeconfigData`; `none` is nil.
pub record Found : Type 0 where
  pub ca : Option String
  pub kubeconfig : Option String

abbrev pub nothing : Found
nothing = record { ca = none; kubeconfig = none }

-- `data, ok := …; ok && len(data) > 0`
abbrev pub non_empty : Option String → Option String
non_empty none = none
non_empty (some t) = if str_eq t "" then none else some t

unfoldable pub annotated_endpoint : Option ByoHost → String
annotated_endpoint none = "https://127.0.0.1:6443"
annotated_endpoint (some h) = elim (non_empty (lookup end_point_ip_annotation h.meta.annotations)) [
  | none ↦ "https://127.0.0.1:6443"
  | some ip ↦ "https://" <> ip
]

unfoldable pub api_server_endpoint : Cluster → Option ByoHost → String
unfolding annotated_endpoint decimal
api_server_endpoint cluster h =
    if str_eq cluster.endpoint_host ""
    then annotated_endpoint h
    else "https://" <> (cluster.endpoint_host <> (":" <> decimal 10 cluster.endpoint_port))

unfoldable pub first_with_data : List BootstrapKubeconfig → Option String
first_with_data [] = none
first_with_data (k ∷ ks) =
    let rest = first_with_data ks in
    elim (non_empty k.status.bootstrap_kubeconfig_data) [ none ↦ rest | some t ↦ some t ]

module _ (x : Parsers) where
  -- A certificate, where there is none yet.
  abbrev pub with_ca : Option String → Found → Found
  with_ca ca f = elim f.ca [ none ↦ record f { ca = ca } | some _ ↦ f ]

  unfoldable pub take : Option String → Found → Found
  unfolding extract_ca_from_kubeconfig
  take none f = f
  take (some text) f =
      with_ca (extract_ca_from_kubeconfig x text) (record f { kubeconfig = some text })

  unfoldable pub from_cloud_init : Option String → Found → Found
  unfolding extract_ca_from_cloud_init
  from_cloud_init none f = f
  from_cloud_init (some script) f = with_ca (extract_ca_from_cloud_init x script) f

  -- What the machine's bootstrap secret holds.
  unfoldable pub from_secret : Dict String → Found → Found
  unfolding take from_cloud_init
  from_secret d f = from_cloud_init (non_empty (lookup "value" d)) (
      with_ca (non_empty (lookup "ca.crt" d))
        (take (non_empty (lookup "bootstrap-kubeconfig" d)) f))

  module _ {S : Type 0} (a : TlsServer S) where
    unfoldable pub config_read : Found → S × Result {0} BootstrapKubeconfig → S × Found
    unfolding take
    config_read f (s, err _) = (s, f)
    config_read f (s, ok k) = (s, take (non_empty k.status.bootstrap_kubeconfig_data) f)

    -- The first source: `spec.bootstrapConfigRef`
    unfoldable pub from_reference : Option ObjectReference → S → S × Found
    unfolding config_read
    from_reference none s = (s, nothing)
    from_reference (some ref) s =
        config_read nothing (a.get_bootstrap_kubeconfig ref.namespace ref.name s)

    unfoldable pub configs_read : Found → S × Result {0} (List BootstrapKubeconfig) → S × Found
    unfolding take first_with_data
    configs_read f (s, err _) = (s, f)
    configs_read f (s, ok ks) = (s, take (first_with_data ks) f)

    -- The second source: any BootstrapKubeconfig, unless the machine is in TLS mode.
    unfoldable pub from_list : Scope → S × Found → S × Found
    unfolding configs_read
    from_list p (s, f) = elim f.kubeconfig [
      | some _ ↦ (s, f)
      | none ↦
          if is_tls_bootstrap p.byo_machine.spec.join_mode
          then (s, f)
          else configs_read f (a.list_bootstrap_kubeconfigs p.byo_machine.meta.namespace s)
    ]

    unfoldable pub secret_read : Found → S × Result {0} (Dict String) → S × Found
    unfolding from_secret
    secret_read f (s, err _) = (s, f)
    secret_read f (s, ok d) = (s, from_secret d f)

    -- The third source: the machine's bootstrap secret.
    unfoldable pub from_bootstrap_secret : Scope → Option String → S × Found → S × Found
    unfolding secret_read
    from_bootstrap_secret p none (s, f) = (s, f)
    from_bootstrap_secret p (some name) (s, f) = elim f.kubeconfig [
      | some _ ↦ (s, f)
      | none ↦ secret_read f (a.get_secret p.byo_machine.meta.namespace name s)
    ]

    abbrev pub service_account_ca : String
    service_account_ca = "/var/run/secrets/kubernetes.io/serviceaccount/ca.crt"

    abbrev pub encoded_file : S × Result {0} String → S × String
    encoded_file (s, err _) = (s, "")
    encoded_file (s, ok text) = (s, x.encode_to_string text)

    unfoldable pub encoded_ca : RestConfig → S → S × String
    encoded_ca c s = elim (non_empty c.ca_data) [
      | some ca ↦ (s, x.encode_to_string ca)
      | none ↦ encoded_file (a.read_file service_account_ca s)
    ]

    -- The token's secret is created; that it exists already is no error.
    unfoldable pub token_created :
        RestConfig → String → String → S × Option Error → S × Result {0} String
    unfolding encoded_ca
    token_created c endpoint token (s, none) =
        let r = encoded_ca c s in (r.0, ok (bootstrap_kubeconfig_text r.1 endpoint token))
    token_created c endpoint token (s, some already_exists) =
        let r = encoded_ca c s in (r.0, ok (bootstrap_kubeconfig_text r.1 endpoint token))
    token_created c endpoint token (s, some e) = (s, err e)

    unfoldable pub token_secret_made :
        RestConfig → String → String → S → Result {0} TokenSecret → S × Result {0} String
    unfolding token_created
    token_secret_made c endpoint token s (err e) = (s, err e)
    token_secret_made c endpoint token s (ok secret) =
        token_created c endpoint token (a.create_token_secret secret s)

    -- `generateBootstrapKubeconfigWithToken`, with the time to live of a token
    unfoldable pub token_generated :
        RestConfig → String → S × Result {0} String → S × Result {0} String
    unfolding token_secret_made generate_secret
    token_generated c endpoint (s, err e) = (s, err e)
    token_generated c endpoint (s, ok token) =
        token_secret_made c endpoint token (a.now s).0
          (generate_secret x.tokens token (30 * minute) (a.now s).1)

    unfoldable pub kubeconfig_generated : Found → S × Result {0} String → S × Found
    unfolding take
    kubeconfig_generated f (s, err _) = (s, f)
    kubeconfig_generated f (s, ok text) = (s, take (some text) f)

    unfoldable pub from_rest_config : String → Found → S × Result {0} RestConfig → S × Found
    unfolding kubeconfig_generated token_generated
    from_rest_config endpoint f (s, err _) = (s, f)
    from_rest_config endpoint f (s, ok c) =
        kubeconfig_generated f (token_generated c endpoint (a.generate_token s))

    -- The fourth source: a new token. It has the endpoint, which is "" where it is not reached.
    unfoldable pub from_token : Scope → Option ByoHost → S × Found → (S × Found) × String
    unfolding from_rest_config api_server_endpoint
    from_token p h (s, f) = if is_some f.ca || is_some f.kubeconfig then ((s, f), "") else (
      from_rest_config (api_server_endpoint p.cluster h) f (a.rest_config s),
      api_server_endpoint p.cluster h,
    )

    unfoldable pub sources : Scope → Option ByoHost → S → (S × Found) × String
    unfolding from_token from_bootstrap_secret from_list from_reference
    sources p h s = from_token p h (
        from_bootstrap_secret p p.machine.data_secret_name
          (from_list p (from_reference p.byo_machine.spec.bootstrap_config_ref s)))
