-- ===== src/MachineController/Tls/Configs.antt =====
-- The configurations that the secret takes from the workload cluster and from the machine's
-- bootstrap secret, and the kubeconfig of kube-proxy.
use cluster_api_provider_bri.Prelude.{
  String, ◌<>◌, ◌||◌, Option, none, some, List, [], ◌∷◌, if◌then◌else◌, str_eq, is_some, get_elem?,
  split, trim_space,
}
use cluster_api_provider_bri.Prelude.Dict.{Dict, lookup, insert}
use cluster_api_provider_bri.Api.Meta.{Error, Result, ok, err}
use cluster_api_provider_bri.Api.Host.{ByoHost}
use cluster_api_provider_bri.MachineController.Server.{Scope}
use cluster_api_provider_bri.MachineController.Tls.{Parsers, DaemonSet, RestConfig, TlsServer}
use cluster_api_provider_bri.MachineController.Tls.Extract.{extract_token}
use cluster_api_provider_bri.MachineController.Tls.Sources.{
  Found, non_empty, annotated_endpoint, encoded_file, service_account_ca,
}
use cluster_api_provider_bri.MachineController.Tls.Texts.{
  kubelet_config_text, kube_proxy_config_text, token_kubeconfig_text, certificate_kubeconfig_text,
}

-- `m[key] = data`, where there is some.
abbrev pub put : String → Option String → Dict String → Dict String
put key none d = d
put key (some v) d = insert key v d

abbrev pub text_or : String → Option String → String
text_or other none = other
text_or other (some t) = t

-- `generateDefaultKubeletConfig`
unfoldable pub default_kubelet_config : String → String
unfolding kubelet_config_text
default_kubelet_config dns = kubelet_config_text (if str_eq dns "" then "10.96.0.10" else dns)

-- The first address after `-localip`, the last of them.
unfoldable pub scan_args : String → List String → String
unfolding split trim_space
scan_args dns [] = dns
scan_args dns (arg ∷ []) = dns
scan_args dns (arg ∷ next ∷ args) =
    scan_args
      (if str_eq arg "-localip"
        then trim_space (text_or "" (get_elem? {A = String} (split b',' next) 0))
        else dns)
      (next ∷ args)

unfoldable pub scan_containers : String → List (List String) → String
unfolding scan_args
scan_containers dns [] = dns
scan_containers dns (args ∷ containers) = scan_containers (scan_args dns args) containers

-- The address of the node-local DNS.
unfoldable pub node_local_dns : List DaemonSet → String
unfolding scan_containers
node_local_dns [] = ""
node_local_dns (ds ∷ rest) =
    let others = node_local_dns rest in
    let dns = scan_containers "" ds.containers in
    if str_eq ds.name "node-local-dns" || str_eq ds.name "nodelocaldns"
    then (if str_eq dns "" then others else dns)
    else others

module _ (x : Parsers) {S : Type 0} (a : TlsServer S) where
  abbrev listed_dns : S × Result {0} (List DaemonSet) → S × String
  unfolding node_local_dns
  listed_dns (s, err _) = (s, "")
  listed_dns (s, ok sets) = (s, node_local_dns sets)

  abbrev service_ip : S × Result {0} String → S × String
  service_ip (s, err _) = (s, "")
  service_ip (s, ok ip) = (s, ip)

  -- The address of a Service, where none is known yet.
  unfoldable pub service_dns : String → S × String → S × String
  service_dns name (s, dns) =
      if str_eq dns "" then service_ip (a.get_cluster_ip name s) else (s, dns)

  unfoldable pub detect_dns : S → S × String
  unfolding service_dns node_local_dns
  detect_dns s = service_dns "coredns" (service_dns "kube-dns" (listed_dns (a.list_daemon_sets s)))

  unfoldable pub unversioned_kubelet : Dict String → S × Result {0} (Dict String) → S × Dict String
  unfolding detect_dns default_kubelet_config
  unversioned_kubelet d (s, ok m) = (s, put "kubelet-config.yaml" (lookup "kubelet" m) d)
  unversioned_kubelet d (s, err _) =
      let r = detect_dns s in (r.0, insert "kubelet-config.yaml" (default_kubelet_config r.1) d)

  unfoldable pub versioned_kubelet : Dict String → S × Result {0} (Dict String) → S × Dict String
  unfolding unversioned_kubelet
  versioned_kubelet d (s, ok m) = (s, put "kubelet-config.yaml" (lookup "kubelet" m) d)
  versioned_kubelet d (s, err _) = unversioned_kubelet d (a.get_config_map "kubelet-config" s)

  unfoldable pub short_kubelet : Dict String → S → Option String → S × Dict String
  unfolding versioned_kubelet
  short_kubelet d s none = (s, d)
  short_kubelet d s (some short) =
      versioned_kubelet d (a.get_config_map ("kubelet-config-" <> short) s)

  -- The kubelet's configuration for a version.
  unfoldable pub fetch_kubelet : String → S × Dict String → S × Dict String
  unfolding short_kubelet
  fetch_kubelet version (s, d) =
      short_kubelet d s (get_elem? {A = String} (x.find_submatch "v?(\\d+\\.\\d+)" version) 1)

  abbrev pub proxy_config : Dict String → Option String
  proxy_config m = elim (lookup "config.conf" m) [ some v ↦ some v | none ↦ lookup "config.yaml" m ]

  unfoldable pub proxy_fetched : Dict String → S × Result {0} (Dict String) → S × Dict String
  unfolding kube_proxy_config_text
  proxy_fetched d (s, err _) = (s, insert "kube-proxy-config.yaml" kube_proxy_config_text d)
  proxy_fetched d (s, ok m) = (
    s,
    put "kube-proxy.kubeconfig" (lookup "kube-proxy.kubeconfig" m)
        (put "kube-proxy-config.yaml" (proxy_config m) d),
  )

  unfoldable pub fetch_proxy : S × Dict String → S × Dict String
  unfolding proxy_fetched
  fetch_proxy (s, d) = proxy_fetched d (a.get_config_map "kube-proxy" s)

  -- With a client of the workload cluster; the version's pointer is followed without a test.
  unfoldable pub with_remote :
      Option String → Dict String → S × Option Error → S × Option (Dict String)
  unfolding fetch_proxy fetch_kubelet
  with_remote version d (s, some _) = (s, some d)
  with_remote none d (s, none) = (s, none)
  with_remote (some v) d (s, none) = let r = fetch_proxy (fetch_kubelet v (s, d)) in (r.0, some r.1)

  unfoldable pub copy_secret : Dict String → S × Result {0} (Dict String) → S × Dict String
  copy_secret d (s, err _) = (s, d)
  copy_secret d (s, ok m) = (
    s,
    put "kube-proxy.kubeconfig" (lookup "kube-proxy.kubeconfig" m) (
        if is_some (lookup "kubelet-config.yaml" d)
        then d
        else put "kubelet-config.yaml" (lookup "kubelet-config.yaml" m) d),
  )

  -- The machine's own bootstrap secret, where it is named.
  unfoldable pub copy_local : Scope → Option String → S × Dict String → S × Dict String
  unfolding copy_secret
  copy_local p none (s, d) = (s, d)
  copy_local p (some name) (s, d) = copy_secret d (a.get_secret p.byo_machine.meta.namespace name s)

  abbrev rest_file : RestConfig → S → S × String
  rest_file c s =
      if str_eq c.ca_file "" then (s, "") else encoded_file x a (a.read_file c.ca_file s)

  abbrev rest_ca : S × Result {0} RestConfig → S × String
  rest_ca (s, err _) = (s, "")
  rest_ca (s, ok c) = elim c.ca_data [ some ca ↦ (s, x.encode_to_string ca) | none ↦ rest_file c s ]

  -- The encoded certificate: the one that was found, or that of the cluster of the controller.
  unfoldable pub encoded_certificate : Option String → S → S × String
  encoded_certificate (some ca) s = (s, x.encode_to_string ca)
  encoded_certificate none s = rest_ca (a.rest_config s)

  unfoldable pub kubeconfig_with_token : String → Option String → S × Dict String → S × Dict String
  unfolding token_kubeconfig_text
  kubeconfig_with_token endpoint none (s, d) = (s, d)
  kubeconfig_with_token endpoint (some token) (s, d) =
      let r = encoded_file x a (a.read_file (service_account_ca x a) s) in
      (r.0, insert "kube-proxy.kubeconfig" (token_kubeconfig_text r.1 endpoint token) d)

  abbrev pub token_of : Option String → Option String
  token_of none = none
  token_of (some text) = extract_token x text

  unfoldable pub kubeconfig_with :
      String → Option String → Dict String → S × String → S × Dict String
  unfolding kubeconfig_with_token certificate_kubeconfig_text
  kubeconfig_with endpoint kubeconfig d (s, ca) =
      if str_eq ca ""
      then kubeconfig_with_token endpoint (token_of kubeconfig) (s, d)
      else (s, insert "kube-proxy.kubeconfig" (certificate_kubeconfig_text ca endpoint) d)

  -- The kubeconfig of kube-proxy, where there is none yet.
  unfoldable pub add_kubeconfig :
      Option ByoHost → String → Found → S × Dict String → S × Dict String
  unfolding kubeconfig_with encoded_certificate annotated_endpoint
  add_kubeconfig h endpoint f (s, d) =
      if is_some (lookup "kube-proxy.kubeconfig" d)
      then (s, d)
      else kubeconfig_with (if str_eq endpoint "" then annotated_endpoint h else endpoint)
          (non_empty f.kubeconfig) d (encoded_certificate (non_empty f.ca) s)
