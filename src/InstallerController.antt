-- ===== src/InstallerController.antt =====
-- controllers/infrastructure/k8sinstallerconfig_controller.go: the secret with the scripts that install
-- and uninstall Kubernetes. A patch helper, which fails only on an object that cannot be converted, is
-- taken to be made.
pub mod Ready
use cluster_api_provider_bri.Prelude.{
  String, Bool, true, false, not, ◌&&◌, ◌||◌, Option, none, some, List, [], ◌∷◌, map, if◌then◌else◌,
  is_some, str_eq, starts_with,
}
use cluster_api_provider_bri.Prelude.Dict.{Dict, lookup, insert}
use cluster_api_provider_bri.Api.Names.{
  cluster_name_label, k8s_version_annotation, byo_host_ready, installation_secret_not_available,
}
use cluster_api_provider_bri.Api.Meta.{
  ObjectReference, ObjectMeta, Error, already_exists, failed, Result, ok, err, is_not_found, has,
  FinalizerOps,
}
use cluster_api_provider_bri.Api.Conditions.{ConditionOps}
use cluster_api_provider_bri.Api.Host.{DownloadMode, is_tls_bootstrap}
use cluster_api_provider_bri.Api.Machine.{ByoMachine, ByoCluster, Machine, Cluster}
use cluster_api_provider_bri.Tokens.{BootstrapKubeconfig}
use cluster_api_provider_bri.Installer.Creation.{
  BundleDownloader, Choice, new_installer, new_kubexm_installer,
}

abbrev pub installer_config_finalizer : String
installer_config_finalizer = "k8sinstallerconfig.infrastructure.cluster.x-k8s.io"

-- The API version, kind and name of an owner.
pub record Owner : Type 0 where
  pub api_version : String
  pub kind : String
  pub name : String

pub record InstallerConfig : Type 0 where
  pub kind : String
  pub meta : ObjectMeta
  pub owners : List Owner
  pub bundle_repo : String
  pub bundle_type : String
  pub ready : Bool
  pub installation_secret : Option ObjectReference

-- The secret that is made; its owner is the configuration.
pub record InstallationSecret : Type 0 where
  pub name : String
  pub namespace : String
  pub labels : Dict String
  pub owner : InstallerConfig
  pub contents : Dict String

-- The calls over the state `S` of the world outside.
pub record InstallerServer (S : Type 0) : Type 0 where
  pub get_config : String → String → S → S × Result {0} InstallerConfig
  -- `ParseGroupVersion`, whether the group is that of the infrastructure API
  pub is_own_group : String → Result {0} Bool
  pub get_byo_machine : String → String → S → S × Result {0} ByoMachine
  pub get_cluster : ByoMachine → S → S × Result {0} Cluster
  -- the name of the cluster's infrastructure object, where there is one
  pub infrastructure_ref : Cluster → Option String
  pub get_byo_cluster : String → String → S → S × Result {0} ByoCluster
  pub is_paused : Cluster → InstallerConfig → Bool
  pub list_bootstrap_kubeconfigs : String → S → S × Result {0} (List BootstrapKubeconfig)
  pub get_owner_machine : ByoMachine → S → S × Result {0} (Option Machine)
  pub get_secret : String → String → S → S × Result {0} (Dict String)
  pub create_secret : InstallationSecret → S → S × Option Error
  pub update_secret : InstallationSecret → S → S × Option Error
  pub patch : InstallerConfig → InstallerConfig → S → S × Option Error
  pub list_configs : String → S → S × Result {0} (List InstallerConfig)
  -- `strings.ToLower`, `regexp.MatchString`, and the scripts of an installer of the package algo
  pub to_lower : String → String
  pub match_string : String → String → Bool
  pub scripts : Choice → Result {0} (String × String)

-- The join mode is by the machine; `DownloadMode` is "online" where it is not set.
abbrev pub mode_text : DownloadMode → String
mode_text DownloadMode.unset = "online"
mode_text DownloadMode.offline = "offline"
mode_text DownloadMode.online = "online"

abbrev pub k8s_version : InstallerConfig → String
k8s_version c = elim (lookup k8s_version_annotation c.meta.annotations) [ none ↦ "" | some v ↦ v ]

abbrev pub downloader : InstallerConfig → BundleDownloader
downloader c = record {
  bundle_type = c.bundle_type;
  repo_addr = c.bundle_repo;
  download_path = "{{.BUNDLE_DOWNLOAD_PATH}}";
}

abbrev set_if : Bool → String → String → Dict String → Dict String
set_if b key v d = if b then insert key v d else d

-- The proxies among the annotations of the ByoCluster.
unfoldable pub proxy_config : Dict String → Dict String → Dict String
proxy_config [] d = d
proxy_config ((k, v) ∷ annotations) d = proxy_config annotations (
    set_if (starts_with k "infrastructure.cluster.x-k8s.io/no-proxy") "no-proxy" v (
      set_if (starts_with k "infrastructure.cluster.x-k8s.io/https-proxy") "https-proxy" v
        (set_if (starts_with k "infrastructure.cluster.x-k8s.io/http-proxy") "http-proxy" v d)))

unfoldable pub first_data : List BootstrapKubeconfig → Option String
first_data [] = none
first_data (k ∷ ks) =
    let rest = first_data ks in
    elim k.status.bootstrap_kubeconfig_data [ none ↦ rest | some t ↦ some t ]

abbrev pub secret_of : InstallerConfig → Cluster → Dict String → InstallationSecret
secret_of c cluster contents = record {
  name = c.meta.name;
  namespace = c.meta.namespace;
  labels = (cluster_name_label, cluster.name) ∷ [];
  owner = c;
  contents = contents;
}

-- The configuration with its secret; the kind of a secret that the code made is "".
abbrev pub with_installation_secret : InstallerConfig → InstallerConfig
with_installation_secret c = record c {
  installation_secret = some (record {
    api_version = "";
    kind = "";
    namespace = c.meta.namespace;
    name = c.meta.name;
    uid = "";
  });
  ready = true;
}

-- What a part ends with: the state, the configuration in memory and an error; a nil pointer followed;
-- or no configuration.
pub data Ended (S : Type 0) : Type 0 where
  returned : S → InstallerConfig → Option Error → Ended S
  crashed : S → InstallerConfig → Ended S
  absent : S → Option Error → Ended S

-- `hasOwnerReferenceFrom`
unfoldable pub has_owner_reference_from : List Owner → String → String → Bool
has_owner_reference_from [] kind name = false
has_owner_reference_from (o ∷ owners) kind name =
    (str_eq o.kind kind && str_eq o.name name) || has_owner_reference_from owners kind name

unfoldable pub owned_configs : ByoMachine → List InstallerConfig → List (String × String)
unfolding has_owner_reference_from
owned_configs m [] = []
owned_configs m (c ∷ cs) =
    let rest = owned_configs m cs in
    if has_owner_reference_from c.owners "ByoMachine" m.meta.name
    then (c.meta.namespace, c.meta.name) ∷ rest
    else rest

abbrev is_template : Option ObjectReference → Bool
is_template none = false
is_template (some ref) =
    str_eq ref.api_version "infrastructure.cluster.x-k8s.io/v1beta1"
    && str_eq ref.kind "K8sInstallerConfigTemplate"

module _ {S : Type 0} (a : InstallerServer S) where
  -- `GetOwnerByoMachine`: the machine of the first owner that is a ByoMachine.
  unfoldable pub owner_machine : String → List Owner → S → S × Result {0} (Option ByoMachine)
  owner_machine namespace [] s = (s, ok none)
  owner_machine namespace (o ∷ owners) s =
      let rest = owner_machine namespace owners s in
      let found = a.get_byo_machine namespace o.name s in
      elim (a.is_own_group o.api_version) [
        | err e ↦ (s, err e)
        | ok own ↦
            if str_eq o.kind "ByoMachine" && own
            then (found.0, elim found.1 [ err e ↦ err e | ok m ↦ ok (some m) ])
            else rest
      ]

  -- The proxies of the ByoCluster, where it is found; `none` where the cluster names no
  -- infrastructure.
  abbrev proxies_of : S × Result {0} ByoCluster → S × Option (Dict String)
  proxies_of (s, err _) = (s, some [])
  proxies_of (s, ok c) = (s, some (proxy_config c.meta.annotations []))

  abbrev named_cluster : ByoMachine → Option String → S → S × Option (Dict String)
  named_cluster m none s = (s, none)
  named_cluster m (some name) s = proxies_of (a.get_byo_cluster m.meta.namespace name s)

  unfoldable pub cluster_proxies : ByoMachine → S × Result {0} Cluster → S × Option (Dict String)
  unfolding proxy_config
  cluster_proxies m (s, err _) = (s, some [])
  cluster_proxies m (s, ok cluster) = named_cluster m (a.infrastructure_ref cluster) s

  -- `getProxyConfig`
  unfoldable pub get_proxy_config : ByoMachine → S → S × Option (Dict String)
  unfolding cluster_proxies
  get_proxy_config m s = cluster_proxies m (a.get_cluster m s)

  abbrev secret_value : S × Result {0} (Dict String) → S × Result {0} (Option String)
  secret_value (s, err e) = (s, err e)
  secret_value (s, ok d) = (s, ok (lookup "value" d))

  unfoldable pub machine_secret :
      ByoMachine → S × Result {0} (Option Machine) → S × Result {0} (Option String)
  machine_secret m (s, err e) = (s, err e)
  machine_secret m (s, ok none) = (s, ok none)
  machine_secret m (s, ok (some machine)) = elim machine.data_secret_name [
    | none ↦ (s, ok none)
    | some name ↦ secret_value (a.get_secret m.meta.namespace name s)
  ]

  unfoldable pub listed_data :
      ByoMachine → S × Result {0} (List BootstrapKubeconfig) → S × Result {0} (Option String)
  unfolding first_data machine_secret
  listed_data m (s, err e) = (s, err e)
  listed_data m (s, ok ks) = elim (first_data ks) [
    | some text ↦ (s, ok (some text))
    | none ↦ machine_secret m (a.get_owner_machine m s)
  ]

  -- `getBootstrapKubeconfigData`
  unfoldable pub get_bootstrap_kubeconfig_data : ByoMachine → S → S × Result {0} (Option String)
  unfolding listed_data
  get_bootstrap_kubeconfig_data m s =
      listed_data m (a.list_bootstrap_kubeconfigs m.meta.namespace s)

  -- The bootstrap kubeconfig goes into the secret where it is found; an error is logged.
  unfoldable pub add_kubeconfig : Dict String → S × Result {0} (Option String) → S × Dict String
  add_kubeconfig d (s, err _) = (s, d)
  add_kubeconfig d (s, ok none) = (s, d)
  add_kubeconfig d (s, ok (some text)) =
      (s, if str_eq text "" then d else insert "bootstrap-kubeconfig" text d)

  unfoldable pub secret_contents : ByoMachine → String × String → S → S × Dict String
  unfolding add_kubeconfig get_bootstrap_kubeconfig_data
  secret_contents m (install, uninstall) s =
      let d = ("install", install) ∷ ("uninstall", uninstall) ∷ [] in
      if is_tls_bootstrap m.spec.join_mode
      then add_kubeconfig d (get_bootstrap_kubeconfig_data m s)
      else (s, d)

  unfoldable pub updated : InstallerConfig → S × Option Error → Ended S
  updated c (s, some e) = returned s c (some e)
  updated c (s, none) = returned s (with_installation_secret c) none

  -- A secret that exists already is updated.
  unfoldable pub created : InstallerConfig → InstallationSecret → S × Option Error → Ended S
  unfolding updated
  created c secret (s, none) = returned s (with_installation_secret c) none
  created c secret (s, some already_exists) = updated c (a.update_secret secret s)
  created c secret (s, some e) = returned s c (some e)

  -- `storeInstallationData`
  unfoldable pub store_installation_data :
      InstallerConfig → ByoMachine → Cluster → String × String → S → Ended S
  unfolding created secret_contents
  store_installation_data c m cluster texts s =
      let r = secret_contents m texts s in
      created c (secret_of c cluster r.1) (a.create_secret (secret_of c cluster r.1) r.0)

  unfoldable pub with_scripts :
      InstallerConfig → ByoMachine → Cluster → S → Result {0} (String × String) → Ended S
  unfolding store_installation_data
  with_scripts c m cluster s (err e) = returned s c (some e)
  with_scripts c m cluster s (ok texts) = store_installation_data c m cluster texts s

  abbrev pub scripts_of : Result {0} Choice → Result {0} (String × String)
  scripts_of (err e) = err e
  scripts_of (ok choice) = a.scripts choice

  unfoldable pub with_proxies :
      InstallerConfig → ByoMachine → Cluster → S × Option (Dict String) → Ended S
  unfolding with_scripts new_kubexm_installer
  with_proxies c m cluster (s, none) = crashed s c
  with_proxies c m cluster (s, some proxy) = with_scripts c m cluster s (
      a.scripts (
        new_kubexm_installer a.to_lower a.match_string m.status.host_info.os_image
          m.status.host_info.architecture (k8s_version c) (mode_text m.spec.download_mode) proxy
          (downloader c)))

  -- `reconcileNormal`
  unfoldable pub reconcile_normal : InstallerConfig → ByoMachine → Cluster → S → Ended S
  unfolding with_proxies get_proxy_config with_scripts new_installer
  reconcile_normal c m cluster s =
      if is_tls_bootstrap m.spec.join_mode
      then with_proxies c m cluster (get_proxy_config m s)
      else with_scripts c m cluster s (
          scripts_of (
            new_installer a.to_lower a.match_string m.status.host_info.os_image
              m.status.host_info.architecture (k8s_version c) (downloader c)))

  module _ (o : ConditionOps) (f : FinalizerOps) where
    abbrev pub set_finalizers : List String → InstallerConfig → InstallerConfig
    set_finalizers l c = record c { meta = record (c.meta) { finalizers = l } }

    unfoldable pub cluster_found : InstallerConfig → ByoMachine → S × Result {0} Cluster → Ended S
    unfolding reconcile_normal
    cluster_found c m (s, err e) = returned s c (some e)
    cluster_found c m (s, ok cluster) =
        if a.is_paused cluster c
        then returned s c none
        else (if not (
                str_eq (o.get_reason byo_host_ready m.status.conditions)
                  installation_secret_not_available)
              || c.ready
            then returned s c none
            else reconcile_normal c m cluster s)

    unfoldable pub for_machine : InstallerConfig → Option ByoMachine → S → Ended S
    unfolding cluster_found
    for_machine c none s = returned s c none
    for_machine c (some m) s = cluster_found c m (a.get_cluster m s)

    -- The finalizer is added first, and removed from a configuration that is being deleted.
    unfoldable pub with_finalizer : InstallerConfig → InstallerConfig
    with_finalizer c =
        if has installer_config_finalizer c.meta.finalizers
        then c
        else set_finalizers (f.add_finalizer installer_config_finalizer c.meta.finalizers) c

    unfoldable pub handle : InstallerConfig → Option ByoMachine → S → Ended S
    unfolding for_machine with_finalizer
    handle c m s =
        let g = with_finalizer c in
        if is_some g.meta.deletion_timestamp
        then returned s
            (set_finalizers (f.remove_finalizer installer_config_finalizer g.meta.finalizers) g)
            none
        else for_machine g m s

    -- The deferred patch, whose error is returned where there is no other.
    unfoldable pub deferred_patch : InstallerConfig → Ended S → Ended S
    deferred_patch before (absent s e) = absent s e
    deferred_patch before (crashed s c) = crashed (a.patch before c s).0 c
    deferred_patch before (returned s c e) =
        returned (a.patch before c s).0 c
          (elim e [ some x ↦ some x | none ↦ (a.patch before c s).1 ])

    -- An owner that is not found is like none.
    unfoldable pub owner_found : InstallerConfig → S × Result {0} (Option ByoMachine) → Ended S
    unfolding deferred_patch handle
    owner_found c (s, err e) =
        if is_not_found e then deferred_patch c (handle c none s) else returned s c (some e)
    owner_found c (s, ok m) = deferred_patch c (handle c m s)

    unfoldable pub config_found : S × Result {0} InstallerConfig → Ended S
    unfolding owner_found owner_machine
    config_found (s, err e) = absent s (if is_not_found e then none else some e)
    config_found (s, ok c) = owner_found c (owner_machine c.meta.namespace c.owners s)

    -- `Reconcile`
    unfoldable pub reconcile : String → String → S → Ended S
    unfolding config_found
    reconcile namespace name s = config_found (a.get_config namespace name s)

  abbrev configs_listed :
      ByoMachine → S × Result {0} (List InstallerConfig) → S × List (String × String)
  configs_listed m (s, err _) = (s, [])
  configs_listed m (s, ok cs) = (s, owned_configs m cs)

  -- `ByoMachineToK8sInstallerConfigMapFunc`
  unfoldable pub byo_machine_to_installer_config : ByoMachine → S → S × List (String × String)
  unfolding owned_configs
  byo_machine_to_installer_config m s =
      if is_template m.spec.installer_ref
      then configs_listed m (a.list_configs m.meta.namespace s)
      else (s, [])
