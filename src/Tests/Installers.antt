-- ===== src/Tests/Installers.antt =====
-- A configuration without an owner's secret, reconciled; the state counts the secrets.
use cluster_api_provider_bri.Prelude.{ℕ, suc, ◌≡◌, refl, true, false, none, [], ◌∷◌}
use cluster_api_provider_bri.Prelude.Dict.{lookup, insert}
use cluster_api_provider_bri.Api.Names.{byo_host_ready, installation_secret_not_available}
use cluster_api_provider_bri.Api.Meta.{ok, err, not_found}
use cluster_api_provider_bri.Api.Machine.{ByoMachine}
use cluster_api_provider_bri.Installer.{list_k8s}
use cluster_api_provider_bri.Installer.Supported.{get_supported_registry}
use cluster_api_provider_bri.InstallerController.{
  InstallerConfig, InstallationSecret, InstallerServer, returned, with_installation_secret,
  reconcile, installer_config_finalizer,
}
use cluster_api_provider_bri.InstallerController.Ready.{IsStored, reconcile-IsStored}
use cluster_api_provider_bri.Tests.{byo_machine, meta_of, scope, finalizers, listed}

abbrev config : InstallerConfig
config = record {
  kind = "K8sInstallerConfig";
  meta = meta_of "c" [] [];
  owners = record { api_version = "v1"; kind = "ByoMachine"; name = "m" } ∷ [];
  bundle_repo = "online";
  bundle_type = "k8s";
  ready = false;
  installation_secret = none;
}

abbrev waiting : ByoMachine
waiting = record byo_machine {
  status = record (byo_machine.status) {
    conditions =
        record {
          kind = byo_host_ready;
          status = false;
          severity = "";
          reason = installation_secret_not_available;
        }
        ∷ [];
  };
}

abbrev installer_server : InstallerServer ℕ
installer_server = record {
  get_config = λ namespace name s. (s, ok config);
  is_own_group = λ v. ok true;
  get_byo_machine = λ namespace name s. (s, ok waiting);
  get_cluster = λ m s. (s, ok ((scope none).cluster));
  infrastructure_ref = λ k. none;
  get_byo_cluster = λ namespace name s. (s, err not_found);
  is_paused = λ k c. false;
  list_bootstrap_kubeconfigs = λ namespace s. (s, ok []);
  get_owner_machine = λ m s. (s, ok none);
  get_secret = λ namespace name s. (s, err not_found);
  create_secret = λ secret s. (suc s, none);
  update_secret = λ secret s. (s, none);
  patch = λ before c s. (s, none);
  list_configs = λ namespace s. (s, ok []);
  to_lower = λ t. t;
  match_string = λ filter os. true;
  scripts = λ choice. ok ("install", "uninstall");
}

abbrev left : InstallerConfig
left =
    with_installation_secret (record config {
      meta = record (config.meta) { finalizers = installer_config_finalizer ∷ [] };
    })

config_reconciled :
    reconcile installer_server listed finalizers "default" "c" 0 ≡ returned 1 left none
unfolding reconcile lookup insert list_k8s get_supported_registry
config_reconciled = refl

reconcile-IsStored_example : (secret : InstallationSecret) × IsStored installer_server secret
reconcile-IsStored_example =
    reconcile-IsStored installer_server listed finalizers "default" "c" 0 0 1 config left none refl
      refl config_reconciled refl
