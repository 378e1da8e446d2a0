-- ===== src/InstallerController/Ready.antt =====
-- A configuration is ready once its secret is stored.
use mathlib.Core.Path.{subst}
use mathlib.Core.Bool.{true≢false}
use cluster_api_provider_bri.Prelude.{
  ◌≡◌, refl, sym, ap, ◌∙◌, ◌⊎◌, inl, inr, String, Bool, true, false, not, ◌||◌, Option, none, some,
  [], ◌∷◌, if◌then◌else◌, if_false, str_eq, is_some, Bool-cases, arith,
}
use cluster_api_provider_bri.Prelude.Dict.{Dict, lookup, lookup-insert}
use cluster_api_provider_bri.Api.Meta.{
  Error, not_found, conflict, already_exists, failed, Result, ok, err, is_not_found, FinalizerOps,
}
use cluster_api_provider_bri.Api.Names.{byo_host_ready, installation_secret_not_available}
use cluster_api_provider_bri.Api.Conditions.{ConditionOps}
use cluster_api_provider_bri.Api.Host.{is_tls_bootstrap}
use cluster_api_provider_bri.Api.Machine.{ByoMachine, Cluster}
use cluster_api_provider_bri.Installer.Creation.{Choice}
use cluster_api_provider_bri.InstallerController.{
  InstallerConfig, InstallationSecret, InstallerServer, Ended, returned, crashed, absent, secret_of,
  add_kubeconfig, secret_contents, updated, created, store_installation_data, with_scripts,
  scripts_of, with_proxies, reconcile_normal, cluster_found, for_machine, with_finalizer, handle,
  deferred_patch, owner_found, config_found, reconcile, get_bootstrap_kubeconfig_data,
  installer_config_finalizer, get_proxy_config, set_finalizers, owner_machine,
}

module _ {S : Type 0} (a : InstallerServer S) where
  -- The secret has the scripts of an installer, and the API server has taken it.
  pub record IsStored (secret : InstallationSecret) : Type 0 where
    pub choice : Choice
    pub install : String
    pub uninstall : String
    pub rendered : a.scripts choice ≡ ok (install, uninstall)
    pub has_install : lookup "install" secret.contents ≡ some install
    pub has_uninstall : lookup "uninstall" secret.contents ≡ some uninstall
    pub at : S
    pub taken : ((a.create_secret secret at).1 ≡ none) ⊎ ((a.update_secret secret at).1 ≡ none)

  -- A configuration that is left ready has its secret.
  abbrev pub Stores : Ended S → Type 0
  Stores (returned s c e) = c.ready ≡ true → (secret : InstallationSecret) × IsStored secret
  Stores (crashed s c) = Unit {0}
  Stores (absent s e) = Unit {0}

  idle-Stores :
      (s : S) (c : InstallerConfig) (e : Option Error) → c.ready ≡ false → Stores (returned s c e)
  idle-Stores s c e unready ready = absurd (true≢false (sym ready ∙ unready))

  abbrev Scripted : InstallationSecret → Type 0
  Scripted secret =
      (choice : Choice) × (install : String) × (uninstall : String) × (a.scripts choice
        ≡ ok (install, uninstall))
      × (lookup "install" secret.contents ≡ some install)
      × (lookup "uninstall" secret.contents ≡ some uninstall)

  stored :
      (secret : InstallationSecret) (s : S)
      → Scripted secret
      → ((a.create_secret secret s).1 ≡ none) ⊎ ((a.update_secret secret s).1 ≡ none)
      → IsStored secret
  stored secret s (choice, install, uninstall, p, q, r) taken = record {
    choice = choice;
    install = install;
    uninstall = uninstall;
    rendered = p;
    has_install = q;
    has_uninstall = r;
    at = s;
    taken = taken;
  }

  updated-Stores :
      (c : InstallerConfig) (secret : InstallationSecret) (s : S) (r : S × Option Error)
      → c.ready ≡ false
      → Scripted secret
      → a.update_secret secret s ≡ r
      → Stores (updated a c r)
  unfolding updated
  updated-Stores c secret s (t, some e) unready good call = idle-Stores t c (some e) unready
  updated-Stores c secret s (t, none) unready good call =
      λ ready. (secret, stored secret s good (inr (ap (λ r. r.1) call)))

  created-Stores :
      (c : InstallerConfig) (secret : InstallationSecret) (s : S) (r : S × Option Error)
      → c.ready ≡ false
      → Scripted secret
      → a.create_secret secret s ≡ r
      → Stores (created a c secret r)
  unfolding created
  created-Stores c secret s (t, none) unready good call =
      λ ready. (secret, stored secret s good (inl (ap (λ r. r.1) call)))
  created-Stores c secret s (t, some already_exists) unready good call =
      updated-Stores c secret t (a.update_secret secret t) unready good refl
  created-Stores c secret s (t, some not_found) unready good call =
      idle-Stores t c (some not_found) unready
  created-Stores c secret s (t, some conflict) unready good call =
      idle-Stores t c (some conflict) unready
  created-Stores c secret s (t, some (failed text)) unready good call =
      idle-Stores t c (some (failed text)) unready

  abbrev HasScripts : String × String → Dict String → Type 0
  HasScripts texts d = (lookup "install" d ≡ some texts.0) × (lookup "uninstall" d ≡ some texts.1)

  add_kubeconfig-HasScripts :
      (texts : String × String) (d : Dict String) (r : S × Result {0} (Option String))
      → HasScripts texts d
      → HasScripts texts (add_kubeconfig a d r).1
  unfolding add_kubeconfig
  add_kubeconfig-HasScripts texts d (s, err _) h = h
  add_kubeconfig-HasScripts texts d (s, ok none) h = h
  add_kubeconfig-HasScripts texts d (s, ok (some text)) (p, q) =
      elim (Bool-cases (str_eq text "")) [
        | inl empty ↦ rw empty (p, q)
        | inr full ↦ rw full (
          lookup-insert "install" "bootstrap-kubeconfig" text d
              ∙ if_false (some text) (lookup "install" d) refl
              ∙ p,
          lookup-insert "uninstall" "bootstrap-kubeconfig" text d
              ∙ if_false (some text) (lookup "uninstall" d) refl
              ∙ q,
        )
      ]

  secret_contents-HasScripts :
      (m : ByoMachine) (install uninstall : String) (s : S)
      → HasScripts (install, uninstall) (secret_contents a m (install, uninstall) s).1
  unfolding secret_contents lookup
  secret_contents-HasScripts m install uninstall s =
      elim (Bool-cases (is_tls_bootstrap m.spec.join_mode)) [
        | inl tls ↦ rw tls (
            add_kubeconfig-HasScripts (install, uninstall)
              (("install", install) ∷ ("uninstall", uninstall) ∷ [])
              (get_bootstrap_kubeconfig_data a m s) (refl, refl))
        | inr kubeadm ↦ rw kubeadm (refl, refl)
      ]

  with_scripts-Stores :
      (c : InstallerConfig) (m : ByoMachine) (cluster : Cluster) (s : S) (choice : Choice)
      (r : Result {0} (String × String))
      → c.ready ≡ false
      → a.scripts choice ≡ r
      → Stores (with_scripts a c m cluster s r)
  unfolding with_scripts store_installation_data
  with_scripts-Stores c m cluster s choice (err e) unready rendered =
      idle-Stores s c (some e) unready
  with_scripts-Stores c m cluster s choice (ok (install, uninstall)) unready rendered =
      let d = secret_contents a m (install, uninstall) s in
      let h = secret_contents-HasScripts m install uninstall s in
      created-Stores c (secret_of c cluster d.1) d.0 (a.create_secret (secret_of c cluster d.1) d.0)
        unready (choice, install, uninstall, rendered, h.0, h.1) refl

  chosen-Stores :
      (c : InstallerConfig) (m : ByoMachine) (cluster : Cluster) (s : S) (r : Result {0} Choice)
      → c.ready ≡ false
      → Stores (with_scripts a c m cluster s (scripts_of a r))
  unfolding with_scripts
  chosen-Stores c m cluster s (err e) unready = idle-Stores s c (some e) unready
  chosen-Stores c m cluster s (ok choice) unready =
      with_scripts-Stores c m cluster s choice (a.scripts choice) unready refl

  with_proxies-Stores :
      (c : InstallerConfig) (m : ByoMachine) (cluster : Cluster) (r : S × Option (Dict String))
      → c.ready ≡ false
      → Stores (with_proxies a c m cluster r)
  unfolding with_proxies
  with_proxies-Stores c m cluster (s, none) unready = tt
  with_proxies-Stores c m cluster (s, some proxy) unready =
      with_scripts-Stores c m cluster s _ _ unready refl

  branch-Stores : (b : Bool) (x y : Ended S) → Stores x → Stores y → Stores (if b then x else y)
  branch-Stores true x y p q = p
  branch-Stores false x y p q = q

  reconcile_normal-Stores :
      (c : InstallerConfig) (m : ByoMachine) (cluster : Cluster) (s : S)
      → c.ready ≡ false
      → Stores (reconcile_normal a c m cluster s)
  unfolding reconcile_normal
  reconcile_normal-Stores c m cluster s unready =
      branch-Stores (is_tls_bootstrap m.spec.join_mode) _ _
        (with_proxies-Stores c m cluster (get_proxy_config a m s) unready)
        (chosen-Stores c m cluster s _ unready)

  module _ (o : ConditionOps) (f : FinalizerOps) where
    cluster_found-Stores :
        (c : InstallerConfig) (m : ByoMachine) (r : S × Result {0} Cluster)
        → c.ready ≡ false
        → Stores (cluster_found a o f c m r)
    unfolding cluster_found
    cluster_found-Stores c m (s, err e) unready = idle-Stores s c (some e) unready
    cluster_found-Stores c m (s, ok cluster) unready =
        branch-Stores (a.is_paused cluster c) _ _ (idle-Stores s c none unready) (
          branch-Stores
            (not (
                str_eq (o.get_reason byo_host_ready m.status.conditions)
                  installation_secret_not_available)
              || c.ready)
            _ _ (idle-Stores s c none unready) (reconcile_normal-Stores c m cluster s unready))

    for_machine-Stores :
        (c : InstallerConfig) (m : Option ByoMachine) (s : S)
        → c.ready ≡ false
        → Stores (for_machine a o f c m s)
    unfolding for_machine
    for_machine-Stores c none s unready = idle-Stores s c none unready
    for_machine-Stores c (some m) s unready = cluster_found-Stores c m (a.get_cluster m s) unready

    ready-with_finalizer : (c : InstallerConfig) → (with_finalizer a o f c).ready ≡ c.ready
    unfolding with_finalizer
    ready-with_finalizer c = ground arith

    handle-Stores :
        (c : InstallerConfig) (m : Option ByoMachine) (s : S)
        → c.ready ≡ false
        → Stores (handle a o f c m s)
    unfolding handle
    handle-Stores c m s unready =
        let g = with_finalizer a o f c in
        let idle = ready-with_finalizer c ∙ unready in
        branch-Stores (is_some g.meta.deletion_timestamp) _ _
          (idle-Stores s
            (set_finalizers a o f (f.remove_finalizer installer_config_finalizer g.meta.finalizers)
              g)
            none idle)
          (for_machine-Stores g m s idle)

    deferred_patch-Stores :
        (before : InstallerConfig) (x : Ended S) → Stores x → Stores (deferred_patch a o f before x)
    unfolding deferred_patch
    deferred_patch-Stores before (returned s c e) stores = stores
    deferred_patch-Stores before (crashed s c) stores = tt
    deferred_patch-Stores before (absent s e) stores = tt

    owner_found-Stores :
        (c : InstallerConfig) (r : S × Result {0} (Option ByoMachine))
        → c.ready ≡ false
        → Stores (owner_found a o f c r)
    unfolding owner_found
    owner_found-Stores c (s, err e) unready =
        branch-Stores (is_not_found e) _ _
          (deferred_patch-Stores c (handle a o f c none s) (handle-Stores c none s unready))
          (idle-Stores s c (some e) unready)
    owner_found-Stores c (s, ok m) unready =
        deferred_patch-Stores c (handle a o f c m s) (handle-Stores c m s unready)

-- A reconcile leaves a configuration that was not ready ready only if the API server has taken a
-- secret, created or updated, that holds the install and the uninstall script of an installer under
-- the keys that the agent reads.
pub reconcile-IsStored :
    {S : Type 0} (a : InstallerServer S) (o : ConditionOps) (f : FinalizerOps)
    (namespace name : String) (s t u : S) (c d : InstallerConfig) (e : Option Error)
    → a.get_config namespace name s ≡ (t, ok c)
    → c.ready ≡ false
    → reconcile a o f namespace name s ≡ returned u d e
    → d.ready ≡ true
    → (secret : InstallationSecret) × IsStored a secret
unfolding reconcile config_found
reconcile-IsStored a o f namespace name s t u c d e found unready ends ready =
    subst (Stores a) (sym (ap (config_found a o f) found) ∙ ends)
      (owner_found-Stores a o f c (owner_machine a c.meta.namespace c.owners t) unready) ready
