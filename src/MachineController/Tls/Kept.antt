-- ===== src/MachineController/Tls/Kept.antt =====
-- The configurations leave the two keys with the credentials as they are.
use cluster_api_provider_bri.Prelude.{
  ◌≡◌, refl, ◌∙◌, String, Bool, true, false, Option, none, some, str_eq, is_some, if◌then◌else◌,
  if_false,
}
use cluster_api_provider_bri.Prelude.Dict.{Dict, lookup, insert, lookup-insert}
use cluster_api_provider_bri.Api.Meta.{Error, Result, ok, err}
use cluster_api_provider_bri.Api.Host.{ByoHost}
use cluster_api_provider_bri.MachineController.Server.{Scope}
use cluster_api_provider_bri.MachineController.Tls.{Parsers, TlsServer}
use cluster_api_provider_bri.MachineController.Tls.Sources.{Found, non_empty, annotated_endpoint}
use cluster_api_provider_bri.MachineController.Tls.Configs.{
  put, unversioned_kubelet, versioned_kubelet, short_kubelet, fetch_kubelet, proxy_fetched,
  fetch_proxy, with_remote, copy_secret, copy_local, kubeconfig_with_token, kubeconfig_with,
  add_kubeconfig, token_of, proxy_config, encoded_certificate,
}
use cluster_api_provider_bri.MachineController.Tls.Secrets.{with_configs}

-- The two keys with the credentials.
abbrev pub Keeps : Dict String → Dict String → Type 0
Keeps d e =
    (lookup "bootstrap-kubeconfig" e ≡ lookup "bootstrap-kubeconfig" d)
    × (lookup "ca.crt" e ≡ lookup "ca.crt" d)

-- A key for a configuration.
abbrev IsConfig : String → Type 0
IsConfig key = (str_eq key "bootstrap-kubeconfig" ≡ false) × (str_eq key "ca.crt" ≡ false)

insert-Keeps :
    (key v : String) (d e : Dict String) → IsConfig key → Keeps d e → Keeps d (insert key v e)
insert-Keeps key v d e (k, c) (p, q) = (
  lookup-insert "bootstrap-kubeconfig" key v e ∙ if_false _ _ k ∙ p,
  lookup-insert "ca.crt" key v e ∙ if_false _ _ c ∙ q,
)

put-Keeps :
    (key : String) (v : Option String) (d e : Dict String)
    → IsConfig key
    → Keeps d e
    → Keeps d (put key v e)
put-Keeps key none d e config keeps = keeps
put-Keeps key (some v) d e config keeps = insert-Keeps key v d e config keeps

choice-Keeps :
    (b : Bool) (d e e' : Dict String) → Keeps d e → Keeps d e' → Keeps d (if b then e else e')
choice-Keeps true d e e' p q = p
choice-Keeps false d e e' p q = q

module _ (x : Parsers) {S : Type 0} (a : TlsServer S) (d : Dict String) where
  branch-Keeps :
      (b : Bool) (r q : S × Dict String)
      → Keeps d r.1
      → Keeps d q.1
      → Keeps d (if b then r else q).1
  branch-Keeps true r q u v = u
  branch-Keeps false r q u v = v

  unversioned_kubelet-Keeps :
      (e : Dict String) (r : S × Result {0} (Dict String))
      → Keeps d e
      → Keeps d (unversioned_kubelet x a e r).1
  unfolding unversioned_kubelet
  unversioned_kubelet-Keeps e (s, ok m) keeps = put-Keeps _ _ d e (refl, refl) keeps
  unversioned_kubelet-Keeps e (s, err _) keeps = insert-Keeps _ _ d e (refl, refl) keeps

  versioned_kubelet-Keeps :
      (e : Dict String) (r : S × Result {0} (Dict String))
      → Keeps d e
      → Keeps d (versioned_kubelet x a e r).1
  unfolding versioned_kubelet
  versioned_kubelet-Keeps e (s, ok m) keeps = put-Keeps _ _ d e (refl, refl) keeps
  versioned_kubelet-Keeps e (s, err _) keeps = unversioned_kubelet-Keeps e _ keeps

  short_kubelet-Keeps :
      (e : Dict String) (s : S) (o : Option String)
      → Keeps d e
      → Keeps d (short_kubelet x a e s o).1
  unfolding short_kubelet
  short_kubelet-Keeps e s none keeps = keeps
  short_kubelet-Keeps e s (some short) keeps = versioned_kubelet-Keeps e _ keeps

  fetch_kubelet-Keeps :
      (v : String) (r : S × Dict String) → Keeps d r.1 → Keeps d (fetch_kubelet x a v r).1
  unfolding fetch_kubelet
  fetch_kubelet-Keeps v (s, e) keeps = short_kubelet-Keeps e s _ keeps

  proxy_fetched-Keeps :
      (e : Dict String) (r : S × Result {0} (Dict String))
      → Keeps d e
      → Keeps d (proxy_fetched x a e r).1
  unfolding proxy_fetched
  proxy_fetched-Keeps e (s, err _) keeps = insert-Keeps _ _ d e (refl, refl) keeps
  proxy_fetched-Keeps e (s, ok m) keeps =
      put-Keeps "kube-proxy.kubeconfig" (lookup "kube-proxy.kubeconfig" m) d _ (refl, refl)
        (put-Keeps "kube-proxy-config.yaml" (proxy_config x a m) d e (refl, refl) keeps)

  fetch_proxy-Keeps : (r : S × Dict String) → Keeps d r.1 → Keeps d (fetch_proxy x a r).1
  unfolding fetch_proxy
  fetch_proxy-Keeps (s, e) keeps = proxy_fetched-Keeps e _ keeps

  copy_secret-Keeps :
      (e : Dict String) (r : S × Result {0} (Dict String))
      → Keeps d e
      → Keeps d (copy_secret x a e r).1
  unfolding copy_secret
  copy_secret-Keeps e (s, err _) keeps = keeps
  copy_secret-Keeps e (s, ok m) keeps =
      put-Keeps "kube-proxy.kubeconfig" (lookup "kube-proxy.kubeconfig" m) d _ (refl, refl)
        (choice-Keeps (is_some (lookup "kubelet-config.yaml" e)) d e _ keeps
          (put-Keeps "kubelet-config.yaml" (lookup "kubelet-config.yaml" m) d e (refl, refl) keeps))

  copy_local-Keeps :
      (p : Scope) (name : Option String) (r : S × Dict String)
      → Keeps d r.1
      → Keeps d (copy_local x a p name r).1
  unfolding copy_local
  copy_local-Keeps p none (s, e) keeps = keeps
  copy_local-Keeps p (some name) (s, e) keeps = copy_secret-Keeps e _ keeps

  kubeconfig_with_token-Keeps :
      (endpoint : String) (token : Option String) (r : S × Dict String)
      → Keeps d r.1
      → Keeps d (kubeconfig_with_token x a endpoint token r).1
  unfolding kubeconfig_with_token
  kubeconfig_with_token-Keeps endpoint none (s, e) keeps = keeps
  kubeconfig_with_token-Keeps endpoint (some token) (s, e) keeps =
      insert-Keeps _ _ d e (refl, refl) keeps

  kubeconfig_with-Keeps :
      (endpoint : String) (kubeconfig : Option String) (e : Dict String) (r : S × String)
      → Keeps d e
      → Keeps d (kubeconfig_with x a endpoint kubeconfig e r).1
  unfolding kubeconfig_with
  kubeconfig_with-Keeps endpoint kubeconfig e (s, ca) keeps =
      branch-Keeps (str_eq ca "") _ _
        (kubeconfig_with_token-Keeps endpoint (token_of x a kubeconfig) (s, e) keeps)
        (insert-Keeps "kube-proxy.kubeconfig" _ d e (refl, refl) keeps)

  add_kubeconfig-Keeps :
      (h : Option ByoHost) (endpoint : String) (f : Found) (r : S × Dict String)
      → Keeps d r.1
      → Keeps d (add_kubeconfig x a h endpoint f r).1
  unfolding add_kubeconfig
  add_kubeconfig-Keeps h endpoint f (s, e) keeps =
      branch-Keeps (is_some (lookup "kube-proxy.kubeconfig" e)) _ _ keeps (
        kubeconfig_with-Keeps (if str_eq endpoint "" then annotated_endpoint h else endpoint)
          (non_empty f.kubeconfig) e (encoded_certificate x a (non_empty f.ca) s) keeps)

  -- What is made from a set of keys, if anything.
  abbrev pub MadeFrom : Option (Dict String) → Type 0
  MadeFrom none = Unit {0}
  MadeFrom (some e) = Keeps d e

  pub with_remote-MadeFrom :
      (version : Option String) (r : S × Option Error) → MadeFrom (with_remote x a version d r).1
  unfolding with_remote
  with_remote-MadeFrom version (s, some _) = (refl, refl)
  with_remote-MadeFrom none (s, none) = tt
  with_remote-MadeFrom (some v) (s, none) =
      fetch_proxy-Keeps (fetch_kubelet x a v (s, d)) (fetch_kubelet-Keeps v (s, d) (refl, refl))

  pub with_configs-MadeFrom :
      (p : Scope) (h : Option ByoHost) (f : Found) (endpoint : String)
      (r : S × Option (Dict String))
      → MadeFrom r.1
      → MadeFrom (with_configs x a p h f endpoint r).1
  unfolding with_configs
  with_configs-MadeFrom p h f endpoint (s, none) made = tt
  with_configs-MadeFrom p h f endpoint (s, some e) keeps =
      add_kubeconfig-Keeps h endpoint f (copy_local x a p p.machine.data_secret_name (s, e))
        (copy_local-Keeps p p.machine.data_secret_name (s, e) keeps)
