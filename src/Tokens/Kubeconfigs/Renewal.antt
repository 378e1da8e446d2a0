-- ===== src/Tokens/Kubeconfigs/Renewal.antt =====
-- Each reconcile makes a token.
use mathlib.Core.Path.{subst}
use mathlib.Core.Option.{some-ne-none}
use cluster_api_provider_bri.Prelude.{
  ℕ, suc, ◌≡◌, refl, sym, ap, ◌∙◌, String, Bool, true, false, ◌||◌, Option, none, some, inl, inr,
  if◌then◌else◌, str_eq, Bool-cases, arith,
}
use cluster_api_provider_bri.Api.Meta.{Error, Result, ok, err}
use cluster_api_provider_bri.Tokens.{TokenSecret, TokenConfig, BootstrapKubeconfig}
use cluster_api_provider_bri.Tokens.Kubeconfigs.{
  OwnerMachine, OwnerCluster, TokenServer, patched, original_read, read_original, cluster_read,
  machine_read, populate_from_original, encoded, decoded, config_made, secret_created, secret_made,
  token_made, renew, with_data, not_populated, Populated, populated, config_found, reconcile,
  renewed, machine_name, from_cluster, from_original,
}

-- A count of the token secrets that exist: creating one adds one, no other call changes it.
pub record Counts {S : Type 0} (a : TokenServer S) (count : S → ℕ) : Type 0 where
  pub now : (s : S) → count (a.now s).0 ≡ count s
  pub get_config : (n m : String) (s : S) → count (a.get_config n m s).0 ≡ count s
  pub get_machine : (n m : String) (s : S) → count (a.get_machine n m s).0 ≡ count s
  pub get_cluster : (n m : String) (s : S) → count (a.get_cluster n m s).0 ≡ count s
  pub patch : (k j : BootstrapKubeconfig) (s : S) → count (a.patch k j s).0 ≡ count s
  pub generate_token : (s : S) → count (a.generate_token s).0 ≡ count s
  pub create_secret :
      (t : TokenSecret) (s : S)
      → (a.create_secret t s).1 ≡ none
      → count (a.create_secret t s).0 ≡ suc (count s)

module _ {S : Type 0} (a : TokenServer S) (count : S → ℕ) (counts : Counts a count) where
  -- One more than `n` where no error is returned.
  abbrev Ends : ℕ → S × Option Error → Type 0
  Ends n (s, none) = count s ≡ n
  Ends n (s, some _) = Unit {0}

  counted : (n : ℕ) (r : S × Option Error) → count r.0 ≡ n → Ends n r
  counted n (s, none) h = h
  counted n (s, some _) h = tt

  encoded-Ends :
      (k : BootstrapKubeconfig) (t : TokenSecret) (s : S) (r : Result {0} String)
      → Ends (count s) (encoded a k t s r)
  unfolding encoded
  encoded-Ends k t s (err e) = tt
  encoded-Ends k t s (ok text) =
      counted (count s) (a.patch k (renewed a text t.name k) s)
        (counts.patch k (renewed a text t.name k) s)

  decoded-Ends :
      (k : BootstrapKubeconfig) (t : TokenSecret) (c : TokenConfig) (s : S) (r : Result {0} String)
      → Ends (count s) (decoded a k t c s r)
  unfolding decoded
  decoded-Ends k t c s (err e) = tt
  decoded-Ends k t c s (ok ca) =
      encoded-Ends k t s (a.encode_config (record c { certificate_authority_data = ca }))

  config_made-Ends :
      (k : BootstrapKubeconfig) (t : TokenSecret) (s : S) (r : Result {0} TokenConfig)
      → Ends (count s) (config_made a k t s r)
  unfolding config_made
  config_made-Ends k t s (err e) = tt
  config_made-Ends k t s (ok c) =
      decoded-Ends k t (record c { server = k.spec.api_server }) s
        (a.decode_string c.certificate_authority_data)

  secret_created-Ends :
      (k : BootstrapKubeconfig) (token : String) (t : TokenSecret) (n : ℕ) (r : S × Option Error)
      → (r.1 ≡ none → count r.0 ≡ n)
      → Ends n (secret_created a k token t r)
  unfolding secret_created
  secret_created-Ends k token t n (s, some e) h = tt
  secret_created-Ends k token t n (s, none) h =
      subst (λ m. Ends m (secret_created a k token t (s, none))) (h refl) (config_made-Ends k t s _)

  secret_made-Ends :
      (k : BootstrapKubeconfig) (token : String) (s : S) (r : Result {0} TokenSecret)
      → Ends (suc (count s)) (secret_made a k token s r)
  unfolding secret_made
  secret_made-Ends k token s (err e) = tt
  secret_made-Ends k token s (ok t) =
      secret_created-Ends k token t (suc (count s)) (a.create_secret t s) (counts.create_secret t s)

  token_made-Ends :
      (k : BootstrapKubeconfig) (n : ℕ) (r : S × Result {0} String)
      → count r.0 ≡ n
      → Ends (suc n) (token_made a k r)
  unfolding token_made
  token_made-Ends k n (s, err e) h = tt
  token_made-Ends k n (s, ok token) h =
      subst (λ m. Ends (suc m) (token_made a k (s, ok token))) (counts.now s ∙ h)
        (secret_made-Ends k token (a.now s).0 _)

  renew-Ends : (k : BootstrapKubeconfig) (n : ℕ) (s : S) → count s ≡ n → Ends (suc n) (renew a k s)
  unfolding renew
  renew-Ends k n s h = token_made-Ends k n (a.generate_token s) (counts.generate_token s ∙ h)

  -- What populating leaves as it is: the number of tokens, and the data of the object.
  abbrev Same : BootstrapKubeconfig → S → Populated a → Type 0
  Same k s (t, j, _) =
      (count t ≡ count s)
      × (j.status.bootstrap_kubeconfig_data ≡ k.status.bootstrap_kubeconfig_data)

  branch-Same :
      (b : Bool) (k : BootstrapKubeconfig) (s : S) (r q : Populated a)
      → Same k s r
      → Same k s q
      → Same k s (if b then r else q)
  branch-Same true k s r q u v = u
  branch-Same false k s r q u v = v

  after-Same :
      (k j : BootstrapKubeconfig) (s t : S) (r : Populated a)
      → count t ≡ count s
      → j.status.bootstrap_kubeconfig_data ≡ k.status.bootstrap_kubeconfig_data
      → Same j t r
      → Same k s r
  after-Same k j s t (u, i, _) c d (p, q) = (p ∙ c, q ∙ d)

  from_cluster-status :
      (c : OwnerCluster) (k : BootstrapKubeconfig) → (from_cluster c k).status ≡ k.status
  unfolding from_cluster
  from_cluster-status c k = ground arith

  from_original-status : (o k : BootstrapKubeconfig) → (from_original o k).status ≡ k.status
  unfolding from_original
  from_original-status o k = ground arith

  patched-Same : (before k : BootstrapKubeconfig) (s : S) → Same k s (patched a before k s)
  unfolding patched
  patched-Same before k s = (counts.patch before k s, refl)

  original_read-Same :
      (before k : BootstrapKubeconfig) (r : S × Result {0} BootstrapKubeconfig)
      → Same k r.0 (original_read a before k r)
  unfolding original_read
  original_read-Same before k (s, err _) = patched-Same before k s
  original_read-Same before k (s, ok o) =
      after-Same k (from_original o k) s s (patched a before (from_original o k) s) refl
        (ap (λ i. i.bootstrap_kubeconfig_data) (from_original-status o k))
        (patched-Same before (from_original o k) s)

  read_original-Same :
      (before k : BootstrapKubeconfig) (ref : Option String) (s : S)
      → Same k s (read_original a before k ref s)
  unfolding read_original
  read_original-Same before k none s = patched-Same before k s
  read_original-Same before k (some name) s =
      branch-Same (str_eq name k.name) k s _ _ (patched-Same before k s) (
        after-Same k k s (a.get_config k.namespace name s).0
          (original_read a before k (a.get_config k.namespace name s))
          (counts.get_config k.namespace name s) refl
          (original_read-Same before k (a.get_config k.namespace name s)))

  cluster_read-Same :
      (k : BootstrapKubeconfig) (m : OwnerMachine) (r : S × Result {0} OwnerCluster)
      → Same k r.0 (cluster_read a k m r)
  unfolding cluster_read
  cluster_read-Same k m (s, err e) = (refl, refl)
  cluster_read-Same k m (s, ok c) =
      after-Same k (from_cluster c k) s s (read_original a k (from_cluster c k) m.config_ref s) refl
        (ap (λ i. i.bootstrap_kubeconfig_data) (from_cluster-status c k))
        (read_original-Same k (from_cluster c k) m.config_ref s)

  machine_read-Same :
      (k : BootstrapKubeconfig) (r : S × Result {0} OwnerMachine) → Same k r.0 (machine_read a k r)
  unfolding machine_read
  machine_read-Same k (s, err e) = (refl, refl)
  machine_read-Same k (s, ok m) =
      branch-Same (str_eq m.cluster_name "") k s _ _ (refl, refl)
        (after-Same k k s (a.get_cluster k.namespace m.cluster_name s).0
          (cluster_read a k m (a.get_cluster k.namespace m.cluster_name s))
          (counts.get_cluster k.namespace m.cluster_name s) refl
          (cluster_read-Same k m (a.get_cluster k.namespace m.cluster_name s)))

  populate-Same : (k : BootstrapKubeconfig) (s : S) → Same k s (populate_from_original a k s)
  unfolding populate_from_original
  populate-Same k s =
      branch-Same (str_eq (machine_name k.owners) "") k s _ _ (refl, refl)
        (after-Same k k s (a.get_machine k.namespace (machine_name k.owners) s).0
          (machine_read a k (a.get_machine k.namespace (machine_name k.owners) s))
          (counts.get_machine k.namespace (machine_name k.owners) s) refl
          (machine_read-Same k (a.get_machine k.namespace (machine_name k.owners) s)))

  with_data-Ends :
      (o : Option String) (k : BootstrapKubeconfig) (n : ℕ) (s : S)
      → count s ≡ n
      → Ends (suc n) (with_data a o k s)
  unfolding with_data
  with_data-Ends none k n s h = renew-Ends k n s h
  with_data-Ends (some _) k n s h =
      renew-Ends (populate_from_original a k s).1 n (populate_from_original a k s).0
        ((populate-Same k s).0 ∙ h)

  populated-Ends :
      (k : BootstrapKubeconfig) (s : S) (text : String) (r : Populated a)
      → k.status.bootstrap_kubeconfig_data ≡ some text
      → Same k s r
      → Ends (suc (count s)) (populated a r)
  unfolding populated not_populated
  populated-Ends k s text (t, j, none) data_there (c, d) =
      with_data-Ends j.status.bootstrap_kubeconfig_data j (count s) t c
  populated-Ends k s text (t, j, some _) data_there (c, d) =
      subst (λ o. Ends (suc (count s)) (not_populated a o j t)) (sym (d ∙ data_there))
        (with_data-Ends (some text) j (count s) t c)

  config_found-Ends :
      (k : BootstrapKubeconfig) (s : S) (text : String)
      → k.status.bootstrap_kubeconfig_data ≡ some text
      → Ends (suc (count s)) (config_found a (s, ok k))
  unfolding config_found
  config_found-Ends k s text data_there =
      elim (Bool-cases
        (str_eq k.spec.api_server "" || str_eq k.spec.certificate_authority_data "")) [
          | inl missing ↦ rw missing (
              populated-Ends k s text (populate_from_original a k s) data_there (populate-Same k s))
          | inr there ↦
              rw there (with_data-Ends k.status.bootstrap_kubeconfig_data k (count s) s refl)
        ]

  error_free : (n : ℕ) (r : S × Option Error) → Ends n r → r.1 ≡ none → count r.0 ≡ n
  error_free n (s, none) h e = h
  error_free n (s, some x) h e = absurd (some-ne-none x e)

-- A reconcile that finds an object with bootstrap data already and returns no error has made one more
-- token secret. `count` counts those secrets.
pub reconcile-makes_token :
    {S : Type 0} (a : TokenServer S) (count : S → ℕ)
    → Counts a count
    → (namespace name text : String) (s t : S) (k : BootstrapKubeconfig)
    → a.get_config namespace name s ≡ (t, ok k)
    → k.status.bootstrap_kubeconfig_data ≡ some text
    → (reconcile a namespace name s).1 ≡ none
    → count (reconcile a namespace name s).0 ≡ suc (count s)
unfolding reconcile
reconcile-makes_token a count counts namespace name text s t k found data_there done =
    let same : count t ≡ count s =
      ap (λ r. count r.0) (sym found) ∙ counts.get_config namespace name s in
    error_free a count counts (suc (count s)) (reconcile a namespace name s)
      (subst (λ r. Ends a count counts (suc (count s)) (config_found a r)) (sym found)
        (subst (λ n. Ends a count counts (suc n) (config_found a (t, ok k))) same
          (config_found-Ends a count counts k t text data_there)))
      done
