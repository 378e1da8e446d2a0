-- ===== src/MachineController/Tls/Agreement.antt =====
-- The secret that the controller creates, and what the agent makes of it.
use mathlib.Core.Path.{subst}
use mathlib.Core.Option.{none-ne-some}
use cluster_api_provider_bri.Prelude.{
  ◌≡◌, ◌≢◌, refl, ◌∙◌, String, ◌<>◌, true, Option, none, some, [], ◌∷◌, ap, ◌||◌, inl, inr, is_some,
  arith, eq_iff, Bool-cases,
}
use cluster_api_provider_bri.Prelude.Dict.{Dict, lookup, insert}
use cluster_api_provider_bri.Api.Meta.{Error, Result, ok, err}
use cluster_api_provider_bri.Api.Host.{ByoHost}
use cluster_api_provider_bri.Agent.State.{mkdir, write_file, Env}
use cluster_api_provider_bri.Agent.Tls.{value_or, certificate_of, ca_cert_data}
use cluster_api_provider_bri.Agent.Tls.Plan.{kubeconfig_actions}
use cluster_api_provider_bri.MachineController.Server.{Scope}
use cluster_api_provider_bri.MachineController.Tls.{Parsers, TlsServer}
use cluster_api_provider_bri.MachineController.Tls.Sources.{Found, non_empty, sources}
use cluster_api_provider_bri.MachineController.Tls.Configs.{put}
use cluster_api_provider_bri.MachineController.Tls.Secrets.{
  first_keys, is_found, secret_of, contents_of, created, create, from_found,
  create_bootstrap_secret,
}
use cluster_api_provider_bri.MachineController.Tls.Kept.{
  MadeFrom, with_remote-MadeFrom, with_configs-MadeFrom,
}

-- What an agent does with the data of a secret: it writes the kubeconfig for the kubelet, or it has at
-- least the certificate, and writes no kubeconfig.
pub data Serves (env : Env) (d : Dict String) : Type 0 where
  by_kubeconfig :
      (text : String)
      → text ≢ ""
      → kubeconfig_actions (lookup "bootstrap-kubeconfig" d)
        ≡ mkdir "/etc/kubernetes"
          ∷ write_file "/etc/kubernetes/bootstrap-kubeconfig" "0600" text
          ∷ []
      → Serves env d
  by_certificate :
      (ca : String)
      → ca ≢ ""
      → kubeconfig_actions (lookup "bootstrap-kubeconfig" d) ≡ []
      → ca_cert_data env d ≡ ca
      → Serves env d

non_empty_ne : (o : Option String) (t : String) → non_empty o ≡ some t → t ≢ ""
non_empty_ne none t h = absurd (none-ne-some t h)
non_empty_ne (some u) t h = ground (arith, eq_iff u "", eq_iff t "")

lookup-first_keys :
    (f : Found)
    → (lookup "bootstrap-kubeconfig" (first_keys f) ≡ non_empty f.kubeconfig)
      × (lookup "ca.crt" (first_keys f) ≡ non_empty f.ca)
unfolding first_keys lookup insert
lookup-first_keys f = by_parts (non_empty f.kubeconfig) (non_empty f.ca)
  where
    by_parts :
        (k c : Option String)
        → (lookup "bootstrap-kubeconfig" (put "bootstrap-kubeconfig" k (put "ca.crt" c [])) ≡ k)
          × (lookup "ca.crt" (put "bootstrap-kubeconfig" k (put "ca.crt" c [])) ≡ c)
    by_parts none none = (refl, refl)
    by_parts none (some c) = (refl, refl)
    by_parts (some k) none = (refl, refl)
    by_parts (some k) (some c) = (refl, refl)

value_or-eq :
    (key : String) (d : Dict String) {v : String} → lookup key d ≡ some v → value_or "" key d ≡ v
value_or-eq key d h = rw (h, value_or) refl

serves :
    (env : Env) (d : Dict String) (k c : Option String)
    → lookup "bootstrap-kubeconfig" d ≡ k
    → lookup "ca.crt" d ≡ c
    → ((t : String) → k ≡ some t → t ≢ "")
    → ((t : String) → c ≡ some t → t ≢ "")
    → (is_some c || is_some k) ≡ true
    → Serves env d
unfolding ca_cert_data certificate_of
serves env d (some text) c bk ca kfull cfull found =
    by_kubeconfig text (kfull text refl) (ap kubeconfig_actions bk)
serves env d none (some cert) bk ca kfull cfull found =
    by_certificate cert (cfull cert refl) (ap kubeconfig_actions bk)
      (ap (λ o. certificate_of env o (value_or "" "ca.crt" d)) bk ∙ value_or-eq "ca.crt" d ca)
serves env d none none bk ca kfull cfull found = cc

module _ (x : Parsers) {S : Type 0} (a : TlsServer S) (env : Env) where
  -- The call that created the secret, and what its data are worth.
  abbrev Created : Scope → S × Option (Result {0} (String × String)) → Type 0
  Created p (s, none) = Unit {0}
  Created p (s, some (err _)) = Unit {0}
  Created p (s, some (ok ref)) =
      (d : Dict String) × (t : S) × (a.create_secret (secret_of p d) t ≡ (s, none))
      × (ref ≡ (p.byo_machine.meta.namespace, p.byo_machine.meta.name <> "-tls-bootstrap"))
      × Serves env d

  created-Created :
      (p : Scope) (d : Dict String) (t : S) (r : S × Option Error)
      → a.create_secret (secret_of p d) t ≡ r
      → Serves env d
      → Created p (created x a p r)
  unfolding created
  created-Created p d t (s, some e) call good = tt
  created-Created p d t (s, none) call good = (d, t, call, refl, good)

  create-Created :
      (p : Scope) (f : Found) (r : S × Option (Dict String))
      → is_found f ≡ true
      → MadeFrom x a (first_keys f) r.1
      → Created p (create x a p r)
  unfolding create is_found
  create-Created p f (s, none) found made = tt
  create-Created p f (s, some d) found (bk, ca) = created-Created p d s _ refl (
      serves env d (non_empty f.kubeconfig) (non_empty f.ca) (bk ∙ (lookup-first_keys f).0)
        (ca ∙ (lookup-first_keys f).1) (non_empty_ne f.kubeconfig) (non_empty_ne f.ca) found)

  from_found-Created :
      (p : Scope) (h : Option ByoHost) (r : (S × Found) × String) → Created p (from_found x a p h r)
  unfolding from_found contents_of
  from_found-Created p h ((s, f), endpoint) = elim (Bool-cases (is_found f)) [
    | inl found ↦ rw found (
        create-Created p f _ found (
          with_configs-MadeFrom x a (first_keys f) p h f endpoint _
            (with_remote-MadeFrom x a (first_keys f) p.machine.version (a.get_remote_client s))))
    | inr missing ↦ rw missing tt
  ]

-- Where the controller returns a secret for a TLS bootstrap, its last call created it in the
-- machine's namespace under the machine's name, and an agent that is given its data either writes a
-- kubeconfig that is not empty, for the kubelet, or has a certificate that is not empty and writes
-- no kubeconfig.
pub secret-Serves :
    {S : Type 0} (x : Parsers) (a : TlsServer S) (env : Env) (p : Scope) (h : Option ByoHost)
    (s t : S) (ref : String × String)
    → create_bootstrap_secret x a p h s ≡ (t, some (ok ref))
    → (d : Dict String) × (u : S) × (a.create_secret (secret_of p d) u ≡ (t, none))
      × (ref ≡ (p.byo_machine.meta.namespace, p.byo_machine.meta.name <> "-tls-bootstrap"))
      × Serves env d
unfolding create_bootstrap_secret
secret-Serves x a env p h s t ref made =
    subst (Created x a env p) made (from_found-Created x a env p h (sources x a p h s))
