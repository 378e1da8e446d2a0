-- ===== src/Agent/Tls/Started.antt =====
-- What a TLS bootstrap that succeeds has read and done.
use mathlib.Core.List.{append-nil, append_assoc}
use mathlib.Core.Option.{some-ne-none}
use cluster_api_provider_bri.Prelude.{
  ◌≡◌, ◌≢◌, refl, String, ap, sym, ◌∙◌, Option, none, some, List, [], ◌∷◌,
}
use cluster_api_provider_bri.Prelude.Dict.{Dict}
use cluster_api_provider_bri.Api.Meta.{ObjectReference, Error, Result, ok, err}
use cluster_api_provider_bri.Agent.State.{
  Action, KubeConfig, Agent, Env, Step, ◌>=>◌, and_then, act,
}
use cluster_api_provider_bri.Agent.Tls.{
  ca_cert_data, write_ca, write_proxy_kubeconfig, write_configs, prepare_configs, start_kubelet,
  start_kube_proxy, bootstrap_from, with_secret_data, bootstrap_with, bootstrap_k8s_node_tls,
}
use cluster_api_provider_bri.Agent.Tls.Plan.{answer, plan, perform, bootstrap_tls-performs}

Fails : Step → Type 0
Fails f = (s : Agent) → (f s).1 ≢ none

-- What the bootstrap was given: the secret's name, its data, and the agent's kubeconfig.
pub record Given (env : Env) (s : Agent) : Type 0 where
  pub ref : ObjectReference
  pub contents : Dict String
  pub config : KubeConfig
  pub named : s.host.spec.bootstrap_secret ≡ some ref
  pub found : env.get_secret ref.namespace ref.name ≡ ok contents
  pub loaded : env.byoh_config ≡ ok config

module _ (env : Env) where
  after_answer :
      (r : Option Error) (f : Step) (a : Action) (actions : List Action) (s : Agent)
      → ((t : Agent) → (f t).1 ≡ none → (f t).0 ≡ act actions t)
      → (and_then r f (act (a ∷ []) s)).1 ≡ none
      → (and_then r f (act (a ∷ []) s)).0 ≡ act (a ∷ actions) s
  after_answer none f a actions s rest h =
      rest (act (a ∷ []) s) h
      ∙ ap (λ l. record s { actions = l }) (append_assoc s.actions (a ∷ []) actions)
  after_answer (some e) f a actions s rest h = absurd (some-ne-none e h)

  perform_ok :
      (actions : List Action) (s : Agent)
      → (perform env actions s).1 ≡ none
      → (perform env actions s).0 ≡ act actions s
  unfolding perform
  perform_ok [] s h = ap (λ l. record s { actions = l }) (sym (append-nil s.actions))
  perform_ok (a ∷ actions) s h =
      after_answer (answer env a) (perform env actions) a actions s (perform_ok actions) h

  after-Fails : (f g : Step) → Fails g → Fails (f >=> g)
  unfolding Fails
  after-Fails f g fails s = by_reply (f s).1
    where
      by_reply : (r : Option Error) → (and_then r g (f s).0).1 ≢ none
      by_reply none = fails (f s).0
      by_reply (some e) = some-ne-none e

  before-Fails : (f g : Step) → Fails f → Fails (f >=> g)
  unfolding Fails
  before-Fails f g fails s = by_reply (f s).1 (fails s)
    where
      by_reply : (r : Option Error) → r ≢ none → (and_then r g (f s).0).1 ≢ none
      by_reply none failed = absurd (failed refl)
      by_reply (some e) failed = some-ne-none e

  write_proxy_kubeconfig-Fails :
      (e : Error) → env.byoh_config ≡ err e → Fails (write_proxy_kubeconfig env env.byoh_config)
  unfolding Fails write_proxy_kubeconfig
  write_proxy_kubeconfig-Fails e h s =
      rw (ap (λ r. write_proxy_kubeconfig env r s) h) (some-ne-none e)

  write_configs-Fails :
      (d : Dict String) (e : Error) → env.byoh_config ≡ err e → Fails (write_configs env d)
  unfolding write_configs
  write_configs-Fails d e h =
      after-Fails (prepare_configs env d) _ (write_proxy_kubeconfig-Fails e h)

  not_loaded :
      (d : Dict String) (e : Error) (s : Agent)
      → env.byoh_config ≡ err e
      → (bootstrap_from env d s).1 ≢ none
  unfolding Fails bootstrap_from
  not_loaded d e s h =
      before-Fails (write_configs env d >=> start_kubelet env s.host) (start_kube_proxy env s.host)
        (before-Fails (write_configs env d) (start_kubelet env s.host) (write_configs-Fails d e h))
        (write_ca env (ca_cert_data env d) s)

  config-Given :
      (s : Agent) (ref : ObjectReference) (d : Dict String) (r : Result {0} KubeConfig)
      → s.host.spec.bootstrap_secret ≡ some ref
      → env.get_secret ref.namespace ref.name ≡ ok d
      → env.byoh_config ≡ r
      → (bootstrap_from env d s).1 ≡ none
      → Given env s
  config-Given s ref d (err e) named found loaded h = absurd (not_loaded d e s loaded h)
  config-Given s ref d (ok k) named found loaded h = record {
    ref = ref;
    contents = d;
    config = k;
    named = named;
    found = found;
    loaded = loaded;
  }

  data-Given :
      (s : Agent) (ref : ObjectReference) (r : Result {0} (Dict String))
      → s.host.spec.bootstrap_secret ≡ some ref
      → env.get_secret ref.namespace ref.name ≡ r
      → (with_secret_data env r s).1 ≡ none
      → Given env s
  unfolding with_secret_data
  data-Given s ref (err e) named found h = absurd (some-ne-none e h)
  data-Given s ref (ok d) named found h = config-Given s ref d env.byoh_config named found refl h

  secret-Given :
      (s : Agent) (r : Option ObjectReference)
      → s.host.spec.bootstrap_secret ≡ r
      → (bootstrap_with env r s).1 ≡ none
      → Given env s
  unfolding bootstrap_with
  secret-Given s none named h = absurd (some-ne-none _ h)
  secret-Given s (some ref) named h =
      data-Given s ref (env.get_secret ref.namespace ref.name) named refl h

-- A TLS bootstrap that returns no error was given a secret that could be read and a kubeconfig of the
-- agent that could be loaded; after the step for the certificate, which writes none where none is
-- found and whose errors are only logged, it has done every action of the plan, the start of the
-- kubelet among them, and changed nothing else of the agent.
pub bootstrap_tls_ok :
    (env : Env) (s : Agent)
    → (bootstrap_k8s_node_tls env s).1 ≡ none
    → (g : Given env s) × ((bootstrap_k8s_node_tls env s).0
        ≡ act (plan env g.contents g.config s.host) (write_ca env (ca_cert_data env g.contents) s))
unfolding bootstrap_k8s_node_tls
bootstrap_tls_ok env s h =
    let g = secret-Given env s s.host.spec.bootstrap_secret refl h in
    let performs =
      bootstrap_tls-performs env s g.ref g.contents g.config g.named g.found g.loaded in
    (g, ap (λ r. r.0) performs ∙ perform_ok env _ _ (sym (ap (λ r. r.1) performs) ∙ h))
