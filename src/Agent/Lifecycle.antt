-- ===== src/Agent/Lifecycle.antt =====
-- The agent over several reconciles: when it cleans, and when it rests.
use mathlib.Core.Option.{some-ne-none}
use cluster_api_provider_bri.Prelude.{
  ◌≡◌, refl, ap, ◌∙◌, ◌⊎◌, inl, String, true, Option, none, some, if_true, arith,
}
use cluster_api_provider_bri.Api.Names.{
  k8s_node_bootstrap_succeeded, k8s_components_installation_succeeded,
}
use cluster_api_provider_bri.Api.Meta.{ObjectReference, Error, done}
use cluster_api_provider_bri.Api.Conditions.{ConditionOps, ConditionLaws}
use cluster_api_provider_bri.Agent.State.{Agent, Env}
use cluster_api_provider_bri.Agent.Cleanup.{host_clean_up, mark_absent}
use cluster_api_provider_bri.Agent.Cleanup.Laws.{IsClean, host_clean_up-IsClean}
use cluster_api_provider_bri.Agent.Reconcile.{
  clean_and, is_other_machine, reconcile_bound, reconcile_secret, normal_of, reconcile_normal,
}

module _ (c : ConditionOps) (laws : ConditionLaws c) (env : Env) where
  mark_absent-IsClean :
      (t : String) (s : Agent)
      → IsClean c s.host
      → (t ≡ k8s_node_bootstrap_succeeded) ⊎ (t ≡ k8s_components_installation_succeeded)
      → IsClean c (mark_absent c env t s).host
  mark_absent-IsClean t s clean which = record {
    no_machine = clean.no_machine;
    no_bootstrap_secret = clean.no_bootstrap_secret;
    no_installation_secret = clean.no_installation_secret;
    no_uninstallation_script = clean.no_uninstallation_script;
    no_cluster_label = clean.no_cluster_label;
    no_machine_label = clean.no_machine_label;
    no_cleanup = clean.no_cleanup;
    no_start = clean.no_start;
    no_endpoint = clean.no_endpoint;
    no_version = clean.no_version;
    no_registry = clean.no_registry;
    not_bootstrapped = simp (laws.is_true-mark_false) (ground (arith, clean.not_bootstrapped));
    not_installed = simp (laws.is_true-mark_false) (ground (arith, clean.not_installed));
  }

  clean_and_ok :
      (marks : Agent → Agent) (r : Agent × Option Error)
      → r.1 ≡ none
      → clean_and c env marks r ≡ (marks r.0, done)
  unfolding clean_and
  clean_and_ok marks (s, none) h = refl
  clean_and_ok marks (s, some e) h = absurd (some-ne-none e h)

  bound_other :
      (s : Agent) (ref : ObjectReference)
      → is_other_machine c env ref s.machine_id ≡ true
      → reconcile_bound c env ref s
        ≡ clean_and c env (mark_absent c env k8s_node_bootstrap_succeeded) (host_clean_up c env s)
  unfolding reconcile_bound
  bound_other s ref other = if_true _ _ other

  clean_other :
      (s : Agent) (ref : ObjectReference)
      → is_other_machine c env ref s.machine_id ≡ true
      → (host_clean_up c env s).1 ≡ none
      → reconcile_bound c env ref s
        ≡ (mark_absent c env k8s_node_bootstrap_succeeded (host_clean_up c env s).0, done)
  clean_other s ref other success =
      bound_other s ref other ∙ clean_and_ok _ (host_clean_up c env s) success

  reconcile_held :
      (s : Agent) (ref secret : ObjectReference)
      → s.host.status.machine_ref ≡ some ref
      → s.host.spec.bootstrap_secret ≡ some secret
      → reconcile_normal c env s ≡ reconcile_bound c env ref s
  unfolding reconcile_normal normal_of reconcile_secret
  reconcile_held s ref secret held given =
      ap (λ r. normal_of c env r s) held ∙ ap (λ b. reconcile_secret c env ref b s) given

  -- A host whose file holds the UID of another machine than the one it is given to is cleaned, if
  -- its cleanup succeeds, and not bootstrapped.
  pub mismatch-IsClean :
      (s : Agent) (ref secret : ObjectReference)
      → s.host.status.machine_ref ≡ some ref
      → s.host.spec.bootstrap_secret ≡ some secret
      → is_other_machine c env ref s.machine_id ≡ true
      → (host_clean_up c env s).1 ≡ none
      → IsClean c (reconcile_normal c env s).0.host × ((reconcile_normal c env s).1 ≡ done)
  mismatch-IsClean s ref secret held given other success =
      rw (reconcile_held s ref secret held given ∙ clean_other s ref other success) (
        mark_absent-IsClean k8s_node_bootstrap_succeeded (host_clean_up c env s).0
            (host_clean_up-IsClean c laws env s success) (inl refl),
        refl,
      )
