-- ===== src/Agent/Cleanup/Laws.antt =====
-- What `hostCleanUp` leaves of the host, when it succeeds and when it fails.
use mathlib.Core.Option.{some-ne-none, none-ne-some}
use cluster_api_provider_bri.Prelude.{◌≡◌, refl, ap, ◌∙◌, false, Option, none, some, arith}
use cluster_api_provider_bri.Prelude.Dict.{lookup, lookup-erase}
use cluster_api_provider_bri.Api.Names.{
  host_cleanup_annotation, cleanup_started_at_annotation, end_point_ip_annotation,
  k8s_version_annotation, bundle_lookup_base_registry_annotation, cluster_name_label,
  attached_byo_machine_label, k8s_node_bootstrap_succeeded, k8s_components_installation_succeeded,
  k8s_node_absent,
}
use cluster_api_provider_bri.Api.Meta.{Error}
use cluster_api_provider_bri.Api.Conditions.{ConditionOps, ConditionLaws, severity_info}
use cluster_api_provider_bri.Api.Host.{ByoHost}
use cluster_api_provider_bri.Agent.State.{
  Agent, Env, Step, and_then, ◌>=>◌, bootstrapped, installed,
}
use cluster_api_provider_bri.Agent.Cleanup.{
  reset_node_with_retry, remove_sentinel_file, delete_ip_of, delete_endpoint_ip, mark_absent,
  uninstall, forget_machine, host_clean_up,
}

-- A host that no machine uses and that keeps nothing of the last one.
pub record IsClean (c : ConditionOps) (h : ByoHost) : Type 0 where
  pub no_machine : h.status.machine_ref ≡ none
  pub no_bootstrap_secret : h.spec.bootstrap_secret ≡ none
  pub no_installation_secret : h.spec.installation_secret ≡ none
  pub no_uninstallation_script : h.spec.uninstallation_script ≡ none
  pub no_cluster_label : lookup cluster_name_label h.meta.labels ≡ none
  pub no_machine_label : lookup attached_byo_machine_label h.meta.labels ≡ none
  pub no_cleanup : lookup host_cleanup_annotation h.meta.annotations ≡ none
  pub no_start : lookup cleanup_started_at_annotation h.meta.annotations ≡ none
  pub no_endpoint : lookup end_point_ip_annotation h.meta.annotations ≡ none
  pub no_version : lookup k8s_version_annotation h.meta.annotations ≡ none
  pub no_registry : lookup bundle_lookup_base_registry_annotation h.meta.annotations ≡ none
  pub not_bootstrapped : bootstrapped c h ≡ false
  pub not_installed : installed c h ≡ false

and_then_ok :
    (e : Option Error) (g : Step) (s : Agent)
    → (and_then e g s).1 ≡ none
    → (e ≡ none) × ((g s).1 ≡ none) × (and_then e g s ≡ g s)
and_then_ok none g s h = (refl, h, refl)
and_then_ok (some e) g s h = absurd (some-ne-none e h)

and_then_failed :
    (e : Option Error) (g : Agent → Agent) (s : Agent) (x : Error)
    → (and_then e (λ t. (g t, none)) s).1 ≡ some x
    → and_then e (λ t. (g t, none)) s ≡ (s, some x)
and_then_failed none g s x h = absurd (none-ne-some x h)
and_then_failed (some e) g s x h = rw h refl

-- A property that each step keeps holds at the end of steps that all succeed.
and_then_post {ℓ} :
    (P : Agent → Type ℓ) (e : Option Error) (g : Step) (s : Agent)
    → (e ≡ none → P s)
    → ((u : Agent) → P u → (g u).1 ≡ none → P (g u).0)
    → (and_then e g s).1 ≡ none
    → P (and_then e g s).0
and_then_post P none g s p keep h = keep s (p refl) h
and_then_post P (some e) g s p keep h = absurd (some-ne-none e h)

module _ (c : ConditionOps) (laws : ConditionLaws c) (env : Env) where
  uninstall-not_installed :
      (s : Agent) → (uninstall c env s).1 ≡ none → installed c (uninstall c env s).0.host ≡ false
  unfolding uninstall
  uninstall-not_installed s h = ground (
    arith,
    laws.is_true-mark_false k8s_components_installation_succeeded
        k8s_components_installation_succeeded k8s_node_absent severity_info
        s.host.status.conditions,
  )

  remove_sentinel_file-host : (s : Agent) → (remove_sentinel_file env s).0.host ≡ s.host
  unfolding remove_sentinel_file
  remove_sentinel_file-host s = ground arith

  delete_endpoint_ip-host : (s : Agent) → (delete_endpoint_ip env s).0.host ≡ s.host
  unfolding delete_endpoint_ip delete_ip_of
  delete_endpoint_ip-host s = ground arith

  forget_machine-IsClean :
      (s : Agent) → installed c s.host ≡ false → IsClean c (forget_machine c env s).host
  unfolding forget_machine
  forget_machine-IsClean s i = record {
    no_machine = refl;
    no_bootstrap_secret = refl;
    no_installation_secret = refl;
    no_uninstallation_script = refl;
    no_cluster_label = simp lookup-erase;
    no_machine_label = simp lookup-erase;
    no_cleanup = simp lookup-erase;
    no_start = simp lookup-erase;
    no_endpoint = simp lookup-erase;
    no_version = simp lookup-erase;
    no_registry = simp lookup-erase;
    not_bootstrapped = simp (laws.is_true-mark_false);
    not_installed = simp (laws.is_true-mark_false) i;
  }

  -- What all steps but the last leave alone.
  abbrev pub Keeps : Agent → Agent → Type 0
  Keeps s t =
      (t.host.meta ≡ s.host.meta)
      × (t.host.spec ≡ s.host.spec)
      × (t.host.status.machine_ref ≡ s.host.status.machine_ref)
      × (t.machine_id ≡ s.machine_id)

  reset-Keeps : (s : Agent) → (reset_node_with_retry env 3 none s).0.host ≡ s.host
  unfolding reset_node_with_retry
  reset-Keeps s = refl

  reset-machine_id : (s : Agent) → (reset_node_with_retry env 3 none s).0.machine_id ≡ s.machine_id
  unfolding reset_node_with_retry
  reset-machine_id s = refl

  uninstall-Keeps : (s : Agent) → Keeps s (uninstall c env s).0
  unfolding uninstall
  uninstall-Keeps s = ground arith

  sentinel-Keeps : (s : Agent) → Keeps s (remove_sentinel_file env s).0
  unfolding remove_sentinel_file
  sentinel-Keeps s = ground arith

  endpoint-Keeps : (s : Agent) → Keeps s (delete_endpoint_ip env s).0
  unfolding delete_endpoint_ip delete_ip_of
  endpoint-Keeps s = ground arith

  -- The steps before the last, as one.
  abbrev early_steps : Step
  early_steps =
      uninstall c env
      >=> (λ t. (mark_absent c env k8s_node_bootstrap_succeeded t, none))
      >=> remove_sentinel_file env
      >=> delete_endpoint_ip env

  and_then-Keeps :
      (e : Option Error) (g : Step) (s t : Agent)
      → Keeps s t
      → ((u : Agent) → Keeps u (g u).0)
      → Keeps s (and_then e g t).0
  and_then-Keeps none g s t (a, b, d, f) k =
      let (a', b', d', f') = k t in (a' ∙ a, b' ∙ b, d' ∙ d, f' ∙ f)
  and_then-Keeps (some e) g s t h k = h

  early-Keeps : (s : Agent) → Keeps s (early_steps s).0
  early-Keeps s =
      and_then-Keeps _ (delete_endpoint_ip env) s _
        (and_then-Keeps _ (remove_sentinel_file env) s _
          (and_then-Keeps _ (λ t. (mark_absent c env k8s_node_bootstrap_succeeded t, none)) s _
            (uninstall-Keeps s) (λ u. (refl, refl, refl, refl)))
          sentinel-Keeps)
        endpoint-Keeps

  abbrev IsUninstalled : Agent → Type 0
  IsUninstalled t = installed c t.host ≡ false

  early-not_installed :
      (s : Agent) → (early_steps s).1 ≡ none → installed c (early_steps s).0.host ≡ false
  early-not_installed s =
      and_then_post IsUninstalled _ (delete_endpoint_ip env) _
        (and_then_post IsUninstalled _ (remove_sentinel_file env) _
          (and_then_post IsUninstalled _
            (λ t. (mark_absent c env k8s_node_bootstrap_succeeded t, none)) _
            (uninstall-not_installed s) (λ u p _. simp (laws.is_true-mark_false) p))
          (λ u p _. rw (remove_sentinel_file-host u) p))
        (λ u p _. rw (delete_endpoint_ip-host u) p)

  host_clean_up_lem :
      (s : Agent)
      → host_clean_up c env s
        ≡ and_then
            (early_steps (reset_node_with_retry env 3 none s).0).1
            (λ t. (forget_machine c env t, none))
            (early_steps (reset_node_with_retry env 3 none s).0).0
  host_clean_up_lem s = unfold host_clean_up in refl

  -- A cleanup that succeeds leaves the host clean.
  pub host_clean_up-IsClean :
      (s : Agent) → (host_clean_up c env s).1 ≡ none → IsClean c (host_clean_up c env s).0.host
  host_clean_up-IsClean s h =
      let r = (reset_node_with_retry env 3 none s).0 in
      let last =
        and_then_ok (early_steps r).1 (λ t. (forget_machine c env t, none)) (early_steps r).0
          (rw (host_clean_up_lem s) at h) in
      rw (host_clean_up_lem s ∙ last.2)
        (forget_machine-IsClean (early_steps r).0 (early-not_installed r last.0))

  -- A cleanup that fails keeps the host's metadata, with the cleanup annotation, its spec and its
  -- machine, and the file with the machine's UID.
  pub host_clean_up_failed :
      (s : Agent) (e : Error)
      → (host_clean_up c env s).1 ≡ some e
      → Keeps s (host_clean_up c env s).0
  host_clean_up_failed s e h =
      let r = (reset_node_with_retry env 3 none s).0 in
      let stopped =
        and_then_failed (early_steps r).1 (λ t. forget_machine c env t) (early_steps r).0 e
          (rw (host_clean_up_lem s) at h) in
      let (a, b, d, f) = early-Keeps r in
      rw (host_clean_up_lem s ∙ stopped) (
        a ∙ ap (λ x. x.meta) (reset-Keeps s),
        b ∙ ap (λ x. x.spec) (reset-Keeps s),
        d ∙ ap (λ x. x.status.machine_ref) (reset-Keeps s),
        f ∙ reset-machine_id s,
      )
