-- ===== src/MachineController/Normal/Readiness.antt =====
-- What makes a machine ready.
use mathlib.Core.Bool.{true≢false}
use cluster_api_provider_bri.Prelude.{
  ◌≡◌, refl, sym, ◌∙◌, inl, inr, String, Bool, true, false, not, ◌&&◌, ◌||◌, ltb, Option, none,
  some, is_some, Bool-cases,
}
use cluster_api_provider_bri.Api.Names.{installation_secret_not_available}
use cluster_api_provider_bri.Api.Meta.{Error, Result, ok, err, Reply, is_not_found, FinalizerOps}
use cluster_api_provider_bri.Api.Conditions.{ConditionOps, ConditionLaws}
use cluster_api_provider_bri.Api.Quantity.{QuantityOps}
use cluster_api_provider_bri.Api.Host.{ByoHost, is_tls_bootstrap}
use cluster_api_provider_bri.Api.Machine.{ByoMachine}
use cluster_api_provider_bri.MachineController.Server.{
  Server, Scope, World, Node, Ended, returned, set_host, set_byo_machine,
}
use cluster_api_provider_bri.MachineController.Attach.{Attached, attached_to, replied}
use cluster_api_provider_bri.MachineController.Attach.Replies.{KeepsReady, attach-KeepsReady}
use cluster_api_provider_bri.MachineController.Provision.{
  mark_waiting, record_node, with_client, set_node_provider_id, update_node_provider_id,
}
use cluster_api_provider_bri.MachineController.Provision.Recorded.{
  IsProvisioned, AcceptedResult, found-IsProvisioned, set_node-Accepted,
}
use cluster_api_provider_bri.MachineController.Normal.Parts.{
  IsUnready, UnreadyPart, configure-UnreadyPart, resume-UnreadyPart, remediate-UnreadyPart,
}
use cluster_api_provider_bri.MachineController.Normal.{
  Part, proceeds, stops, is_empty_info, set_host_info, set_installation_secret, and_then,
  after_secret, with_host, after_attach, find_host, check_ready, add_machine_finalizer,
  after_resume, after_remediation, reconcile_normal,
}

never {ℓ} : {A : Type ℓ} {b : Bool} → b ≡ false → b ≡ true → A
never no_ready ready = absurd (true≢false (sym ready ∙ no_ready))

module _ {S : Type 0} (a : Server S) (c : ConditionOps) (laws : ConditionLaws c) where
  -- A machine that is ready at the end is provisioned for the host in its scope.
  abbrev pub ReadyByHost : Ended S → Type 0
  ReadyByHost (returned w p r) =
      p.byo_machine.status.ready ≡ true
      → (h : ByoHost) × (p.byo_host ≡ some h) × IsProvisioned a c laws h p
  ReadyByHost (Ended.crashed w) = Unit

  record_node-ReadyByHost :
      (p : Scope) (h : ByoHost) (w : World S) (r : S × Result {0} (String × Node))
      → IsUnready p
      → p.byo_host ≡ some h
      → AcceptedResult a h r.1
      → ReadyByHost (record_node a c p h w r)
  unfolding record_node mark_waiting
  record_node-ReadyByHost p h w (s, err e) u held accepted = elim (Bool-cases (is_not_found e)) [
    | inl gone ↦ rw gone (never u)
    | inr other ↦ rw other (never u)
  ]
  record_node-ReadyByHost p h w (s, ok found) u held accepted =
      λ ready. (h, held, found-IsProvisioned a c laws p h found accepted)

  with_client-ReadyByHost :
      (p : Scope) (h : ByoHost) (w : World S) (r : S × Option Error)
      → IsUnready p
      → p.byo_host ≡ some h
      → ReadyByHost (with_client a c p h w r)
  unfolding with_client
  with_client-ReadyByHost p h w (s, some e) u held = never u
  with_client-ReadyByHost p h w (s, none) u held =
      record_node-ReadyByHost p h w (set_node_provider_id a h s) u held (set_node-Accepted a h s)

  update-ReadyByHost :
      (p : Scope) (h : ByoHost) (w : World S)
      → IsUnready p
      → p.byo_host ≡ some h
      → ReadyByHost (update_node_provider_id a c p h w)
  unfolding update_node_provider_id
  update-ReadyByHost p h w u held = with_client-ReadyByHost p h w _ u held

  and_then-ReadyByHost :
      (next : Scope → World S → Ended S) (part : Part S)
      → ((p : Scope) (w : World S) → IsUnready p → ReadyByHost (next p w))
      → UnreadyPart a part
      → ReadyByHost (and_then a next part)
  unfolding and_then
  and_then-ReadyByHost next (proceeds w p) follows u = follows p w u
  and_then-ReadyByHost next (stops w p e) follows u = never u
  and_then-ReadyByHost next (Part.crashed w) follows u = tt

  module _ (q : QuantityOps) (f : FinalizerOps) where
    after_secret-ReadyByHost :
        (p : Scope) (w : World S) (r : (S × ByoHost) × Reply)
        → IsUnready p
        → ReadyByHost (after_secret a c q f p w r)
    unfolding after_secret
    after_secret-ReadyByHost p w ((s, h), r) u =
        elim (Bool-cases (is_some r.error || ltb 0 r.requeue_after)) [
          | inl ends ↦ rw ends (never u)
          | inr follows ↦ rw follows (update-ReadyByHost (set_host h p) h _ u refl)
        ]

    info-unready :
        (h : ByoHost) (m : ByoMachine) → (set_host_info h m).status.ready ≡ m.status.ready
    unfolding set_host_info
    info-unready h m = elim (Bool-cases (is_empty_info m.status.host_info)) [
      | inl fresh ↦ rw fresh refl
      | inr known ↦ rw known refl
    ]

    with_host-ReadyByHost :
        (p : Scope) (h : ByoHost) (w : World S)
        → IsUnready p
        → p.byo_host ≡ some h
        → ReadyByHost (with_host a c q f p h w)
    unfolding with_host
    with_host-ReadyByHost p h w u held =
        let k = set_byo_machine (set_host_info h p.byo_machine) p in
        let v : IsUnready k = info-unready h p.byo_machine ∙ u in
        elim (Bool-cases
          (is_some p.byo_machine.spec.installer_ref && not (is_some h.spec.installation_secret))) [
            | inl wanted ↦
                rw wanted (after_secret-ReadyByHost k w (set_installation_secret a h w.server) v)
            | inr unwanted ↦ rw unwanted (update-ReadyByHost k h w v held)
          ]

    after_attach-ReadyByHost :
        (p : Scope) (r : World S × Attached)
        → IsUnready p
        → KeepsReady p r.1
        → ReadyByHost (after_attach a c q f p r)
    unfolding after_attach mark_waiting
    after_attach-ReadyByHost p (w, attached_to h) u same =
        with_host-ReadyByHost (set_host h (mark_waiting c installation_secret_not_available p)) h w
          u refl
    after_attach-ReadyByHost p (w, replied m r) u same = never (same ∙ u)
    after_attach-ReadyByHost p (w, Attached.crashed) u same = tt

    find_host-ReadyByHost :
        (p : Scope) (h : Option ByoHost) (w : World S)
        → IsUnready p
        → p.byo_host ≡ h
        → ReadyByHost (find_host a c q f p h w)
    unfolding find_host
    find_host-ReadyByHost p (some h) w u held = with_host-ReadyByHost p h w u held
    find_host-ReadyByHost p none w u held =
        after_attach-ReadyByHost p _ u (attach-KeepsReady a c q p w)

    check_ready-ReadyByHost :
        (p : Scope) (w : World S) → IsUnready p → ReadyByHost (check_ready a c q f p w)
    unfolding check_ready mark_waiting
    check_ready-ReadyByHost p w u = elim (Bool-cases (not p.cluster.infrastructure_ready)) [
      | inl early ↦ rw early (never u)
      | inr in_place ↦
          rw in_place
            (elim (Bool-cases (
              not (is_tls_bootstrap p.byo_machine.spec.join_mode)
              && not (is_some p.machine.data_secret_name))) [
                | inl no_data ↦ rw no_data (never u)
                | inr data_there ↦ rw data_there (find_host-ReadyByHost p p.byo_host w u refl)
              ])
    ]

    after_resume-ReadyByHost :
        (p : Scope) (w : World S) → IsUnready p → ReadyByHost (after_resume a c q f p w)
    unfolding after_resume
    after_resume-ReadyByHost p w u =
        and_then-ReadyByHost _ _ check_ready-ReadyByHost (configure-UnreadyPart a p w u)

    after_remediation-ReadyByHost :
        (p : Scope) (w : World S) → IsUnready p → ReadyByHost (after_remediation a c q f p w)
    unfolding after_remediation
    after_remediation-ReadyByHost p w u =
        and_then-ReadyByHost _ _ after_resume-ReadyByHost (resume-UnreadyPart a p p.byo_host w u)

    -- Whatever the calls reply, a machine that was not ready is ready after `reconcileNormal` only
    -- if it has a host and is provisioned for it: a Node, an accepted provider ID and a true
    -- `BYOHostReady`.
    pub reconcile_normal-ReadyByHost :
        (p : Scope) (w : World S)
        → p.byo_machine.status.ready ≡ false
        → ReadyByHost (reconcile_normal a c q f p w)
    unfolding reconcile_normal add_machine_finalizer
    reconcile_normal-ReadyByHost p w u =
        and_then-ReadyByHost _ _ after_remediation-ReadyByHost (remediate-UnreadyPart a _ w u)
