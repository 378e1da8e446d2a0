-- ===== src/MachineController/Normal/Parts.antt =====
-- The steps of `reconcileNormal` before a host is attached, and the machine's readiness.
use cluster_api_provider_bri.Prelude.{
  ◌≡◌, inl, inr, String, false, Option, none, some, is_some, Bool-cases,
}
use cluster_api_provider_bri.Prelude.Dict.{Dict, lookup}
use cluster_api_provider_bri.Api.Names.{remediation_annotation}
use cluster_api_provider_bri.Api.Meta.{ObjectReference, Error, Result, ok, err, is_not_found}
use cluster_api_provider_bri.Api.Host.{ByoHost}
use cluster_api_provider_bri.MachineController.Server.{
  Server, Scope, World, Node, on_server, set_host,
}
use cluster_api_provider_bri.MachineController.Normal.{
  Part, proceeds, stops, of_error, mark_part, check_node, remediate_node, remediate_host, remediate,
  resume, generated, from_template, config_of, create_installer_config, configure,
}

-- A machine that is not ready.
abbrev pub IsUnready : Scope → Type 0
IsUnready p = p.byo_machine.status.ready ≡ false

module _ {S : Type 0} (a : Server S) where
  -- The steps before a host is attached leave the machine as ready as it was.
  abbrev pub UnreadyPart : Part S → Type 0
  UnreadyPart (proceeds w p) = IsUnready p
  UnreadyPart (stops w p e) = IsUnready p
  UnreadyPart (Part.crashed w) = Unit

  of_error-UnreadyPart :
      (w : World S) (p : Scope) (e : Option Error) → IsUnready p → UnreadyPart (of_error a w p e)
  unfolding of_error
  of_error-UnreadyPart w p none u = u
  of_error-UnreadyPart w p (some e) u = u

  check_node-UnreadyPart :
      (p : Scope) (h : ByoHost) (w : World S) (r : S × Result {0} Node)
      → IsUnready p
      → UnreadyPart (check_node a p h w r)
  unfolding check_node mark_part
  check_node-UnreadyPart p h w (s, err e) u = of_error-UnreadyPart _ (set_host _ p) _ u
  check_node-UnreadyPart p h w (s, ok node) u =
      elim (Bool-cases (is_some node.deletion_timestamp)) [
        | inl gone ↦ rw gone (of_error-UnreadyPart _ (set_host _ p) _ u)
        | inr there ↦ rw there u
      ]

  remediate_node-UnreadyPart :
      (p : Scope) (h : ByoHost) (ref : Option ObjectReference) (w : World S)
      → IsUnready p
      → UnreadyPart (remediate_node a p h ref w)
  unfolding remediate_node
  remediate_node-UnreadyPart p h none w u = u
  remediate_node-UnreadyPart p h (some ref) w u = check_node-UnreadyPart p h w _ u

  remediate_host-UnreadyPart :
      (p : Scope) (h : Option ByoHost) (w : World S)
      → IsUnready p
      → UnreadyPart (remediate_host a p h w)
  unfolding remediate_host
  remediate_host-UnreadyPart p none w u = u
  remediate_host-UnreadyPart p (some h) w u = elim (Bool-cases (is_some h.status.machine_ref)) [
    | inl bound ↦ rw bound (remediate_node-UnreadyPart p h p.byo_machine.status.node_ref w u)
    | inr free ↦ rw free u
  ]

  pub remediate-UnreadyPart :
      (p : Scope) (w : World S) → IsUnready p → UnreadyPart (remediate a p w)
  unfolding remediate
  remediate-UnreadyPart p w u =
      elim (Bool-cases (is_some (lookup remediation_annotation p.machine.annotations))) [
        | inl yes_annotated ↦ rw yes_annotated (remediate_host-UnreadyPart p p.byo_host w u)
        | inr not_annotated ↦ rw not_annotated u
      ]

  pub resume-UnreadyPart :
      (p : Scope) (h : Option ByoHost) (w : World S) → IsUnready p → UnreadyPart (resume a p h w)
  unfolding resume
  resume-UnreadyPart p none w u = u
  resume-UnreadyPart p (some h) w u = of_error-UnreadyPart _ (set_host _ p) _ u

  generated-UnreadyPart :
      (p : Scope) (d : Dict String) (r : Result {0} (Unit {0})) (w : World S)
      → IsUnready p
      → UnreadyPart (generated a p d r w)
  unfolding generated
  generated-UnreadyPart p d (err e) w u = u
  generated-UnreadyPart p d (ok _) w u = of_error-UnreadyPart _ p _ u

  from_template-UnreadyPart :
      (p : Scope) (version : Option String) (w : World S) (r : S × Option Error)
      → IsUnready p
      → UnreadyPart (from_template a p version w r)
  unfolding from_template
  from_template-UnreadyPart p version w (s, some e) u = u
  from_template-UnreadyPart p none w (s, none) u = tt
  from_template-UnreadyPart p (some v) w (s, none) u = generated-UnreadyPart p _ _ (on_server s w) u

  config_of-UnreadyPart :
      (p : Scope) (w : World S) (r : S × Option Error)
      → IsUnready p
      → UnreadyPart (config_of a p w r)
  unfolding config_of
  config_of-UnreadyPart p w (s, none) u = u
  config_of-UnreadyPart p w (s, some e) u = elim (Bool-cases (is_not_found e)) [
    | inl gone ↦ rw gone (from_template-UnreadyPart p p.machine.version w _ u)
    | inr other ↦ rw other u
  ]

  pub configure-UnreadyPart :
      (p : Scope) (w : World S) → IsUnready p → UnreadyPart (configure a p w)
  unfolding configure create_installer_config
  configure-UnreadyPart p w u = elim (Bool-cases (is_some p.byo_machine.spec.installer_ref)) [
    | inl wanted ↦ rw wanted (config_of-UnreadyPart p w _ u)
    | inr unwanted ↦ rw unwanted u
  ]
