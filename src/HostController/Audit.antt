-- ===== src/HostController/Audit.antt =====
-- The audit entry of a forced cleanup.
use mathlib.Core.Option.{none-ne-some}
use cluster_api_provider_bri.Prelude.{
  ℕ, ◌≡◌, refl, sym, ◌∙◌, ◌⊎◌, inl, inr, ℤ, String, Bool, true, false, Option, none, some, is_some,
  Bool-cases,
}
use cluster_api_provider_bri.Prelude.Dict.{lookup, insert, lookup-insert}
use cluster_api_provider_bri.Api.Names.{
  host_cleanup_annotation, cleanup_started_at_annotation, force_cleanup_audit_annotation,
}
use cluster_api_provider_bri.Api.Meta.{Error, Result, ok, err, is_not_found}
use cluster_api_provider_bri.Api.Conditions.{ConditionOps, ConditionLaws}
use cluster_api_provider_bri.Api.Host.{ByoHost}
use cluster_api_provider_bri.HostController.{
  Env, Outcome, after_delete, force_cleanup, elapsed_over, start_over, finish, after_get,
  from_annotation, cleanup, handle, with_annotations,
}
use cluster_api_provider_bri.HostController.Cleanup.{annotation, release-IsReleased}

module _ (c : ConditionOps) (laws : ConditionLaws c) (env : Env) where
  -- The audit entry of the result is gone, or it is the one that the host had.
  abbrev AuditKept : ByoHost → Outcome → Type 0
  AuditKept h o =
      (annotation force_cleanup_audit_annotation o.host ≡ none)
      ⊎ (annotation force_cleanup_audit_annotation o.host
          ≡ annotation force_cleanup_audit_annotation h)

  after_delete-AuditKept : (e : Option Error) (h : ByoHost) → AuditKept h (after_delete c env e h)
  unfolding after_delete
  after_delete-AuditKept none h = inl (release-IsReleased c laws env h).no_audit
  after_delete-AuditKept (some e) h = elim (Bool-cases (is_not_found e)) [
    | inl y ↦ rw y (inl (release-IsReleased c laws env h).no_audit)
    | inr n ↦ rw n (inr refl)
  ]

  after_get-AuditKept :
      (g : Result {0} (Unit {0})) (h : ByoHost) → AuditKept h (after_get c env g h)
  unfolding after_get
  after_get-AuditKept (ok _) h = after_delete-AuditKept env.delete_node h
  after_get-AuditKept (err _) h = inl (release-IsReleased c laws env h).no_audit

  finish-AuditKept :
      (timeout : ℤ) (force : Bool) (h k : ByoHost)
      → annotation force_cleanup_audit_annotation k ≡ annotation force_cleanup_audit_annotation h
      → AuditKept h (finish c env timeout force k)
  unfolding finish force_cleanup
  finish-AuditKept timeout true h k e = elim (after_get-AuditKept env.get_node k) [
    | inl gone ↦ inl gone
    | inr same ↦ inr (same ∙ e)
  ]
  finish-AuditKept timeout false h k e = inr e

  from_annotation-AuditKept :
      (timeout : ℤ) (start : Option String) (h : ByoHost)
      → AuditKept h (from_annotation c env timeout start h)
  unfolding from_annotation
  from_annotation-AuditKept timeout (some text) h =
      finish-AuditKept timeout (start_over c env timeout (env.parse_time text)) h h refl
  from_annotation-AuditKept timeout none h =
      finish-AuditKept timeout false h
        (with_annotations
          (insert cleanup_started_at_annotation (env.format_time env.now) h.meta.annotations) h)
        (rw lookup-insert refl)

  cleanup-AuditKept :
      (timeout : ℤ) (deleted : Option ℕ) (h : ByoHost)
      → AuditKept h (cleanup c env timeout deleted h)
  unfolding cleanup
  cleanup-AuditKept timeout (some d) h =
      finish-AuditKept timeout (elapsed_over c env timeout d) h h refl
  cleanup-AuditKept timeout none h =
      from_annotation-AuditKept timeout (lookup cleanup_started_at_annotation h.meta.annotations) h

  handle-AuditKept : (timeout : ℤ) (h : ByoHost) → AuditKept h (handle c env timeout h)
  unfolding handle
  handle-AuditKept timeout h = elim (Bool-cases (is_some (annotation host_cleanup_annotation h))) [
    | inl marked ↦ rw marked (cleanup-AuditKept timeout h.meta.deletion_timestamp h)
    | inr clear ↦ rw clear (inr refl)
  ]

  -- Nothing the controller does to a host leaves an entry in the audit annotation that was not
  -- there before.
  pub audit_never_written :
      (timeout : ℤ) (h : ByoHost) {entry : String}
      → annotation force_cleanup_audit_annotation (handle c env timeout h).host ≡ some entry
      → annotation force_cleanup_audit_annotation h ≡ some entry
  audit_never_written timeout h e = elim (handle-AuditKept timeout h) [
    | inl gone ↦ absurd (none-ne-some _ (sym gone ∙ e))
    | inr same ↦ sym same ∙ e
  ]
