-- ===== src/HostController/Cleanup.antt =====
-- What a reconcile of the ByoHost controller leaves of a host that waits for its cleanup.
use mathlib.Core.Option.{some-ne-none}
use cluster_api_provider_bri.Prelude.{
  ℕ, ◌≡◌, refl, ◌∙◌, ◌⊎◌, inl, inr, ℤ, ltℤ, sub_ℕ, pos_part, String, Bool, true, false, Option,
  none, some, [], ◌∷◌, Bool-cases, if◌then◌else◌,
}
use cluster_api_provider_bri.Prelude.Dict.{lookup, insert, lookup-insert, lookup-erase}
use cluster_api_provider_bri.Api.Names.{
  host_cleanup_annotation, cleanup_started_at_annotation, force_cleanup_audit_annotation,
  k8s_node_bootstrap_succeeded,
}
use cluster_api_provider_bri.Api.Meta.{Error, Result, ok, err, is_not_found, done, requeue}
use cluster_api_provider_bri.Api.Conditions.{ConditionOps, ConditionLaws}
use cluster_api_provider_bri.Api.Host.{ByoHost}
use cluster_api_provider_bri.HostController.{
  Env, Outcome, delete_node, release, after_delete, force_cleanup, elapsed_over, start_over, finish,
  after_get, from_annotation, cleanup, handle, with_annotations,
}

abbrev pub annotation : String → ByoHost → Option String
annotation k h = lookup k h.meta.annotations

-- A host that is free of its machine and of the marks of a cleanup, and whose node condition tells
-- the agent, should it come back, that there is something to clean.
pub record IsReleased (c : ConditionOps) (h : ByoHost) : Type 0 where
  pub no_machine : h.status.machine_ref ≡ none
  pub no_cleanup : annotation host_cleanup_annotation h ≡ none
  pub no_start : annotation cleanup_started_at_annotation h ≡ none
  pub no_audit : annotation force_cleanup_audit_annotation h ≡ none
  pub bootstrapped : c.is_true k8s_node_bootstrap_succeeded h.status.conditions ≡ true

module _ (c : ConditionOps) (laws : ConditionLaws c) (env : Env) where
  pub release-IsReleased : (h : ByoHost) → IsReleased c (release c env h)
  unfolding release
  release-IsReleased h = record {
    no_machine = refl;
    no_cleanup = simp lookup-erase;
    no_start = simp lookup-erase;
    no_audit = simp lookup-erase;
    bootstrapped = simp (laws.is_true-mark_true);
  }

  after_delete_ok :
      (e : Option Error) (h : ByoHost)
      → (after_delete c env e h).reply.error ≡ none
      → after_delete c env e h
        ≡ record { host = release c env h; reply = done; calls = delete_node h.meta.name ∷ [] }
  unfolding after_delete
  after_delete_ok none h r = refl
  after_delete_ok (some e) h r = elim (Bool-cases (is_not_found e)) [
    | inl y ↦ rw y refl
    | inr n ↦ absurd (some-ne-none e (rw (n, if◌then◌else◌) at r))
  ]

  after_get-IsReleased :
      (g : Result {0} (Unit {0})) (h : ByoHost)
      → (after_get c env g h).reply.error ≡ none
      → IsReleased c (after_get c env g h).host × ((after_get c env g h).reply ≡ done)
  unfolding after_get
  after_get-IsReleased (ok _) h r =
      rw (after_delete_ok env.delete_node h r) (release-IsReleased h, refl)
  after_get-IsReleased (err _) h r = (release-IsReleased h, refl)

  force_cleanup-IsReleased :
      (h : ByoHost)
      → (force_cleanup c env h).reply.error ≡ none
      → IsReleased c (force_cleanup c env h).host × ((force_cleanup c env h).reply ≡ done)
  unfolding force_cleanup
  force_cleanup-IsReleased h r = after_get-IsReleased env.get_node h r

  -- What a reconcile without an error leaves of a host whose cleanup annotation holds `mark`: it is
  -- released, or it keeps its status and the annotation and is looked at again after the timeout.
  abbrev pub Settles : ℤ → ByoHost → String → Outcome → Type 0
  Settles timeout h mark o =
      (IsReleased c o.host × (o.reply ≡ done))
      ⊎ ((o.reply ≡ requeue (pos_part timeout))
          × (o.host.status ≡ h.status)
          × (annotation host_cleanup_annotation o.host ≡ some mark))

  finish_ok :
      (timeout : ℤ) (force : Bool) (h : ByoHost)
      → (finish c env timeout force h).reply.error ≡ none
      → (IsReleased c (finish c env timeout force h).host
          × ((finish c env timeout force h).reply ≡ done))
        ⊎ (finish c env timeout force h
            ≡ record { host = h; reply = requeue (pos_part timeout); calls = [] })
  unfolding finish
  finish_ok timeout true h r = inl (force_cleanup-IsReleased h r)
  finish_ok timeout false h r = inr refl

  finish-Settles :
      (timeout : ℤ) (force : Bool) (h k : ByoHost) (mark : String)
      → k.status ≡ h.status
      → annotation host_cleanup_annotation k ≡ some mark
      → (finish c env timeout force k).reply.error ≡ none
      → Settles timeout h mark (finish c env timeout force k)
  finish-Settles timeout force h k mark same kept r = elim (finish_ok timeout force k r) [
    | inl released ↦ inl released
    | inr waits ↦ rw waits (inr (refl, same, kept))
  ]

  from_annotation-Settles :
      (timeout : ℤ) (start : Option String) (h : ByoHost) (mark : String)
      → annotation host_cleanup_annotation h ≡ some mark
      → (from_annotation c env timeout start h).reply.error ≡ none
      → Settles timeout h mark (from_annotation c env timeout start h)
  unfolding from_annotation
  from_annotation-Settles timeout (some text) h mark kept r =
      finish-Settles timeout (start_over c env timeout (env.parse_time text)) h h mark refl kept r
  from_annotation-Settles timeout none h mark kept r =
      finish-Settles timeout false h
        (with_annotations
          (insert cleanup_started_at_annotation (env.format_time env.now) h.meta.annotations) h)
        mark refl (rw lookup-insert kept) r

  cleanup-Settles :
      (timeout : ℤ) (deleted : Option ℕ) (h : ByoHost) (mark : String)
      → annotation host_cleanup_annotation h ≡ some mark
      → (cleanup c env timeout deleted h).reply.error ≡ none
      → Settles timeout h mark (cleanup c env timeout deleted h)
  unfolding cleanup
  cleanup-Settles timeout (some d) h mark kept r =
      finish-Settles timeout (elapsed_over c env timeout d) h h mark refl kept r
  cleanup-Settles timeout none h mark kept r =
      from_annotation-Settles timeout (lookup cleanup_started_at_annotation h.meta.annotations) h
        mark kept r

  handle_marked :
      (timeout : ℤ) (h : ByoHost) (mark : String)
      → annotation host_cleanup_annotation h ≡ some mark
      → handle c env timeout h ≡ cleanup c env timeout h.meta.deletion_timestamp h
  unfolding handle
  handle_marked timeout h mark kept = rw kept refl

  -- A reconcile of a host that carries the cleanup annotation, and that ends without an error,
  -- releases the host or leaves its status and annotation and requeues it after the timeout.
  pub handle-Settles :
      (timeout : ℤ) (h : ByoHost) (mark : String)
      → annotation host_cleanup_annotation h ≡ some mark
      → (handle c env timeout h).reply.error ≡ none
      → Settles timeout h mark (handle c env timeout h)
  handle-Settles timeout h mark kept r =
      let same = handle_marked timeout h mark kept in
      rw same (cleanup-Settles timeout h.meta.deletion_timestamp h mark kept (rw same at r))

-- The host with the start of its cleanup recorded.
stamped : Env → ByoHost → ByoHost
stamped env h =
    with_annotations
      (insert cleanup_started_at_annotation (env.format_time env.now) h.meta.annotations) h

module _ (c : ConditionOps) (laws : ConditionLaws c) (env : Env) (timeout : ℤ) (h : ByoHost)
    (mark : String) (marked : annotation host_cleanup_annotation h ≡ some mark)
    (alive : h.meta.deletion_timestamp ≡ none) where
  first_stamp :
      annotation cleanup_started_at_annotation h ≡ none
      → handle c env timeout h
        ≡ record { host = stamped env h; reply = requeue (pos_part timeout); calls = [] }
  unfolding stamped from_annotation cleanup finish
  first_stamp fresh = handle_marked c laws env timeout h mark marked ∙ rw alive (rw fresh refl)

  force_over :
      (text : String) (start : ℕ)
      → annotation cleanup_started_at_annotation h ≡ some text
      → env.parse_time text ≡ some start
      → ltℤ timeout (sub_ℕ env.now start) ≡ true
      → handle c env timeout h ≡ force_cleanup c env h
  unfolding from_annotation cleanup finish start_over elapsed_over
  force_over text start found parsed over =
      handle_marked c laws env timeout h mark marked
      ∙ rw alive (rw found (rw parsed (rw over refl)))

after_get_no_error :
    (c : ConditionOps) (env : Env) (g : Result {0} (Unit {0})) (h : ByoHost)
    → env.delete_node ≡ none
    → (after_get c env g h).reply.error ≡ none
unfolding after_get after_delete
after_get_no_error c env (ok _) h deleted = rw deleted refl
after_get_no_error c env (err _) h deleted = refl

force_no_error :
    (c : ConditionOps) (env : Env) (h : ByoHost)
    → env.delete_node ≡ none
    → (force_cleanup c env h).reply.error ≡ none
unfolding force_cleanup
force_no_error c env h deleted = after_get_no_error c env env.get_node h deleted

-- A host that is marked for cleanup and not deleted. The first reconcile records the time, and a
-- later one, once more than the timeout has passed since, releases the host unless the deletion of
-- its Node fails: the agent's help is not needed.
pub stamp_then_release :
    (c : ConditionOps) (laws : ConditionLaws c) (env later : Env) (timeout : ℤ) (h : ByoHost)
    (mark : String) (start : ℕ)
    → annotation host_cleanup_annotation h ≡ some mark
    → annotation cleanup_started_at_annotation h ≡ none
    → h.meta.deletion_timestamp ≡ none
    → later.parse_time (env.format_time env.now) ≡ some start
    → ltℤ timeout (sub_ℕ later.now start) ≡ true
    → later.delete_node ≡ none
    → let first = handle c env timeout h in
      let second = handle c later timeout first.host in
      (first.reply ≡ requeue (pos_part timeout)) × (second.reply ≡ done) × IsReleased c second.host
stamp_then_release c laws env later timeout h mark start marked fresh alive parsed over deleted =
    let first = first_stamp c laws env timeout h mark marked alive fresh in
    let second =
      force_over c laws later timeout (stamped env h) mark
        (unfold stamped in (rw lookup-insert marked)) (unfold stamped in alive)
        (env.format_time env.now) start (unfold stamped in (rw lookup-insert refl)) parsed over in
    let released =
      force_cleanup-IsReleased c laws later (stamped env h)
        (force_no_error c later (stamped env h) deleted) in
    rw first (refl, rw second released.1, rw second released.0)
