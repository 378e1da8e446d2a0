-- ===== src/HostController.antt =====
-- The ByoHost controller: controllers/infrastructure/byohost_controller.go. It forces the cleanup
-- of a host whose agent does not answer. The replies of the API server, the clock and the
-- environment variable are arguments; one reconcile reads the clock once.
pub mod Timeout
pub mod Cleanup
pub mod Audit
use cluster_api_provider_bri.Prelude.{
  ℕ, ◌*◌, ◌/◌, ℤ, pos, negsuc, ◌+ℤ◌, ◌-ℤ◌, ◌*ℤ◌, ltℤ, int64, sub_ℕ, pos_part, neg_part, suc,
  Ordering, String, ◌<>◌, Bool, true, false, not, ◌&&◌, Option, none, some, List, [], ◌∷◌, str_eq,
  if◌then◌else◌, is_some, ◌++◌,
}
use cluster_api_provider_bri.Prelude.Dict.{Dict, lookup, insert, erase}
use cluster_api_provider_bri.Api.Names.{
  host_cleanup_annotation, cleanup_started_at_annotation, force_cleanup_audit_annotation,
  k8s_node_bootstrap_succeeded,
}
use cluster_api_provider_bri.Api.Meta.{
  Error, Result, ok, err, is_not_found, Reply, done, requeue, fail, second, minute,
}
use cluster_api_provider_bri.Api.Conditions.{ConditionOps}
use cluster_api_provider_bri.Api.Quantity.{Quantity, QuantityOps}
use cluster_api_provider_bri.Api.Host.{ByoHost}

abbrev pub default_host_cleanup_timeout : ℤ
default_host_cleanup_timeout = pos (5 * minute)

abbrev pub min_host_cleanup_timeout : ℤ
min_host_cleanup_timeout = pos (2 * minute)

abbrev pub max_host_cleanup_timeout : ℤ
max_host_cleanup_timeout = pos (15 * minute)

-- 16 * 1024 ^ 3 and 8 * 1024 ^ 3
abbrev pub sixteen_gb : ℕ
sixteen_gb = 17179869184

abbrev pub eight_gb : ℕ
eight_gb = 8589934592

-- Go's division, which rounds towards 0.
unfoldable pub quot : ℤ → ℕ → ℤ
quot (pos n) d = pos (n / d)
quot (negsuc n) d = sub_ℕ 0 (suc n / d)

-- `Cmp(…) > 0`
unfoldable pub exceeds : QuantityOps → Quantity → Quantity → Bool
exceeds q a b = elim (q.cmp a b) [ Ordering.gt ↦ true | _ ↦ false ]

module _ (q : QuantityOps) where
  -- 30 seconds for each CPU above 8, in `int64` arithmetic.
  unfoldable pub add_cpu : Option Quantity → ℤ → ℤ
  add_cpu none timeout = timeout
  add_cpu (some cpu) timeout =
      if exceeds q cpu "8"
      then int64 (timeout +ℤ int64 (int64 (int64 (q.value cpu -ℤ pos 8) *ℤ pos 30) *ℤ pos second))
      else timeout

  -- A minute for each 8 GB of memory above 16 GB.
  unfoldable pub add_memory : Option Quantity → ℤ → ℤ
  add_memory none timeout = timeout
  add_memory (some memory) timeout =
      if exceeds q memory "16Gi"
      then int64 (
          timeout +ℤ int64 (quot (int64 (q.value memory -ℤ pos sixteen_gb)) eight_gb *ℤ pos minute))
      else timeout

  unfoldable pub clamp : ℤ → ℤ
  clamp timeout =
      let low =
        if ltℤ timeout min_host_cleanup_timeout then min_host_cleanup_timeout else timeout in
      if ltℤ max_host_cleanup_timeout low then max_host_cleanup_timeout else low

  unfoldable pub raw_timeout : Dict Quantity → ℤ
  unfolding add_cpu add_memory exceeds
  raw_timeout capacity =
      add_memory (lookup "memory" capacity)
        (add_cpu (lookup "cpu" capacity) default_host_cleanup_timeout)

  unfoldable pub capacity_timeout : Dict Quantity → ℤ
  unfolding raw_timeout clamp
  capacity_timeout capacity = clamp (raw_timeout capacity)

  -- `override` is the parsed BYOH_HOST_CLEANUP_TIMEOUT, `none` where it is empty or does not parse.
  unfoldable pub get_cleanup_timeout : Option ℤ → ByoHost → ℤ
  get_cleanup_timeout none host = capacity_timeout host.spec.capacity
  get_cleanup_timeout (some timeout) host =
      if not (ltℤ timeout min_host_cleanup_timeout) && not (ltℤ max_host_cleanup_timeout timeout)
      then timeout
      else capacity_timeout host.spec.capacity

-- What the controller asks for outside: the replies to `Get` and `Delete` of the Node.
pub record Env : Type 0 where
  pub now : ℕ
  pub parse_time : String → Option ℕ
  pub format_time : ℕ → String
  -- The text of the audit entry, which prints the clock, the timeout and the time elapsed.
  pub audit_entry : ℕ → String
  pub get_node : Result {0} (Unit {0})
  pub delete_node : Option Error

pub data Call : Type 0 where
  delete_node : String → Call
  patch : ByoHost → Call

-- The object in memory when the function returns, the result, and the calls that change something.
pub record Outcome : Type 0 where
  pub host : ByoHost
  pub reply : Reply
  pub calls : List Call

abbrev pub with_annotations : Dict String → ByoHost → ByoHost
with_annotations a h = record h { meta = record (h.meta) { annotations = a } }

module _ (c : ConditionOps) (env : Env) where
  -- The end of the forced branch.
  unfoldable pub release : ByoHost → ByoHost
  release h =
      let a = insert force_cleanup_audit_annotation (env.audit_entry env.now) h.meta.annotations in
      let b =
        erase force_cleanup_audit_annotation
          (erase cleanup_started_at_annotation (erase host_cleanup_annotation a)) in
      record h {
        meta = record (h.meta) { annotations = b };
        status = record (h.status) {
          machine_ref = none;
          conditions = c.mark_true k8s_node_bootstrap_succeeded h.status.conditions;
        };
      }

  unfoldable pub after_delete : Option Error → ByoHost → Outcome
  unfolding release
  after_delete none h = record {
    host = release h;
    reply = done;
    calls = delete_node h.meta.name ∷ [];
  }
  after_delete (some e) h =
      if is_not_found e
      then record { host = release h; reply = done; calls = delete_node h.meta.name ∷ [] }
      else record { host = h; reply = fail e; calls = delete_node h.meta.name ∷ [] }

  unfoldable pub after_get : Result {0} (Unit {0}) → ByoHost → Outcome
  unfolding after_delete
  after_get (ok _) h = after_delete env.delete_node h
  after_get (err _) h = record { host = release h; reply = done; calls = [] }

  unfoldable pub force_cleanup : ByoHost → Outcome
  unfolding after_get
  force_cleanup h = after_get env.get_node h

  -- `shouldForceCleanup`, from the deletion timestamp or from the recorded start.
  unfoldable pub elapsed_over : ℤ → ℕ → Bool
  elapsed_over timeout start = ltℤ timeout (sub_ℕ env.now start)

  unfoldable pub start_over : ℤ → Option ℕ → Bool
  start_over timeout none = false
  start_over timeout (some start) = elapsed_over timeout start

  unfoldable pub finish : ℤ → Bool → ByoHost → Outcome
  unfolding force_cleanup
  finish timeout true h = force_cleanup h
  finish timeout false h = record { host = h; reply = requeue (pos_part timeout); calls = [] }

  unfoldable pub from_annotation : ℤ → Option String → ByoHost → Outcome
  unfolding finish start_over elapsed_over
  from_annotation timeout (some text) h =
      finish timeout (start_over timeout (env.parse_time text)) h
  from_annotation timeout none h = finish timeout false (
      with_annotations
        (insert cleanup_started_at_annotation (env.format_time env.now) h.meta.annotations) h)

  unfoldable pub cleanup : ℤ → Option ℕ → ByoHost → Outcome
  unfolding from_annotation finish elapsed_over
  cleanup timeout (some deleted) h = finish timeout (elapsed_over timeout deleted) h
  cleanup timeout none h =
      from_annotation timeout (lookup cleanup_started_at_annotation h.meta.annotations) h

  unfoldable pub handle : ℤ → ByoHost → Outcome
  unfolding cleanup
  handle timeout h =
      if is_some (lookup host_cleanup_annotation h.meta.annotations)
      then cleanup timeout h.meta.deletion_timestamp h
      else record { host = h; reply = done; calls = [] }

  -- The deferred patch: its error is returned where there is no other.
  unfoldable pub deferred_patch : (ByoHost → Option Error) → Outcome → Outcome
  deferred_patch patch_reply o = record o {
    calls = o.calls ++ (patch o.host ∷ []);
    reply = elim o.reply.error [
      | some e ↦ o.reply
      | none ↦ record (o.reply) { error = patch_reply o.host }
    ];
  }

  -- `Reconcile`, of the reply to `Get`: what is returned, and the calls that change something.
  unfoldable pub reconcile :
      QuantityOps → Option ℤ → (ByoHost → Option Error) → Result {0} ByoHost → Reply × List Call
  unfolding handle deferred_patch
  reconcile q override patch_reply (err e) = (if is_not_found e then done else fail e, [])
  reconcile q override patch_reply (ok h) =
      let o = deferred_patch patch_reply (handle (get_cleanup_timeout q override h) h) in
      (o.reply, o.calls)
