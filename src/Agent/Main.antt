-- ===== src/Agent/Main.antt =====
-- The agent's `Reconcile` and `reconcileDelete`, around `reconcileNormal`.
use cluster_api_provider_bri.Prelude.{
  ℕ, ◌*◌, String, Bool, false, ◌&&◌, ◌||◌, Option, none, some, if◌then◌else◌,
}
use cluster_api_provider_bri.Prelude.Dict.{lookup}
use cluster_api_provider_bri.Api.Names.{host_cleanup_annotation}
use cluster_api_provider_bri.Api.Meta.{Error, Result, ok, err, Reply, done, fail, second}
use cluster_api_provider_bri.Api.Conditions.{ConditionOps}
use cluster_api_provider_bri.Api.Host.{ByoHost}
use cluster_api_provider_bri.Agent.State.{Agent, Env}
use cluster_api_provider_bri.Agent.Cleanup.{host_clean_up}
use cluster_api_provider_bri.Agent.Reconcile.{Outcome, reconcile_normal}

-- `strings.Contains`, and the text of an error.
pub record Texts : Type 0 where
  pub contains : String → String → Bool
  pub error_text : Error → String

unfoldable pub is_permanent_cleanup_error : Texts → Option Error → Bool
is_permanent_cleanup_error t none = false
is_permanent_cleanup_error t (some e) =
    t.contains (t.error_text e) "connection refused"
    || t.contains (t.error_text e) "no such file or directory"
    || (t.contains (t.error_text e) "kubeadm reset" && t.contains (t.error_text e) "failed")

module _ (t : Texts) (c : ConditionOps) (env : Env) where
  unfoldable pub delete_reply : Option Error → Reply
  unfolding is_permanent_cleanup_error
  delete_reply none = done
  delete_reply (some e) =
      if is_permanent_cleanup_error t (some e)
      then done
      else record { requeue_after = 30 * second; error = some e }

  unfoldable pub reconcile_delete : Agent → Outcome
  unfolding delete_reply host_clean_up
  reconcile_delete s = ((host_clean_up c env s).0, delete_reply (host_clean_up c env s).1)

  abbrev pub reply_of : Option Error → Reply
  reply_of none = done
  reply_of (some e) = fail e

  unfoldable pub dispatch : Option String → Option ℕ → Agent → Outcome
  unfolding host_clean_up reconcile_delete reconcile_normal
  dispatch (some _) deleted s = ((host_clean_up c env s).0, reply_of (host_clean_up c env s).1)
  dispatch none (some _) s = reconcile_delete s
  dispatch none none s = reconcile_normal c env s

  abbrev pub with_patch : Option Error → Outcome → Outcome
  with_patch patch_error (s, reply) =
      (s, elim reply.error [ some _ ↦ reply | none ↦ record reply { error = patch_error } ])

  -- `Reconcile`, with the reply to `Get` of the host; the deferred patch sends the host.
  unfoldable pub reconcile : (ByoHost → Option Error) → Result {0} ByoHost → Agent → Outcome
  unfolding dispatch
  reconcile patch_reply (err e) s = (s, fail e)
  reconcile patch_reply (ok h) s =
      let o =
        dispatch (lookup host_cleanup_annotation h.meta.annotations) h.meta.deletion_timestamp
          (record s { host = h }) in
      with_patch (patch_reply o.0.host) o
