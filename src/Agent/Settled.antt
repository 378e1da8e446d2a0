-- ===== src/Agent/Settled.antt =====
-- A host that has been bootstrapped for its machine rests.
use mathlib.Core.Path.{subst}
use mathlib.Core.Option.{some-ne-none}
use text.Mathlib.TextPositions.{eq_refl}
use cluster_api_provider_bri.Prelude.{
  ◌≡◌, refl, sym, ap, ◌∙◌, inl, inr, String, Bool, true, false, not, ◌||◌, Option, none, some, [],
  ◌∷◌, if◌then◌else◌, if_true, if_false, Bool-cases, arith, ◌||◌,
}
use cluster_api_provider_bri.Api.Names.{k8s_node_bootstrap_succeeded}
use cluster_api_provider_bri.Api.Meta.{ObjectReference, Error, Result, ok, err, done, fail}
use cluster_api_provider_bri.Api.Conditions.{ConditionOps, ConditionLaws}
use cluster_api_provider_bri.Agent.State.{
  Agent, Env, act, clean_k8s_directories, bootstrapped, installed,
}
use cluster_api_provider_bri.Agent.Kept.{IsSame, node-IsSame, record_bootstrap-host}
use cluster_api_provider_bri.Agent.Reconcile.{
  Outcome, bootstrap_k8s_node, record_bootstrap, after_bootstrap, clean_and_bootstrap, install,
  bootstrap, is_other_machine, reconcile_bound, reconcile_secret, normal_of, reconcile_normal,
}

module _ (c : ConditionOps) (laws : ConditionLaws c) (env : Env) (ref secret : ObjectReference)
    (trimmed : env.trim_space ref.uid ≡ ref.uid) where
  -- A host that is bootstrapped for its machine.
  pub record IsSettled (s : Agent) : Type 0 where
    pub machine : s.host.status.machine_ref ≡ some ref
    pub given : s.host.spec.bootstrap_secret ≡ some secret
    pub own : is_other_machine c env ref s.machine_id ≡ false
    pub ready : bootstrapped c s.host ≡ true

  bound :
      (s : Agent)
      → s.host.status.machine_ref ≡ some ref
      → s.host.spec.bootstrap_secret ≡ some secret
      → reconcile_normal c env s ≡ reconcile_bound c env ref s
  unfolding reconcile_normal normal_of reconcile_secret
  bound s held given =
      ap (λ r. normal_of c env r s) held ∙ ap (λ b. reconcile_secret c env ref b s) given

  settled_rests : (s : Agent) → IsSettled s → reconcile_normal c env s ≡ (s, done)
  unfolding reconcile_bound
  settled_rests s settled =
      bound s settled.machine settled.given ∙ if_false _ _ settled.own ∙ if_true _ _ settled.ready

  own_file :
      (b : Bool) (m : Option String)
      → is_other_machine c env ref m ≡ false
      → is_other_machine c env ref (if b then some ref.uid else m) ≡ false
  unfolding is_other_machine
  own_file true m own = rw trimmed (ap not (eq_refl ref.uid))
  own_file false m own = own

  Ends : Outcome → Type 0
  Ends r = r.1 ≡ done → IsSettled r.0

  failed-Ends : (s : Agent) (e : Error) → Ends (s, fail e)
  unfolding Ends
  failed-Ends s e ends = absurd (some-ne-none e (ap (λ r. r.error) ends))

  module _ (s : Agent) (machine : s.host.status.machine_ref ≡ some ref)
      (given : s.host.spec.bootstrap_secret ≡ some secret)
      (own : is_other_machine c env ref s.machine_id ≡ false) where
    recorded-Ends : (t : Agent) → IsSame s t → Ends (record_bootstrap c env ref t, done)
    unfolding Ends
    recorded-Ends t kept = λ ends.
        let r = record_bootstrap-host env c ref t in
        record {
          machine =
              ap (λ h. h.status.machine_ref) r.0
              ∙ ap (λ h. h.status.machine_ref) kept.host
              ∙ machine;
          given =
              ap (λ h. h.spec.bootstrap_secret) r.0
              ∙ ap (λ h. h.spec.bootstrap_secret) kept.host
              ∙ given;
          own =
              ap (is_other_machine c env ref) r.1
              ∙ own_file env.machine_id_written t.machine_id
                  (ap (is_other_machine c env ref) kept.machine_id ∙ own);
          ready =
              ap (bootstrapped c) r.0
              ∙ laws.is_true-mark_true k8s_node_bootstrap_succeeded k8s_node_bootstrap_succeeded
                  t.host.status.conditions;
        }

    after_bootstrap-Ends :
        (r : Agent × Option Error)
        → (r.1 ≡ none → IsSame s r.0)
        → Ends (after_bootstrap c env ref r)
    unfolding after_bootstrap
    after_bootstrap-Ends (t, none) kept = recorded-Ends t (kept refl)
    after_bootstrap-Ends (t, some e) kept = failed-Ends _ e

    ready-Ends : bootstrapped c s.host ≡ true → Ends (s, done)
    unfolding Ends
    ready-Ends ready = λ ends. record { machine = machine; given = given; own = own; ready = ready }

    directories-Ends :
        (r : Option Error) (u : Agent) (x : Outcome)
        → Ends x
        → Ends (elim r as (λ y. Outcome) [ some e ↦ (u, fail e) | none ↦ x ])
    directories-Ends none u x ends = ends
    directories-Ends (some e) u x ends = failed-Ends u e

    cleaned-Ends : Ends (clean_and_bootstrap c env ref s)
    unfolding clean_and_bootstrap
    cleaned-Ends =
        let t = act (clean_k8s_directories ∷ []) s in
        directories-Ends env.clean_directories _
          (after_bootstrap c env ref (bootstrap_k8s_node c env t))
          (after_bootstrap-Ends (bootstrap_k8s_node c env t) (λ success.
            let k = node-IsSame env c t success in
            record { host = k.host; machine_id = k.machine_id }))

    bootstrap-Ends :
        (r : Result {0} String) → installed c s.host ≡ true → Ends (bootstrap c env ref r s)
    unfolding bootstrap install
    bootstrap-Ends (err e) there = failed-Ends s e
    bootstrap-Ends (ok text) there =
        subst Ends
          (sym (if_true {b = env.skip_k8s_installation || installed c s.host} _ _ (ground arith)))
          cleaned-Ends

    bound-Ends : installed c s.host ≡ true → Ends (reconcile_bound c env ref s)
    unfolding reconcile_bound
    bound-Ends there =
        subst Ends (sym (if_false _ _ own)) (elim (Bool-cases (bootstrapped c s.host)) [
          | inl ready ↦ subst Ends (sym (if_true _ _ ready)) (ready-Ends ready)
          | inr unready ↦
              subst Ends (sym (if_false _ _ unready)) (bootstrap-Ends env.bootstrap_script there)
        ])

-- A host that has its components installed, and a secret and a file of no other machine: a reconcile
-- that returns nothing but success leaves it bootstrapped for its machine, and the next reconcile
-- changes nothing and does nothing on the machine. The UID of the machine has no white space at its
-- ends.
pub bootstrap_rests :
    (c : ConditionOps)
    → ConditionLaws c
    → (env : Env) (s : Agent) (ref secret : ObjectReference) → env.trim_space ref.uid ≡ ref.uid
    → s.host.status.machine_ref ≡ some ref
    → s.host.spec.bootstrap_secret ≡ some secret
    → is_other_machine c env ref s.machine_id ≡ false
    → installed c s.host ≡ true
    → (reconcile_normal c env s).1 ≡ done
    → let t = (reconcile_normal c env s).0 in
      (bootstrapped c t.host ≡ true) × (reconcile_normal c env t ≡ (t, done))
unfolding Ends
bootstrap_rests c laws env s ref secret trimmed machine given own there success =
    let same = bound c laws env ref secret trimmed s machine given in
    let ends =
      subst (Ends c laws env ref secret trimmed) (sym same)
        (bound-Ends c laws env ref secret trimmed s machine given own there) in
    let settled = ends success in
    (
      settled.ready,
      settled_rests c laws env ref secret trimmed (reconcile_normal c env s).0 settled,
    )
