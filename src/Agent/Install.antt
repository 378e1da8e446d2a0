-- ===== src/Agent/Install.antt =====
-- `executeInstallerController`: the install script, run up to three times.
pub mod Retries
use cluster_api_provider_bri.Prelude.{
  ℕ, zero, suc, ◌+◌, String, Bool, true, false, Option, none, some, List, [], ◌∷◌, ◌++◌,
}
use cluster_api_provider_bri.Api.Names.{
  k8s_components_installation_succeeded, k8s_components_installation_failed,
}
use cluster_api_provider_bri.Api.Meta.{Error, Result, ok, err}
use cluster_api_provider_bri.Api.Conditions.{ConditionOps, severity_info}
use cluster_api_provider_bri.Agent.State.{
  Agent, Env, Step, act, run_cmd, with_conditions, parse_script,
}

abbrev pub max_retries : ℕ
max_retries = 3

-- The loop, with the rounds left, the number of the attempt and the last error.
unfoldable pub run_script : Env → ℕ → ℕ → String → Option Error → Step
run_script env zero i script last s = (s, last)
run_script env (suc left) i script last s = elim (env.run_install i) [
  | none ↦ (act (run_cmd script ∷ []) s, none)
  | some e ↦ run_script env left (i + 1) script (some e) (act (run_cmd script ∷ []) s)
]

abbrev pub with_uninstall : String → Agent → Agent
with_uninstall script s = record s {
  host = record (s.host) { spec = record (s.host.spec) { uninstallation_script = some script } };
}

-- `preflightChecks`, which only warns.
abbrev pub preflight_checks : Option Error
preflight_checks = none

module _ (c : ConditionOps) (env : Env) where
  -- The condition after the last attempt failed.
  abbrev pub note_failure : Option Error → Step
  note_failure none s = (s, none)
  note_failure (some e) s = (
    with_conditions
        (c.mark_false k8s_components_installation_succeeded k8s_components_installation_failed
          severity_info)
        s,
    some e,
  )

  unfoldable pub run_checked : Option Error → String → Step
  unfolding run_script
  run_checked (some e) script s = (s, some e)
  run_checked none script s =
      note_failure (run_script env max_retries 0 script none s).1
        (run_script env max_retries 0 script none s).0

  unfoldable pub run_installer : Result {0} String → Step
  unfolding run_checked
  run_installer (err e) s = (s, some e)
  run_installer (ok script) s = run_checked preflight_checks script s

  unfoldable pub install_from : Result {0} (String × String) → Step
  unfolding run_installer parse_script
  install_from (err e) s = (s, some e)
  install_from (ok (install, uninstall)) s =
      run_installer (parse_script env install s.host.meta.name) (with_uninstall uninstall s)

  unfoldable pub execute_installer_controller : Step
  unfolding install_from
  execute_installer_controller s = install_from env.installation_scripts s
