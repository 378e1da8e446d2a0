-- ===== src/Agent/Install/Retries.antt =====
-- The attempts of the install script.
use cluster_api_provider_bri.Prelude.{
  ◌≡◌, ◌↔◌, ◌⊎◌, refl, ap, ◌∙◌, String, Option, none, some, arith,
}
use cluster_api_provider_bri.Api.Meta.{Error, ok}
use cluster_api_provider_bri.Api.Conditions.{ConditionOps}
use cluster_api_provider_bri.Agent.State.{Agent, Env, parse_script}
use cluster_api_provider_bri.Agent.Install.{
  run_script, run_checked, run_installer, install_from, note_failure, with_uninstall,
  execute_installer_controller,
}

module _ (c : ConditionOps) (env : Env) where
  noted : (e : Option Error) (s : Agent) → (note_failure c env e s).1 ≡ e
  noted none s = refl
  noted (some e) s = refl

  run_checked_lem :
      (script : String) (s : Agent)
      → ((run_checked c env none script s).1 ≡ none)
        ↔ ((env.run_install 0 ≡ none) ⊎ (env.run_install 1 ≡ none) ⊎ (env.run_install 2 ≡ none))
  unfolding run_checked run_script
  run_checked_lem script s = ground arith

  given_scripts :
      (s : Agent) (install uninstall script : String)
      → env.installation_scripts ≡ ok (install, uninstall)
      → parse_script env install s.host.meta.name ≡ ok script
      → execute_installer_controller c env s
        ≡ run_checked c env none script (with_uninstall uninstall s)
  unfolding execute_installer_controller install_from run_installer
  given_scripts s install uninstall script given parsed =
      ap (λ r. install_from c env r s) given
      ∙ ap (λ r. run_installer c env r (with_uninstall uninstall s)) parsed

  -- With the scripts of the installation secret read and the install script parsed,
  -- `executeInstallerController` succeeds exactly when one of three runs of the script does.
  pub execute_ok_iff :
      (s : Agent) (install uninstall script : String)
      → env.installation_scripts ≡ ok (install, uninstall)
      → parse_script env install s.host.meta.name ≡ ok script
      → ((execute_installer_controller c env s).1 ≡ none)
        ↔ ((env.run_install 0 ≡ none) ⊎ (env.run_install 1 ≡ none) ⊎ (env.run_install 2 ≡ none))
  execute_ok_iff s install uninstall script given parsed =
      rw (given_scripts s install uninstall script given parsed)
        (run_checked_lem script (with_uninstall uninstall s))
