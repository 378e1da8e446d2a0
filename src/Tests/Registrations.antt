-- ===== src/Tests/Registrations.antt =====
-- An agent that starts again on a host with a machine; the state counts the patches.
use cluster_api_provider_bri.Prelude.{ℕ, suc, ◌≡◌, refl, true, none, some, [], ◌∷◌}
use cluster_api_provider_bri.Prelude.Dict.{lookup, erase}
use cluster_api_provider_bri.Api.Meta.{ok}
use cluster_api_provider_bri.Api.Names.{force_cleanup_audit_annotation}
use cluster_api_provider_bri.Api.Host.{ByoHost}
use cluster_api_provider_bri.Agent.Registration.{
  RegistrarServer, registered, register, with_status, with_capacity,
}
use cluster_api_provider_bri.Agent.Registration.Restart.{IsKept, register-IsKept}
use cluster_api_provider_bri.Tests.{host_with, machine_reference}

abbrev claimed : ByoHost
claimed =
    host_with "a" (("site", "apac") ∷ []) ((force_cleanup_audit_annotation, "x") ∷ [])
      (some machine_reference) []

abbrev registrar : RegistrarServer ℕ
registrar = record {
  get_host = λ name namespace s. (s, ok claimed);
  create_host = λ h s. (s, ok h);
  patch = λ before h s. (suc s, none);
  discover_interface = λ s. (s, ok "10.0.0.2");
  interfaces = λ s. (
    s,
    ok (
        record {
          name = "eth0";
          is_up = true;
          hardware_addr = "00:16:3e";
          addrs = ok (record { ip = "10.0.0.2"; text = "10.0.0.2/24" } ∷ []);
        }
        ∷ []),
  );
  read_file = λ path s. (s, ok "");
  pretty_name = λ text. some "\"Ubuntu 22.04.3 LTS\"";
  goarch = "amd64";
  goos = "linux";
}

abbrev kept : ByoHost
kept =
    with_status registrar
      (record {
        connected = true;
        ip_addrs = "10.0.0.2/24" ∷ [];
        mac_addr = "00:16:3e";
        network_interface_name = "eth0";
        is_default = true;
      }
        ∷ [])
      (record { os_name = "linux"; os_image = "Ubuntu 22.04.3"; architecture = "amd64" })
      (with_capacity registrar (("cpu", "4") ∷ [])
        (host_with "a" (("site", "apac") ∷ []) [] (some machine_reference) []))

host_registered :
    register registrar "" "a" "default" [] (("cpu", "4") ∷ []) 0 ≡ registered 3 "eth0" kept none
unfolding register lookup erase
host_registered = refl

register-IsKept_example : IsKept (("cpu", "4") ∷ []) claimed kept
register-IsKept_example =
    register-IsKept registrar "" "a" "default" [] (("cpu", "4") ∷ []) 0 0 3 "eth0" claimed kept none
      refl host_registered
