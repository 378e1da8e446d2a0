-- ===== src/Tests/Hosts.antt =====
-- The ByoHost controller tried on a host that waits for its cleanup.
use cluster_api_provider_bri.Prelude.{
  ◌≡◌, refl, ℕ, ◌*◌, ℤ, pos, pos_part, ◌≤ℤ◌, none, some, [], ◌∷◌,
}
use cluster_api_provider_bri.Prelude.Dict.{lookup}
use cluster_api_provider_bri.Api.Names.{
  host_cleanup_annotation, cleanup_started_at_annotation, force_cleanup_audit_annotation,
}
use cluster_api_provider_bri.Api.Meta.{ok, minute, done, requeue}
use cluster_api_provider_bri.Api.Host.{ByoHost}
use cluster_api_provider_bri.HostController.{
  Env, handle, cleanup, from_annotation, finish, get_cleanup_timeout, min_host_cleanup_timeout,
  max_host_cleanup_timeout,
}
use cluster_api_provider_bri.HostController.Timeout.{get_cleanup_timeout_bounds}
use cluster_api_provider_bri.HostController.Audit.{audit_never_written}
use cluster_api_provider_bri.HostController.Cleanup.{
  IsReleased, Settles, annotation, handle-Settles, stamp_then_release,
}
use cluster_api_provider_bri.Tests.{
  listed, listed-Laws, quantities, machine_reference, host_a, host_with,
}

-- Times are written as texts that all parse to 0.
abbrev at_time : ℕ → Env
at_time n = record {
  now = n;
  parse_time = λ text. some 0;
  format_time = λ time. "0";
  audit_entry = λ time. "forced";
  get_node = ok tt;
  delete_node = none;
}

abbrev waiting : ByoHost
waiting = host_with "a" [] ((host_cleanup_annotation, "") ∷ []) (some machine_reference) []

abbrev audited : ByoHost
audited = host_with "a" [] ((force_cleanup_audit_annotation, "e") ∷ []) none []

abbrev five_minutes : ℤ
five_minutes = pos (5 * minute)

is_waiting : annotation host_cleanup_annotation waiting ≡ some ""
unfolding lookup
is_waiting = refl

is_fresh : annotation cleanup_started_at_annotation waiting ≡ none
unfolding lookup
is_fresh = refl

handled : (handle listed (at_time 0) five_minutes waiting).reply.error ≡ none
unfolding handle cleanup from_annotation finish lookup
handled = refl

handle-Settles_example :
    Settles listed listed-Laws
      (at_time 0)
      five_minutes
      waiting
      ""
      (handle listed (at_time 0) five_minutes waiting)
handle-Settles_example =
    handle-Settles listed listed-Laws (at_time 0) five_minutes waiting "" is_waiting handled

keeps_entry :
    annotation force_cleanup_audit_annotation (handle listed (at_time 0) five_minutes audited).host
    ≡ some "e"
unfolding handle lookup
keeps_entry = refl

audit_never_written_example : annotation force_cleanup_audit_annotation audited ≡ some "e"
audit_never_written_example =
    audit_never_written listed listed-Laws (at_time 0) five_minutes audited keeps_entry

stamp_then_release_example :
    let first = handle listed (at_time 0) five_minutes waiting in
    let second = handle listed (at_time (6 * minute)) five_minutes first.host in
    (first.reply ≡ requeue (pos_part five_minutes))
    × (second.reply ≡ done)
    × IsReleased listed second.host
stamp_then_release_example =
    stamp_then_release listed listed-Laws (at_time 0) (at_time (6 * minute)) five_minutes waiting ""
      0 is_waiting is_fresh refl refl refl refl

get_cleanup_timeout_bounds_example :
    (min_host_cleanup_timeout ≤ℤ get_cleanup_timeout quantities (some (pos 1)) host_a)
    × (get_cleanup_timeout quantities (some (pos 1)) host_a ≤ℤ max_host_cleanup_timeout)
get_cleanup_timeout_bounds_example = get_cleanup_timeout_bounds quantities (some (pos 1)) host_a
