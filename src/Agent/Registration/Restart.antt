-- ===== src/Agent/Registration/Restart.antt =====
-- A restart of the agent leaves the claim of a host alone.
use mathlib.Core.Path.{subst}
use cluster_api_provider_bri.Prelude.{
  ◌≡◌, refl, sym, ap, ◌∙◌, String, false, Option, none, some, List, if_false, str_eq,
}
use cluster_api_provider_bri.Prelude.Dict.{Dict, lookup, lookup-erase}
use cluster_api_provider_bri.Api.Meta.{Error, ok}
use cluster_api_provider_bri.Api.Names.{force_cleanup_audit_annotation}
use cluster_api_provider_bri.Api.Quantity.{Quantity}
use cluster_api_provider_bri.Api.Host.{ByoHost, NetworkStatus, HostInfo}
use cluster_api_provider_bri.Agent.Registration.{
  RegistrarServer, Registered, unknown, registered, details_found, update_host, audit_found,
  check_after_force, with_capacity, update_capacity, host_found, register, new_host,
  get_network_status, get_host_info,
}

-- The host `g` is the host `h` with a capacity, and with what is read from the machine; of the
-- annotations only that of a forced cleanup may be gone.
pub record IsKept (capacity : Dict Quantity) (h g : ByoHost) : Type 0 where
  pub machine_ref : g.status.machine_ref ≡ h.status.machine_ref
  pub conditions : g.status.conditions ≡ h.status.conditions
  pub labels : g.meta.labels ≡ h.meta.labels
  pub finalizers : g.meta.finalizers ≡ h.meta.finalizers
  pub spec : g.spec ≡ record (h.spec) { capacity = capacity }
  pub annotations :
      (k : String)
      → str_eq force_cleanup_audit_annotation k ≡ false
      → lookup k g.meta.annotations ≡ lookup k h.meta.annotations

module _ {S : Type 0} (a : RegistrarServer S) (capacity : Dict Quantity) where
  abbrev Kept : ByoHost → Registered a → Type 0
  Kept h (unknown s name e) = Unit {0}
  Kept h (registered s name g e) = IsKept capacity h g

  details_found-Kept :
      (h g : ByoHost) (l : List NetworkStatus) (name : String) (r : S × HostInfo × Option Error)
      → IsKept capacity h g
      → Kept h (details_found a g l name r)
  unfolding details_found
  details_found-Kept h g l name (s, i, some e) kept = record {
    machine_ref = kept.machine_ref;
    conditions = kept.conditions;
    labels = kept.labels;
    finalizers = kept.finalizers;
    spec = kept.spec;
    annotations = kept.annotations;
  }
  details_found-Kept h g l name (s, i, none) kept = record {
    machine_ref = kept.machine_ref;
    conditions = kept.conditions;
    labels = kept.labels;
    finalizers = kept.finalizers;
    spec = kept.spec;
    annotations = kept.annotations;
  }

  audit_found-IsKept :
      (o : Option String) (h : ByoHost) (s : S)
      → IsKept capacity h (with_capacity a capacity (audit_found a o h s).1)
  unfolding audit_found
  audit_found-IsKept none h s = record {
    machine_ref = refl;
    conditions = refl;
    labels = refl;
    finalizers = refl;
    spec = refl;
    annotations = λ k other. refl;
  }
  audit_found-IsKept (some _) h s = record {
    machine_ref = refl;
    conditions = refl;
    labels = refl;
    finalizers = refl;
    spec = refl;
    annotations = λ k other.
        lookup-erase k force_cleanup_audit_annotation h.meta.annotations
        ∙ if_false none (lookup k h.meta.annotations) other;
  }

  host_found-Kept :
      (interface : String) (new h : ByoHost) (s : S)
      → Kept h (host_found a interface new capacity (s, ok h))
  unfolding host_found update_capacity update_host check_after_force
  host_found-Kept interface new h s =
      let g = with_capacity a capacity (check_after_force a h s).1 in
      let t = (a.patch (check_after_force a h s).1 g (check_after_force a h s).0).0 in
      let r = get_network_status a interface t in
      details_found-Kept h g r.1 r.2 (get_host_info a r.0)
        (audit_found-IsKept (lookup force_cleanup_audit_annotation h.meta.annotations) h s)

-- At a restart of the agent the registration of a host that is there keeps its machine, its conditions,
-- labels and finalizers, its specification but for the capacity, and its annotations but for that of
-- a forced cleanup, whatever fails on the way.
pub register-IsKept :
    {S : Type 0} (a : RegistrarServer S) (interface name namespace : String) (labels : Dict String)
    (capacity : Dict Quantity) (s t u : S) (default : String) (h g : ByoHost) (e : Option Error)
    → a.get_host name namespace s ≡ (t, ok h)
    → register a interface name namespace labels capacity s ≡ registered u default g e
    → IsKept capacity h g
unfolding register
register-IsKept a interface name namespace labels capacity s t u default h g e found ends =
    subst (Kept a capacity h)
      (sym (ap (host_found a interface (new_host name namespace labels capacity) capacity) found)
        ∙ ends)
      (host_found-Kept a capacity interface (new_host name namespace labels capacity) h t)
