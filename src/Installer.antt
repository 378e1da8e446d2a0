-- ===== src/Installer.antt =====
-- The registry of the installers: installer/registry.go. The matching of regular expressions is a
-- parameter.
pub mod Lists
pub mod Supported
pub mod Creation
use cluster_api_provider_bri.Prelude.{
  ℕ, zero, suc, ◌+◌, String, ◌<>◌, Bool, Option, none, some, List, [], ◌∷◌, ◌++◌, map, is_some,
  if◌then◌else◌,
}
use cluster_api_provider_bri.Prelude.Dict.{Dict, lookup, insert}
use cluster_api_provider_bri.Api.Meta.{Error, already_exists}

-- `registry`: the versions of each operating system's bundle, the filters of the operating systems
-- with their bundles, and the filters of the versions.
pub record Registry : Type 0 where
  pub installers : Dict (Dict (Unit {0}))
  pub os_filters : List (String × String)
  pub k8s_filters : List String

abbrev pub new_registry : Registry
new_registry = record { installers = []; os_filters = []; k8s_filters = [] }

-- Reading a map that is missing finds nothing.
abbrev pub or_empty : Option (Dict (Unit {0})) → Dict (Unit {0})
or_empty none = []
or_empty (some versions) = versions

unfoldable pub with_bundle : Dict (Dict (Unit {0})) → String → Dict (Dict (Unit {0}))
with_bundle installers os =
    if is_some (lookup os installers) then installers else insert os [] installers

unfoldable pub add_bundle_installer : String → String → Registry → Registry × Option Error
unfolding with_bundle
add_bundle_installer os version r =
    let installers = with_bundle r.installers os in
    let versions = or_empty (lookup os installers) in
    if is_some (lookup version versions)
    then (record r { installers = installers }, some already_exists)
    else (record r { installers = insert os (insert version tt versions) installers }, none)

unfoldable pub add_os_filter : String → String → Registry → Registry
add_os_filter filter bundle r = record r { os_filters = r.os_filters ++ ((filter, bundle) ∷ []) }

unfoldable pub add_k8s_filter : String → Registry → Registry
add_k8s_filter filter r = record r { k8s_filters = r.k8s_filters ++ (filter ∷ []) }

unfoldable pub list_os : Registry → List String × List String
list_os r = (map (λ f. f.0) r.os_filters, map (λ f. f.1) r.os_filters)

module _ (match_string : String → String → Bool) where
  unfoldable pub resolve_in : List (String × String) → String → String
  resolve_in [] os = ""
  resolve_in ((filter, bundle) ∷ filters) os =
      if match_string filter os then bundle else resolve_in filters os

  unfoldable pub resolve_os_to_os_bundle : Registry → String → String
  unfolding resolve_in
  resolve_os_to_os_bundle r os = resolve_in r.os_filters os

  abbrev pub keys : Dict (Unit {0}) → List String
  keys versions = map (λ v. v.0) versions

  -- The versions found under the name, and else those of the bundle that the filters give.
  unfoldable pub list_found : Option (Dict (Unit {0})) → Registry → String → List String
  unfolding resolve_os_to_os_bundle
  list_found (some versions) r os = keys versions
  list_found none r os = keys (or_empty (lookup (resolve_os_to_os_bundle r os) r.installers))

  unfoldable pub list_k8s : Registry → String → List String
  unfolding list_found
  list_k8s r os = list_found (lookup os r.installers) r os
