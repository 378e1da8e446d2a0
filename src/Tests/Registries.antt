-- ===== src/Tests/Registries.antt =====
-- The registry of the installers tried on the supported systems.
use cluster_api_provider_bri.Prelude.{
  ◌≡◌, refl, ◌⊎◌, String, Bool, true, ◌&&◌, ◌||◌, [], ◌∷◌, str_eq, is_some, In,
}
use cluster_api_provider_bri.Prelude.Dict.{lookup, insert}
use cluster_api_provider_bri.Installer.{
  Registry, new_registry, with_bundle, add_bundle_installer, add_os_filter, add_k8s_filter,
  resolve_in, resolve_os_to_os_bundle, list_found, list_k8s,
}
use cluster_api_provider_bri.Installer.Supported.{
  add_bundles, add_k8s_filters, add_ubuntu_20, add_ubuntu_22_24, add_ubuntu_arm,
  get_supported_registry,
}
use cluster_api_provider_bri.Installer.Lists.{
  supports, add_bundle_installer-supports, list_k8s-supports,
}

-- Every filter matches every name.
abbrev matches : String → String → Bool
matches filter name = true

listed_20 :
    list_k8s matches get_supported_registry "Ubuntu_20.04.6_x86-64"
    ≡ "v1.24.*" ∷ "v1.25.*" ∷ "v1.26.*" ∷ []
unfolding get_supported_registry add_ubuntu_20 add_ubuntu_22_24 add_ubuntu_arm add_bundles
    add_k8s_filters add_k8s_filter add_os_filter add_bundle_installer with_bundle list_k8s
    list_found resolve_os_to_os_bundle resolve_in lookup insert
listed_20 = refl

abbrev one_bundle : Registry
one_bundle = record new_registry {
  installers = ("bundle", ("v1.26.*", tt) ∷ []) ∷ [];
  os_filters = ("Ubuntu", "bundle") ∷ [];
}

add_bundle_installer-supports_example :
    (supports "bundle" "v1.26.*" (add_bundle_installer "other" "v1.27.*" one_bundle).0 ≡ (
      (str_eq "other" "bundle" && str_eq "v1.27.*" "v1.26.*")
      || supports "bundle" "v1.26.*" one_bundle))
    × (is_some (add_bundle_installer "other" "v1.27.*" one_bundle).1
        ≡ supports "other" "v1.27.*" one_bundle)
add_bundle_installer-supports_example =
    add_bundle_installer-supports "other" "v1.27.*" one_bundle "bundle" "v1.26.*"

is_listed : In "v1.26.*" (list_k8s matches one_bundle "host")
unfolding list_k8s list_found resolve_os_to_os_bundle resolve_in lookup
is_listed = (0, refl)

list_k8s-supports_example :
    (supports "host" "v1.26.*" one_bundle ≡ true)
    ⊎ (supports (resolve_os_to_os_bundle matches one_bundle "host") "v1.26.*" one_bundle ≡ true)
list_k8s-supports_example = list_k8s-supports matches one_bundle "host" "v1.26.*" is_listed
