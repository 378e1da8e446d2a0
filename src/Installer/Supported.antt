-- ===== src/Installer/Supported.antt =====
-- `GetSupportedRegistry` of installer/registry.go.
use cluster_api_provider_bri.Prelude.{String, List, [], ◌∷◌}
use cluster_api_provider_bri.Installer.{
  Registry, new_registry, add_bundle_installer, add_os_filter, add_k8s_filter,
}

-- `fmt.Sprintf("v1.%d.*", i)` for i from 27 to 35, and from 25.
abbrev pub from_27 : List String
from_27 =
    "v1.27.*" ∷ "v1.28.*" ∷ "v1.29.*" ∷ "v1.30.*" ∷ "v1.31.*" ∷ "v1.32.*" ∷ "v1.33.*" ∷ "v1.34.*"
    ∷ "v1.35.*" ∷ []

abbrev pub from_25 : List String
from_25 = "v1.25.*" ∷ "v1.26.*" ∷ from_27

abbrev pub from_24_to_26 : List String
from_24_to_26 = "v1.24.*" ∷ "v1.25.*" ∷ "v1.26.*" ∷ []

-- `addBundle` of each version; the error of a double is dropped.
unfoldable pub add_bundles : String → List String → Registry → Registry
unfolding add_bundle_installer
add_bundles os [] r = r
add_bundles os (version ∷ versions) r =
    add_bundles os versions (add_bundle_installer os version r).0

unfoldable pub add_k8s_filters : List String → Registry → Registry
unfolding add_k8s_filter
add_k8s_filters [] r = r
add_k8s_filters (filter ∷ filters) r = add_k8s_filters filters (add_k8s_filter filter r)

unfoldable pub add_ubuntu_20 : Registry → Registry
unfolding add_bundles add_k8s_filters add_os_filter
add_ubuntu_20 r = add_os_filter "Ubuntu_20.04.*_aarch64" "Ubuntu_20.04.1_aarch64" (
    add_bundles "Ubuntu_20.04.1_aarch64" from_24_to_26 (
      add_os_filter "Ubuntu_20.04.*_x86-64" "Ubuntu_20.04.1_x86-64"
        (add_k8s_filters from_24_to_26 (add_bundles "Ubuntu_20.04.1_x86-64" from_24_to_26 r))))

unfoldable pub add_ubuntu_22_24 : Registry → Registry
unfolding add_bundles add_k8s_filters add_os_filter
add_ubuntu_22_24 r = add_os_filter "Ubuntu_24.04.*_x86-64" "Ubuntu_24.04.1_x86-64" (
    add_os_filter "Ubuntu_22.04.*_x86-64" "Ubuntu_22.04.1_x86-64" (
      add_k8s_filters from_25 (
        add_bundles "Ubuntu_22.04.1_x86-64" from_25
          (add_k8s_filters from_27 (add_bundles "Ubuntu_24.04.1_x86-64" from_27 r)))))

unfoldable pub add_ubuntu_arm : Registry → Registry
unfolding add_bundles add_os_filter
add_ubuntu_arm r = add_os_filter "Ubuntu_22.04.*_aarch64" "Ubuntu_22.04.1_aarch64" (
    add_bundles "Ubuntu_22.04.1_aarch64" from_25 (
      add_os_filter "Ubuntu_24.04.*_aarch64" "Ubuntu_24.04.1_aarch64"
        (add_bundles "Ubuntu_24.04.1_aarch64" from_27 r)))

unfoldable pub get_supported_registry : Registry
unfolding add_ubuntu_20 add_ubuntu_22_24 add_ubuntu_arm
get_supported_registry = add_ubuntu_arm (add_ubuntu_22_24 (add_ubuntu_20 new_registry))
