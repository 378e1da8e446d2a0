-- ===== src/Installer/Creation.antt =====
-- The choice of an installer: installer/installer.go and installer/bundle_downloader.go. The scripts
-- that the installers write are texts of the package algo.
use Prim.Native.Char.{Char, code}
use cluster_api_provider_bri.Prelude.{
  ℕ, ◌==◌, String, ◌<>◌, Bool, none, some, List, [], ◌∷◌, if◌then◌else◌, str_eq, contains,
}
use cluster_api_provider_bri.Prelude.Dict.{Dict, lookup}
use cluster_api_provider_bri.Api.Meta.{failed, Result, ok, err}
use cluster_api_provider_bri.Installer.{list_k8s, resolve_os_to_os_bundle}
use cluster_api_provider_bri.Installer.Supported.{get_supported_registry}

-- The installers of the package algo, with what each is made from.
pub data Choice : Type 0 where
  ubuntu_24_04 ubuntu_22_04 ubuntu_20_04 : String → String → String → Choice
  kubexm : String → String → String → String → Dict String → Choice

pub record BundleDownloader : Type 0 where
  pub bundle_type : String
  pub repo_addr : String
  pub download_path : String

-- `strings.ReplaceAll` of a character by another
unfoldable pub replace_all : ℕ → Char → String → String
replace_all from to String.[] = ""
replace_all from to (String.◌∷◌ c s) =
    String.◌∷◌ (if code c == from then to else c) (replace_all from to s)

abbrev pub arch_old_name_map : Dict String
arch_old_name_map = ("amd64", "x86-64") ∷ ("arm64", "aarch64") ∷ []

unfoldable pub bundle_arch_name : String → String
unfolding lookup
bundle_arch_name arch = elim (lookup arch arch_old_name_map) [ none ↦ arch | some old ↦ old ]

-- The name of the system with its architecture.
unfoldable pub os_arch : String → String → String
unfolding replace_all bundle_arch_name
os_arch os arch = replace_all b' ' "_" os <> ("_" <> bundle_arch_name arch)

-- `strings.ToLower` and `regexp.MatchString`
module _ (to_lower : String → String) (match_string : String → String → Bool) where
  -- `GetBundleName`
  unfoldable pub get_bundle_name : String → String
  get_bundle_name os = to_lower ("byoh-bundle-" <> (os <> "_k8s"))

  -- `GetBundleAddr`
  unfoldable pub get_bundle_addr : BundleDownloader → String → String → String
  unfolding get_bundle_name
  get_bundle_addr d os version =
      if str_eq d.repo_addr "online"
      then "online"
      else d.repo_addr <> ("/" <> (get_bundle_name os <> (":" <> version)))

  unfoldable pub choose : String → String → String → String → Choice
  choose bundle arch addrs version =
      if contains bundle "Ubuntu_24.04"
      then ubuntu_24_04 arch addrs version
      else (if contains bundle "Ubuntu_22.04"
          then ubuntu_22_04 arch addrs version
          else ubuntu_20_04 arch addrs version)

  unfoldable pub installer_for :
      List String → String → String → String → BundleDownloader → Result {0} Choice
  unfolding choose get_bundle_addr
  installer_for [] os arch version d = err (failed "No k8s support for OS")
  installer_for (_ ∷ _) os arch version d =
      let bundle = resolve_os_to_os_bundle match_string get_supported_registry os in
      ok (choose bundle arch (get_bundle_addr d bundle version) version)

  -- `NewInstaller`
  unfoldable pub new_installer : String → String → String → BundleDownloader → Result {0} Choice
  unfolding installer_for os_arch
  new_installer os arch version d =
      installer_for (list_k8s match_string get_supported_registry (os_arch os arch))
        (os_arch os arch) arch version d

  abbrev bundle_of : List String → BundleDownloader → String → String → String → String
  bundle_of [] d os version other = other
  bundle_of (_ ∷ _) d os version other =
      get_bundle_addr d (resolve_os_to_os_bundle match_string get_supported_registry os) version

  -- The address of the bundle; offline, that of Ubuntu 20.04 where the system is unknown.
  unfoldable pub kubexm_addrs : String → String → String → String → BundleDownloader → String
  unfolding get_bundle_addr os_arch bundle_arch_name
  kubexm_addrs os arch version mode d =
      let standard = "Ubuntu_20.04" <> ("_" <> bundle_arch_name arch) in
      bundle_of (list_k8s match_string get_supported_registry (os_arch os arch)) d (os_arch os arch)
        version
        (if str_eq mode "offline"
          then bundle_of (list_k8s match_string get_supported_registry standard) d standard version
              ""
          else "")

  -- `NewKubexmInstaller`
  unfoldable pub new_kubexm_installer :
      String → String → String → String → Dict String → BundleDownloader → Choice
  unfolding kubexm_addrs
  new_kubexm_installer os arch version mode proxy d =
      kubexm arch (kubexm_addrs os arch version mode d) version mode proxy
