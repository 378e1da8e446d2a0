-- ===== src/Agent/Registration.antt =====
-- agent/registration/host_registrar.go, the registration of the host at the start of the agent. A patch
-- helper, which fails only on an object that cannot be converted, is taken to be made.
pub mod Restart
use Prim.Native.Char.{code}
use Prim.Native.String.{len}
use cluster_api_provider_bri.Prelude.{
  ℕ, zero, suc, ◌-◌, ◌==◌, String, Bool, true, false, Option, none, some, List, [], ◌∷◌, ◌++◌,
  if◌then◌else◌, str_eq, starts_with, trim,
}
use cluster_api_provider_bri.Prelude.Dict.{Dict, lookup, erase}
use cluster_api_provider_bri.Api.Meta.{Error, failed, Result, ok, err, is_not_found, ObjectMeta}
use cluster_api_provider_bri.Api.Names.{force_cleanup_audit_annotation}
use cluster_api_provider_bri.Api.Quantity.{Quantity}
use cluster_api_provider_bri.Api.Host.{
  ByoHost, ByoHostSpec, ByoHostStatus, HostInfo, NetworkStatus, JoinMode, DownloadMode,
}

-- An address: the text of its IP, and its own text.
pub record Addr : Type 0 where
  pub ip : String
  pub text : String

pub record Interface : Type 0 where
  pub name : String
  pub is_up : Bool
  pub hardware_addr : String
  pub addrs : Result {0} (List Addr)

-- The calls over the state `S` of the world outside; `goarch` and `goos` are of the build.
pub record RegistrarServer (S : Type 0) : Type 0 where
  pub get_host : String → String → S → S × Result {0} ByoHost
  -- the object as the API server has stored it
  pub create_host : ByoHost → S → S × Result {0} ByoHost
  pub patch : ByoHost → ByoHost → S → S × Option Error
  pub discover_interface : S → S × Result {0} String
  pub interfaces : S → S × Result {0} (List Interface)
  pub read_file : String → S → S × Result {0} String
  -- the second group of the first match of (PRETTY_NAME)=(.*)
  pub pretty_name : String → Option String
  pub goarch : String
  pub goos : String

-- `strings.ReplaceAll(s, p, "")`; the number counts the characters of an occurrence still to skip.
unfoldable pub remove_from : String → ℕ → String → String
remove_from p n String.[] = ""
remove_from p (suc n) (String.◌∷◌ c s) = remove_from p n s
remove_from p zero (String.◌∷◌ c s) =
    let skipped = remove_from p (len p - 1) s in
    let kept = remove_from p zero s in
    if starts_with (String.◌∷◌ c s) p then skipped else String.◌∷◌ c kept

unfoldable pub image_name : Option String → String
unfolding remove_from trim
image_name none = "Unknown"
image_name (some name) = remove_from " LTS" 0 (trim (λ c. code c == b'"') name)

unfoldable pub new_host : String → String → Dict String → Dict Quantity → ByoHost
new_host name namespace labels capacity = record {
  meta = record {
    name = name;
    namespace = namespace;
    uid = "";
    labels = labels;
    annotations = [];
    finalizers = [];
    deletion_timestamp = none;
  };
  spec = record {
    bootstrap_secret = none;
    installation_secret = none;
    uninstallation_script = none;
    join_mode = JoinMode.unset;
    download_mode = DownloadMode.unset;
    kubernetes_version = "";
    manage_kube_proxy = false;
    capacity = capacity;
    labels = [];
    taints = [];
    priority = none;
  };
  status = record {
    machine_ref = none;
    conditions = [];
    host_details = record { os_name = ""; os_image = ""; architecture = "" };
    network = [];
  };
}

abbrev addr_texts : List Addr → List String
addr_texts [] = []
addr_texts (x ∷ xs) = x.text ∷ addr_texts xs

abbrev has_ip : String → List Addr → Bool
has_ip ip [] = false
has_ip ip (x ∷ xs) = if str_eq x.ip ip then true else has_ip ip xs

abbrev pub network_of : String → Interface → List Addr → NetworkStatus
network_of ip i addrs = record {
  connected = i.is_up;
  ip_addrs = addr_texts addrs;
  mac_addr = i.hardware_addr;
  network_interface_name = i.name;
  is_default = has_ip ip addrs;
}

abbrev add_network : NetworkStatus → List NetworkStatus × String → List NetworkStatus × String
add_network n (l, name) = (n ∷ l, name)

-- The interfaces whose addresses are read, and the name of the default one, which starts as it was.
unfoldable pub networks : String → List Interface → String → List NetworkStatus × String
networks ip [] name = ([], name)
networks ip (i ∷ is) name = elim i.addrs [
  | err _ ↦ networks ip is name
  | ok addrs ↦
      add_network (network_of ip i addrs)
        (networks ip is (if has_ip ip addrs then i.name else name))
]

module _ {S : Type 0} (a : RegistrarServer S) where
  -- The state, the name of the default interface, the host in memory, and an error.
  pub data Registered : Type 0 where
    unknown : S → String → Error → Registered
    registered : S → String → ByoHost → Option Error → Registered

  -- `GetNetworkStatus`, with the name of the default interface.
  abbrev listed_networks :
      String → String → S × Result {0} (List Interface) → S × List NetworkStatus × String
  listed_networks ip name (s, err _) = (s, [], name)
  listed_networks ip name (s, ok is) = (s, (networks ip is name).0, (networks ip is name).1)

  unfoldable pub gateway_found : String → S × Result {0} String → S × List NetworkStatus × String
  unfolding networks
  gateway_found name (s, err _) = (s, [], name)
  gateway_found name (s, ok ip) = listed_networks ip name (a.interfaces s)

  unfoldable pub get_network_status : String → S → S × List NetworkStatus × String
  unfolding gateway_found
  get_network_status name s = gateway_found name (a.discover_interface s)

  abbrev release_text : S × Result {0} String → S × Result {0} String
  release_text (s, ok text) = (s, ok text)
  release_text (s, err e) =
      if is_not_found e then a.read_file "/usr/lib/os-release" s else (s, err e)

  abbrev image_of : S × Result {0} String → S × Result {0} String
  image_of (s, err _) = (s, err (failed "error opening file"))
  image_of (s, ok text) = (s, ok (image_name (a.pretty_name text)))

  -- `getOperatingSystem`
  unfoldable pub get_operating_system : S → S × Result {0} String
  unfolding image_name
  get_operating_system s = image_of (release_text (a.read_file "/etc/os-release" s))

  abbrev info_with : String → HostInfo
  info_with image = record { os_name = a.goos; os_image = image; architecture = a.goarch }

  abbrev info_of : S × Result {0} String → S × HostInfo × Option Error
  info_of (s, err e) = (s, info_with "", some e)
  info_of (s, ok image) = (s, info_with image, none)

  -- `getHostInfo`
  unfoldable pub get_host_info : S → S × HostInfo × Option Error
  unfolding get_operating_system
  get_host_info s = info_of (get_operating_system s)

  abbrev pub with_status : List NetworkStatus → HostInfo → ByoHost → ByoHost
  with_status l i h = record h { status = record (h.status) { network = l; host_details = i } }

  unfoldable pub details_found :
      ByoHost → List NetworkStatus → String → S × HostInfo × Option Error → Registered
  details_found h l name (s, i, some e) = registered s name (with_status l i h) (some e)
  details_found h l name (s, i, none) =
      registered (a.patch h (with_status l i h) s).0 name (with_status l i h)
        (a.patch h (with_status l i h) s).1

  -- `UpdateHost`
  unfoldable pub update_host : String → ByoHost → S → Registered
  unfolding details_found get_network_status get_host_info
  update_host name h s =
      let r = get_network_status name s in details_found h r.1 r.2 (get_host_info r.0)

  abbrev pub without_audit : ByoHost → ByoHost
  without_audit h = record h {
    meta = record (h.meta) {
      annotations = erase force_cleanup_audit_annotation h.meta.annotations;
    };
  }

  unfoldable pub audit_found : Option String → ByoHost → S → S × ByoHost
  unfolding erase
  audit_found none h s = (s, h)
  audit_found (some _) h s = ((a.patch h (without_audit h) s).0, without_audit h)

  -- `checkAndCleanupAfterForce`, whose cleanup only logs; its error is logged too.
  unfoldable pub check_after_force : ByoHost → S → S × ByoHost
  unfolding audit_found lookup
  check_after_force h s = audit_found (lookup force_cleanup_audit_annotation h.meta.annotations) h s

  abbrev pub with_capacity : Dict Quantity → ByoHost → ByoHost
  with_capacity capacity h = record h { spec = record (h.spec) { capacity = capacity } }

  -- A host that is there gets its capacity; a failed patch is logged.
  unfoldable pub update_capacity : Dict Quantity → S × ByoHost → S × ByoHost
  update_capacity capacity (s, h) =
      ((a.patch h (with_capacity capacity h) s).0, with_capacity capacity h)

  abbrev update_at : String → S × ByoHost → Registered
  update_at name (s, h) = update_host name h s

  unfoldable pub host_created : String → S × Result {0} ByoHost → Registered
  unfolding update_host
  host_created name (s, err e) = unknown s name e
  host_created name (s, ok h) = update_host name h s

  unfoldable pub host_found : String → ByoHost → Dict Quantity → S × Result {0} ByoHost → Registered
  unfolding host_created update_host update_capacity check_after_force
  host_found name new capacity (s, err e) =
      if is_not_found e then host_created name (a.create_host new s) else unknown s name e
  host_found name new capacity (s, ok h) =
      update_at name (update_capacity capacity (check_after_force h s))

  -- `Register`, of the registrar's name of the default interface.
  unfoldable pub register : String → String → String → Dict String → Dict Quantity → S → Registered
  unfolding host_found new_host
  register interface name namespace labels capacity s =
      host_found interface (new_host name namespace labels capacity) capacity
        (a.get_host name namespace s)
