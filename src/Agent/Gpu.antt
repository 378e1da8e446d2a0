-- ===== src/Agent/Gpu.antt =====
-- agent/gpu.go, the GPUs of a host and the label of their model.
pub mod Sanitized
use Prim.Native.Char.{Char, code}
use cluster_api_provider_bri.Prelude.{
  ℕ, ◌+◌, ◌==◌, String, Bool, true, false, ◌&&◌, ◌||◌, not, Option, none, some, List, [], ◌∷◌,
  length, if◌then◌else◌, str_eq, leb, trim_right,
}

-- A GPU: the name, the mode of its instances, and how many instances it has.
pub record GpuDetail : Type 0 where
  pub product_name : String
  pub current_mig : String
  pub mig_devices : ℕ

pub record GpuInfo : Type 0 where
  pub present : Bool
  pub model : String
  pub count : ℕ

unfoldable pub count_logical_gpus : List GpuDetail → ℕ
count_logical_gpus [] = 0
count_logical_gpus (gpu ∷ gpus) =
    let rest = count_logical_gpus gpus in
    (if str_eq gpu.current_mig "Enabled" then gpu.mig_devices else 1) + rest

unfoldable pub is_valid_label_char : ℕ → Bool
is_valid_label_char r =
    (leb b'A' r && leb r b'Z')
    || (leb b'a' r && leb r b'z')
    || (leb b'0' r && leb r b'9')
    || r == b'-'
    || r == b'_'
    || r == b'.'

abbrev pub is_underscore : Char → Bool
is_underscore c = code c == b'_'

unfoldable pub map_label : String → String
unfolding is_valid_label_char
map_label String.[] = ""
map_label (String.◌∷◌ c s) =
    String.◌∷◌ (if is_valid_label_char (code c) then c else "_") (map_label s)

unfoldable pub sanitize_label_for_k8s : String → String
unfolding map_label trim_right
sanitize_label_for_k8s s = trim_right is_underscore (map_label s)

-- The name of the first GPU that counts.
unfoldable pub get_gpu_model : List GpuDetail → String
unfolding sanitize_label_for_k8s
get_gpu_model [] = "Unknown"
get_gpu_model (gpu ∷ gpus) =
    let rest = get_gpu_model gpus in
    if str_eq gpu.current_mig "Enabled" && gpu.mig_devices == 0
    then rest
    else sanitize_label_for_k8s gpu.product_name

abbrev no_gpu : GpuInfo
no_gpu = record { present = false; model = ""; count = 0 }

-- `GetGPUInfo`, of what nvidia-smi says; `none` where it fails or its text is no XML.
unfoldable pub get_gpu_info : Option (List GpuDetail) → GpuInfo
unfolding count_logical_gpus get_gpu_model
get_gpu_info none = no_gpu
get_gpu_info (some []) = no_gpu
get_gpu_info (some (gpu ∷ gpus)) = record {
  present = true;
  model = get_gpu_model (gpu ∷ gpus);
  count = count_logical_gpus (gpu ∷ gpus);
}
