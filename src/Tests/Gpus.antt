-- ===== src/Tests/Gpus.antt =====
-- The label of a model with spaces.
use cluster_api_provider_bri.Prelude.{◌≡◌, ◌↔◌, refl}
use cluster_api_provider_bri.Agent.Gpu.{sanitize_label_for_k8s}
use cluster_api_provider_bri.Agent.Gpu.Sanitized.{IsLabelText, sanitize_iff}

made_label : sanitize_label_for_k8s "Tesla T4 (16 GB)" ≡ "Tesla_T4__16_GB"
unfolding sanitize_label_for_k8s
made_label = refl

sanitize_iff_example :
    IsLabelText (sanitize_label_for_k8s "Tesla T4 (16 GB)")
    × ((sanitize_label_for_k8s "Tesla T4 (16 GB)" ≡ "Tesla T4 (16 GB)")
        ↔ IsLabelText "Tesla T4 (16 GB)")
sanitize_iff_example = sanitize_iff "Tesla T4 (16 GB)"
