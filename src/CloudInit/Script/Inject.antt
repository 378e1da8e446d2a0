-- ===== src/CloudInit/Script/Inject.antt =====
-- What is injected into a kubeadm configuration.
use text.Mathlib.TextPositions.{eq_refl}
use cluster_api_provider_bri.Prelude.{
  ◌≡◌, refl, ◌∙◌, inl, inr, String, Bool, true, false, Option, none, some, List, ◌==◌, length,
  str_eq, is_some, if◌then◌else◌, if_true, if_false, Bool-cases, Option-cases,
}
use cluster_api_provider_bri.Prelude.Dict.{Dict, lookup, lookup-insert}
use cluster_api_provider_bri.Api.Host.{Taint}
use cluster_api_provider_bri.Agent.Tls.{generate_provider_id}
use cluster_api_provider_bri.CloudInit.Script.{insert_missing, inject_args}

insert_missing-other :
    (j k v : String) (args : Dict String)
    → str_eq k j ≡ false
    → lookup j (insert_missing k v args) ≡ lookup j args
insert_missing-other j k v args other = elim (Bool-cases (is_some (lookup k args))) [
  | inl there ↦ rw there refl
  | inr missing ↦ rw missing (lookup-insert j k v args ∙ if_false _ _ other)
]

abbrev pub or_default : String → Option String → Option String
or_default v none = some v
or_default v (some w) = some w

insert_missing-same :
    (k v : String) (args : Dict String)
    → lookup k (insert_missing k v args) ≡ or_default v (lookup k args)
insert_missing-same k v args = elim (Option-cases (lookup k args)) [
  | inl missing ↦ rw missing (lookup-insert k k v args ∙ if_true _ _ (eq_refl k))
  | inr found ↦ rw found.1 (rw found.1 refl)
]

unless :
    (j : String) (t : Bool) (a b : Dict String)
    → lookup j b ≡ lookup j a
    → lookup j (if t then a else b) ≡ lookup j a
unless j true a b same = refl
unless j false a b same = same

-- After the injection the kubelet has a provider ID, the one that the script gives and else the
-- host's, whatever the labels and the taints.
pub inject-provider_id :
    (hostname : String) (labels : Dict String) (taints : List Taint) (args : Dict String)
    → lookup "provider-id" (inject_args hostname labels taints args)
      ≡ or_default (generate_provider_id hostname) (lookup "provider-id" args)
unfolding inject_args
inject-provider_id hostname labels taints args =
    unless "provider-id" (length taints == 0) _ _
      (insert_missing-other "provider-id" "register-with-taints" _ _ refl)
    ∙ unless "provider-id" (length labels == 0) _ _
        (insert_missing-other "provider-id" "node-labels" _ _ refl)
    ∙ insert_missing-same "provider-id" (generate_provider_id hostname) args
