-- ===== src/Tokens/Kubeconfigs.antt =====
-- controllers/infrastructure/bootstrapkubeconfig_controller.go. A patch helper, which fails only on an
-- object that cannot be converted, is taken to be made.
pub mod Renewal
use cluster_api_provider_bri.Prelude.{
  ℕ, ◌*◌, String, Bool, true, ◌&&◌, ◌||◌, not, Option, none, some, List, [], ◌∷◌, if◌then◌else◌,
  str_eq,
}
use cluster_api_provider_bri.Api.Meta.{Error, failed, Result, ok, err, is_not_found, minute}
use cluster_api_provider_bri.Tokens.{
  TokenOps, TokenSecret, TokenConfig, BootstrapKubeconfig, generate_secret, generate_kubeconfig,
}

-- The fields that are read of a Machine and of a Cluster; the endpoint with `IsValid` and `String`.
pub record OwnerMachine : Type 0 where
  pub cluster_name : String
  pub config_ref : Option String

pub record OwnerCluster : Type 0 where
  pub endpoint_is_valid : Bool
  pub endpoint : String

-- The calls over the state `S` of the world outside.
pub record TokenServer (S : Type 0) : Type 0 where
  pub now : S → S × ℕ
  pub get_config : String → String → S → S × Result {0} BootstrapKubeconfig
  pub get_machine : String → String → S → S × Result {0} OwnerMachine
  pub get_cluster : String → String → S → S × Result {0} OwnerCluster
  pub patch : BootstrapKubeconfig → BootstrapKubeconfig → S → S × Option Error
  pub generate_token : S → S × Result {0} String
  pub create_secret : TokenSecret → S → S × Option Error
  -- base64, and the codec of a kubeconfig
  pub decode_string : String → Result {0} String
  pub encode_config : TokenConfig → Result {0} String
  pub tokens : TokenOps

-- The name of the first owner that is a Machine; "" where there is none.
unfoldable pub machine_name : List (String × String) → String
machine_name [] = ""
machine_name ((kind, name) ∷ owners) =
    let rest = machine_name owners in if str_eq kind "Machine" then name else rest

abbrev pub set_api_server : String → BootstrapKubeconfig → BootstrapKubeconfig
set_api_server url k = record k { spec = record (k.spec) { api_server = url } }

abbrev pub set_ca : String → BootstrapKubeconfig → BootstrapKubeconfig
set_ca ca k = record k { spec = record (k.spec) { certificate_authority_data = ca } }

unfoldable pub from_cluster : OwnerCluster → BootstrapKubeconfig → BootstrapKubeconfig
from_cluster c k =
    if str_eq k.spec.api_server "" && c.endpoint_is_valid then set_api_server c.endpoint k else k

unfoldable pub from_original : BootstrapKubeconfig → BootstrapKubeconfig → BootstrapKubeconfig
from_original o k =
    let j =
      if str_eq k.spec.certificate_authority_data ""
        && not (str_eq o.spec.certificate_authority_data "")
      then set_ca o.spec.certificate_authority_data k
      else k in
    if str_eq j.spec.api_server "" && not (str_eq o.spec.api_server "")
    then set_api_server o.spec.api_server j
    else j

module _ {S : Type 0} (a : TokenServer S) where
  -- The state, the object in memory, and an error.
  abbrev pub Populated : Type 0
  Populated = S × BootstrapKubeconfig × Option Error

  unfoldable pub patched : BootstrapKubeconfig → BootstrapKubeconfig → S → Populated
  patched before k s = ((a.patch before k s).0, k, (a.patch before k s).1)

  unfoldable pub original_read :
      BootstrapKubeconfig → BootstrapKubeconfig → S × Result {0} BootstrapKubeconfig → Populated
  unfolding patched from_original
  original_read before k (s, err _) = patched before k s
  original_read before k (s, ok o) = patched before (from_original o k) s

  -- The machine's own configuration, unless it is this one.
  unfoldable pub read_original :
      BootstrapKubeconfig → BootstrapKubeconfig → Option String → S → Populated
  unfolding original_read
  read_original before k none s = patched before k s
  read_original before k (some name) s =
      if str_eq name k.name
      then patched before k s
      else original_read before k (a.get_config k.namespace name s)

  unfoldable pub cluster_read :
      BootstrapKubeconfig → OwnerMachine → S × Result {0} OwnerCluster → Populated
  unfolding read_original from_cluster
  cluster_read k m (s, err e) = (s, k, some e)
  cluster_read k m (s, ok c) = read_original k (from_cluster c k) m.config_ref s

  unfoldable pub machine_read : BootstrapKubeconfig → S × Result {0} OwnerMachine → Populated
  unfolding cluster_read
  machine_read k (s, err e) = (s, k, some e)
  machine_read k (s, ok m) =
      if str_eq m.cluster_name ""
      then (s, k, some (failed "Machine has no cluster name"))
      else cluster_read k m (a.get_cluster k.namespace m.cluster_name s)

  -- `populateFromOriginal`
  unfoldable pub populate_from_original : BootstrapKubeconfig → S → Populated
  unfolding machine_read machine_name
  populate_from_original k s =
      if str_eq (machine_name k.owners) ""
      then (s, k, some (failed "no Machine owner found"))
      else machine_read k (a.get_machine k.namespace (machine_name k.owners) s)

  -- What the reconcile returns: `none` for an empty result.
  abbrev pub Outcome : Type 0
  Outcome = S × Option Error

  abbrev pub renewed : String → String → BootstrapKubeconfig → BootstrapKubeconfig
  renewed text secret k = record k {
    status = record (k.status) {
      bootstrap_kubeconfig_data = some text;
      data_secret_name = secret;
      data_secret_created = some true;
    };
  }

  unfoldable pub encoded : BootstrapKubeconfig → TokenSecret → S → Result {0} String → Outcome
  encoded k secret s (err e) = (s, some e)
  encoded k secret s (ok text) = a.patch k (renewed text secret.name k) s

  unfoldable pub decoded :
      BootstrapKubeconfig → TokenSecret → TokenConfig → S → Result {0} String → Outcome
  unfolding encoded
  decoded k secret c s (err e) = (s, some e)
  decoded k secret c s (ok ca) =
      encoded k secret s (a.encode_config (record c { certificate_authority_data = ca }))

  unfoldable pub config_made :
      BootstrapKubeconfig → TokenSecret → S → Result {0} TokenConfig → Outcome
  unfolding decoded
  config_made k secret s (err e) = (s, some e)
  config_made k secret s (ok c) =
      decoded k secret (record c { server = k.spec.api_server }) s
        (a.decode_string c.certificate_authority_data)

  unfoldable pub secret_created :
      BootstrapKubeconfig → String → TokenSecret → S × Option Error → Outcome
  unfolding config_made
  secret_created k token secret (s, some e) = (s, some e)
  secret_created k token secret (s, none) =
      config_made k secret s (generate_kubeconfig a.tokens token k)

  unfoldable pub secret_made : BootstrapKubeconfig → String → S → Result {0} TokenSecret → Outcome
  unfolding secret_created
  secret_made k token s (err e) = (s, some e)
  secret_made k token s (ok secret) = secret_created k token secret (a.create_secret secret s)

  unfoldable pub token_made : BootstrapKubeconfig → S × Result {0} String → Outcome
  unfolding secret_made
  token_made k (s, err e) = (s, some e)
  token_made k (s, ok token) =
      secret_made k token (a.now s).0 (generate_secret a.tokens token (30 * minute) (a.now s).1)

  -- A new token, and what is made from it.
  unfoldable pub renew : BootstrapKubeconfig → S → Outcome
  unfolding token_made
  renew k s = token_made k (a.generate_token s)

  -- Where there is data, the object is populated once more; an error is only logged.
  unfoldable pub with_data : Option String → BootstrapKubeconfig → S → Outcome
  unfolding renew populate_from_original
  with_data none k s = renew k s
  with_data (some _) k s = let r = populate_from_original k s in renew r.1 r.0

  -- Where populating failed, an object without data waits for its owner.
  unfoldable pub not_populated : Option String → BootstrapKubeconfig → S → Outcome
  unfolding with_data
  not_populated none k s = (s, none)
  not_populated (some text) k s = with_data (some text) k s

  unfoldable pub populated : Populated → Outcome
  unfolding with_data not_populated
  populated (s, k, none) = with_data k.status.bootstrap_kubeconfig_data k s
  populated (s, k, some _) = not_populated k.status.bootstrap_kubeconfig_data k s

  unfoldable pub config_found : S × Result {0} BootstrapKubeconfig → Outcome
  unfolding populated with_data
  config_found (s, err e) = if is_not_found e then (s, none) else (s, some e)
  config_found (s, ok k) =
      if str_eq k.spec.api_server "" || str_eq k.spec.certificate_authority_data ""
      then populated (populate_from_original k s)
      else with_data k.status.bootstrap_kubeconfig_data k s

  -- `Reconcile`
  unfoldable pub reconcile : String → String → S → Outcome
  unfolding config_found
  reconcile namespace name s = config_found (a.get_config namespace name s)
