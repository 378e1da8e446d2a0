-- ===== src/MachineController/Provision.antt =====
-- The Node of a host that has been attached: `updateNodeProviderID`, `setNodeProviderID` and
-- `convertNetworkToAddresses` of controllers/infrastructure/byomachine_controller.go, and
-- `ValidateProviderID` of common/utils.go.
pub mod Recorded
use cluster_api_provider_bri.Prelude.{
  String, ◌<>◌, Bool, true, false, Option, none, some, List, [], ◌∷◌, ◌++◌, map, str_eq,
  if◌then◌else◌,
}
use cluster_api_provider_bri.Api.Names.{byo_host_ready, waiting_for_node_ref}
use cluster_api_provider_bri.Api.Meta.{
  ObjectReference, Error, failed, Result, ok, err, is_not_found, done, requeue, fail,
}
use cluster_api_provider_bri.Api.Conditions.{ConditionOps, severity_info}
use cluster_api_provider_bri.Api.Host.{ByoHost, NetworkStatus}
use cluster_api_provider_bri.Api.Machine.{ByoMachine, MachineAddress}
use cluster_api_provider_bri.Agent.Tls.{generate_provider_id}
use cluster_api_provider_bri.MachineController.Server.{
  Server, Scope, World, Node, Ended, returned, on_server, set_byo_machine, requeue_for_byohost,
}

abbrev pub external_ip : String → MachineAddress
external_ip ip = record { kind = "ExternalIP"; address = ip }

-- `convertNetworkToAddresses`
unfoldable pub convert_network_to_addresses : List NetworkStatus → List MachineAddress
convert_network_to_addresses [] = []
convert_network_to_addresses (n ∷ network) =
    map external_ip n.ip_addrs ++ convert_network_to_addresses network

abbrev pub or_else : {A : Type 0} → List A → List A → List A
or_else [] other = other
or_else (x ∷ xs) other = x ∷ xs

-- `conditions.MarkFalse(…, BYOHostReady, reason, Info, "")`
unfoldable pub mark_waiting : ConditionOps → String → Scope → Scope
mark_waiting c reason p =
    set_byo_machine
      (record (p.byo_machine) {
        status = record (p.byo_machine.status) {
          conditions =
              c.mark_false byo_host_ready reason severity_info p.byo_machine.status.conditions;
        };
      })
      p

-- What a machine records of its Node.
unfoldable pub provisioned : ConditionOps → String → Node → ByoHost → ByoMachine → ByoMachine
unfolding convert_network_to_addresses
provisioned c id node h m = record m {
  spec = record (m.spec) { provider_id = id };
  status = record (m.status) {
    ready = true;
    node_ref =
        some (record {
          api_version = "v1";
          kind = "Node";
          namespace = "";
          name = node.name;
          uid = "";
        });
    addresses = or_else m.status.addresses (convert_network_to_addresses h.status.network);
    conditions = c.mark_true byo_host_ready m.status.conditions;
  };
}

module _ {S : Type 0} (a : Server S) where
  -- `common.ValidateProviderID`
  unfoldable pub validate_provider_id : String → String → Result {0} Bool
  validate_provider_id id hostname =
      if str_eq id ""
      then err (failed "providerID is empty")
      else a.match_string ("^byoh://" <> (hostname <> "(/(.+))?$")) id

  unfoldable pub validated : Node → S → Result {0} Bool → S × Result {0} (String × Node)
  validated node s (err e) = (s, err (failed "failed to validate providerID"))
  validated node s (ok match) =
      if match
      then (s, ok (node.provider_id, node))
      else (s, err (failed "invalid format for node.Spec.ProviderID"))

  unfoldable pub patch_id : Node → String → S → S × Result {0} (String × Node)
  patch_id node id s =
      let r = a.patch_node node (record node { provider_id = id }) s in
      (r.0, elim r.1 [ none ↦ ok (id, record node { provider_id = id }) | some e ↦ err e ])

  unfoldable pub node_found : ByoHost → S × Result {0} Node → S × Result {0} (String × Node)
  unfolding validated patch_id validate_provider_id generate_provider_id
  node_found h (s, err e) = (s, err e)
  node_found h (s, ok node) =
      if str_eq node.provider_id ""
      then patch_id node (generate_provider_id h.meta.name) s
      else validated node s (validate_provider_id node.provider_id h.meta.name)

  -- `setNodeProviderID`
  unfoldable pub set_node_provider_id : ByoHost → S → S × Result {0} (String × Node)
  unfolding node_found
  set_node_provider_id h s = node_found h (a.get_node h.meta.name h.meta.namespace s)

  module _ (c : ConditionOps) where
    unfoldable pub record_node :
        Scope → ByoHost → World S → S × Result {0} (String × Node) → Ended S
    unfolding mark_waiting provisioned
    record_node p h w (s, err e) =
        if is_not_found e
        then returned (on_server s w) (mark_waiting c waiting_for_node_ref p)
            (requeue requeue_for_byohost)
        else returned (on_server s w) p (fail e)
    record_node p h w (s, ok found) =
        returned (on_server s w) (set_byo_machine (provisioned c found.0 found.1 h p.byo_machine) p)
          done

    unfoldable pub with_client : Scope → ByoHost → World S → S × Option Error → Ended S
    unfolding record_node set_node_provider_id
    with_client p h w (s, some e) = returned (on_server s w) p (fail e)
    with_client p h w (s, none) = record_node p h w (set_node_provider_id h s)

    -- `updateNodeProviderID`
    unfoldable pub update_node_provider_id : Scope → ByoHost → World S → Ended S
    unfolding with_client
    update_node_provider_id p h w = with_client p h w (a.get_remote_client w.server)
