-- ===== src/MachineController/Provision/Recorded.antt =====
-- What a machine holds once its Node is found.
use mathlib.Core.Option.{some-ne-none}
use cluster_api_provider_bri.Prelude.{
  ◌≡◌, refl, ap, ◌⊎◌, inl, inr, String, Bool, true, false, Option, none, some, str_eq, Bool-cases,
  if_true, if_false, arith,
}
use cluster_api_provider_bri.Api.Names.{byo_host_ready}
use cluster_api_provider_bri.Api.Meta.{ObjectReference, Error, Result, ok, err, done, is_not_found}
use cluster_api_provider_bri.Api.Conditions.{ConditionOps, ConditionLaws}
use cluster_api_provider_bri.Api.Host.{ByoHost}
use cluster_api_provider_bri.Agent.Tls.{generate_provider_id}
use cluster_api_provider_bri.MachineController.Server.{
  Server, Scope, World, Node, Ended, returned, crashed, set_byo_machine,
}
use cluster_api_provider_bri.MachineController.Provision.{
  provisioned, validate_provider_id, validated, patch_id, node_found, set_node_provider_id,
  record_node, with_client, update_node_provider_id,
}

module _ {S : Type 0} (a : Server S) where
  -- A provider ID that the controller accepts for a host: the one it makes, or a text that its
  -- pattern matches.
  abbrev pub Accepted : ByoHost → String → Type 0
  Accepted h id =
      (id ≡ generate_provider_id h.meta.name) ⊎ (validate_provider_id a id h.meta.name ≡ ok true)

  abbrev pub AcceptedResult : ByoHost → Result {0} (String × Node) → Type 0
  AcceptedResult h (ok found) = Accepted h found.0
  AcceptedResult h (err e) = Unit

  patch_id-Accepted :
      (h : ByoHost) (node : Node) (e : S × Option Error)
      → AcceptedResult h (elim e.1 [
        | none ↦ ok (
          generate_provider_id h.meta.name,
          record node { provider_id = generate_provider_id h.meta.name },
        )
        | some e ↦ err e
      ])
  patch_id-Accepted h node (s, none) = inl refl
  patch_id-Accepted h node (s, some e) = tt

  validated-Accepted :
      (h : ByoHost) (node : Node) (s : S) (r : Result {0} Bool)
      → validate_provider_id a node.provider_id h.meta.name ≡ r
      → AcceptedResult h (validated a node s r).1
  unfolding validated
  validated-Accepted h node s (err e) same = tt
  validated-Accepted h node s (ok true) same = inr same
  validated-Accepted h node s (ok false) same = tt

  found_set :
      (h : ByoHost) (node : Node) (s : S)
      → str_eq node.provider_id "" ≡ false
      → node_found a h (s, ok node)
        ≡ validated a node s (validate_provider_id a node.provider_id h.meta.name)
  unfolding node_found
  found_set h node s set = if_false _ _ set

  found_unset :
      (h : ByoHost) (node : Node) (s : S)
      → str_eq node.provider_id "" ≡ true
      → node_found a h (s, ok node) ≡ patch_id a node (generate_provider_id h.meta.name) s
  unfolding node_found
  found_unset h node s unset = if_true _ _ unset

  node_found-Accepted :
      (h : ByoHost) (r : S × Result {0} Node) → AcceptedResult h (node_found a h r).1
  unfolding node_found patch_id
  node_found-Accepted h (s, err e) = tt
  node_found-Accepted h (s, ok node) = elim (Bool-cases (str_eq node.provider_id "")) [
    | inl unset ↦ rw (found_unset h node s unset) (
        patch_id-Accepted h node
          (a.patch_node node (record node { provider_id = generate_provider_id h.meta.name }) s))
    | inr set ↦ rw (found_set h node s set) (validated-Accepted h node s _ refl)
  ]

  pub set_node-Accepted : (h : ByoHost) (s : S) → AcceptedResult h (set_node_provider_id a h s).1
  unfolding set_node_provider_id
  set_node-Accepted h s = node_found-Accepted h (a.get_node h.meta.name h.meta.namespace s)

  module _ (c : ConditionOps) (laws : ConditionLaws c) where
    pub record IsProvisioned (h : ByoHost) (p : Scope) : Type 0 where
      pub ready : p.byo_machine.status.ready ≡ true
      pub accepted : Accepted h p.byo_machine.spec.provider_id
      pub node : (ref : ObjectReference) × (p.byo_machine.status.node_ref ≡ some ref)
      pub condition : c.is_true byo_host_ready p.byo_machine.status.conditions ≡ true

    -- A run that ends without an error and without a request for another leaves the machine
    -- provisioned.
    abbrev pub Provisions : ByoHost → Ended S → Type 0
    Provisions h (returned w p r) = r ≡ done → IsProvisioned h p
    Provisions h (crashed w) = ⊥

    not_found-Provisions :
        (p : Scope) (h : ByoHost) (w : World S) (s : S) (e : Error)
        → Provisions h (record_node a c p h w (s, err e))
    unfolding record_node
    not_found-Provisions p h w s e = elim (Bool-cases (is_not_found e)) [
      | inl gone ↦ rw gone (λ same. absurd (omega (arith, ap (λ r. r.requeue_after) same)))
      | inr other ↦ rw other (λ same. absurd (some-ne-none e (ap (λ r. r.error) same)))
    ]

    pub found-IsProvisioned :
        (p : Scope) (h : ByoHost) (found : String × Node)
        → Accepted h found.0
        → IsProvisioned h (set_byo_machine (provisioned c found.0 found.1 h p.byo_machine) p)
    unfolding provisioned
    found-IsProvisioned p h found accepted = record {
      ready = refl;
      accepted = accepted;
      node = (_, refl);
      condition = simp (laws.is_true-mark_true);
    }

    record_node-Provisions :
        (p : Scope) (h : ByoHost) (w : World S) (r : S × Result {0} (String × Node))
        → AcceptedResult h r.1
        → Provisions h (record_node a c p h w r)
    unfolding record_node
    record_node-Provisions p h w (s, err e) accepted = not_found-Provisions p h w s e
    record_node-Provisions p h w (s, ok found) accepted =
        λ same. found-IsProvisioned p h found accepted

    with_client-Provisions :
        (p : Scope) (h : ByoHost) (w : World S) (r : S × Option Error)
        → Provisions h (with_client a c p h w r)
    unfolding with_client
    with_client-Provisions p h w (s, some e) =
        λ same. absurd (some-ne-none e (ap (λ r. r.error) same))
    with_client-Provisions p h w (s, none) =
        record_node-Provisions p h w (set_node_provider_id a h s) (set_node-Accepted h s)

    -- Where `updateNodeProviderID` ends without an error and without a requeue, the machine is ready,
    -- with a reference to its Node, a true `BYOHostReady`, and a provider ID that is the host's or
    -- that matches the pattern of the host's.
    pub update-Provisions :
        (p : Scope) (h : ByoHost) (w : World S) → Provisions h (update_node_provider_id a c p h w)
    unfolding update_node_provider_id
    update-Provisions p h w = with_client-Provisions p h w _
