-- ===== src/Tests/Machines.antt =====
-- The ByoMachine controller and the admission tried on an API server that stores one host.
use cluster_api_provider_bri.Prelude.{
  ◌≡◌, refl, sym, ℕ, ◌+◌, ◌≤◌, length, String, true, none, some, [], ◌∷◌, if◌then◌else◌, arith,
  str_eq, ◌==◌, eq_iff,
}
use cluster_api_provider_bri.Prelude.Dict.{lookup, insert, erase}
use cluster_api_provider_bri.Api.Names.{attached_byo_machine_label, machine_finalizer}
use cluster_api_provider_bri.Api.Meta.{not_found, Result, ok, err, done}
use cluster_api_provider_bri.Api.Host.{ByoHost, is_available, get_priority}
use cluster_api_provider_bri.Selection.{select_host_for_claim}
use cluster_api_provider_bri.MachineController.Server.{LockInfo, Server, Scope}
use cluster_api_provider_bri.MachineController.Lease.{
  acquired, held, lease_valid, lock_valid, leased, try_acquire_lease, acquire_at, write_lease,
  acquired_of, release_lease, release_found,
}
use cluster_api_provider_bri.MachineController.Lease.Laws.{lease_of, lease_excludes}
use cluster_api_provider_bri.MachineController.Attach.{
  Attached, attached_to, attach_byo_host, attach_selected, attach_listed, attach_loop,
  selected_turn, next_turn, attempt, fetched, check_claimed, lease_and_claim, leased_turn,
  refetched, claim, with_data_secret, patch_claim, patched, set_owner, sync_spec, sync_labels,
  version_annotation,
}
use cluster_api_provider_bri.MachineController.Attach.Claims.{IsClaimed, NoLease, attach-IsClaimed}
use cluster_api_provider_bri.MachineController.Attach.Backoff.{sum, attach_bounded}
use cluster_api_provider_bri.MachineController.Delete.{reconcile_delete}
use cluster_api_provider_bri.MachineController.Delete.Finalizer.{
  finalizers_of, host_of, IsMarked, delete-finalizers, delete-IsMarked,
}
use cluster_api_provider_bri.MachineController.Provision.{update_node_provider_id}
use cluster_api_provider_bri.MachineController.Provision.Recorded.{Provisions, update-Provisions}
use cluster_api_provider_bri.MachineController.Normal.{reconcile_normal}
use cluster_api_provider_bri.MachineController.Normal.Readiness.{
  ReadyByHost, reconcile_normal-ReadyByHost,
}
use cluster_api_provider_bri.Admission.{
  Request, review, accepts, approve, is_approvable, check_csr_condition, allowed, denied_with,
  delete, handle,
}
use cluster_api_provider_bri.Admission.Approval.{approval_once}
use cluster_api_provider_bri.Admission.Webhook.{deletion_follows_claim}
use cluster_api_provider_bri.Tests.{
  listed, listed-Laws, quantities, finalizers, host_a, host_with, machine_reference, byo_machine,
  scope, server_at, world,
}

-- A server that writes a lock taken at the time 0 for the machine m as its holder.
abbrev pub read_lock : String → LockInfo
read_lock text = record { holder = text; acquire_time = 0; machine_name = "m" }

abbrev pub write_lock : LockInfo → Result {0} String
write_lock k =
    if k.acquire_time == 0
    then (if str_eq k.machine_name "m" then ok k.holder else err not_found)
    else err not_found

abbrev server : ℕ → Server ByoHost
server n = server_at n write_lock (λ text. some (read_lock text))

pub reads : (k : LockInfo) (text : String) → write_lock k ≡ ok text → some (read_lock text) ≡ some k
reads k text e =
    let parts : (text ≡ k.holder) × (k.acquire_time ≡ 0) × (k.machine_name ≡ "m") =
      ground (arith, eq_iff k.machine_name "m") in
    rw (parts.0, sym parts.1, sym parts.2) refl

abbrev host_in : Attached → ByoHost
host_in (attached_to h) = h
host_in _ = host_a

abbrev claimed_a : ByoHost
claimed_a = host_in (attach_byo_host (server 0) listed quantities (scope none) (world host_a)).1

attach_a :
    (attach_byo_host (server 0) listed quantities (scope none) (world host_a)).1
    ≡ attached_to claimed_a
unfolding attach_byo_host attach_selected attach_listed attach_loop selected_turn next_turn attempt
    fetched check_claimed lease_and_claim leased_turn refetched claim with_data_secret patch_claim
    patched set_owner sync_spec sync_labels version_annotation try_acquire_lease acquire_at
    write_lease acquired_of lease_valid lock_valid release_lease release_found lookup insert erase
    select_host_for_claim is_available get_priority
attach_a = refl

claimed_a_lives : claimed_a.meta.deletion_timestamp ≡ none
unfolding attach_byo_host attach_selected attach_listed attach_loop selected_turn next_turn attempt
    fetched check_claimed lease_and_claim leased_turn refetched claim with_data_secret patch_claim
    patched set_owner sync_spec sync_labels version_annotation try_acquire_lease acquire_at
    write_lease acquired_of lease_valid lock_valid release_lease release_found lookup insert erase
    select_host_for_claim is_available get_priority
claimed_a_lives = refl

attach-IsClaimed_example : IsClaimed (scope none) claimed_a × NoLease claimed_a
attach-IsClaimed_example =
    attach-IsClaimed (server 0) listed quantities (scope none) (world host_a) claimed_a attach_a

attach_bounded_example :
    let slept =
      (attach_byo_host (server 0) listed quantities (scope none) (world host_a)).0.slept in
    (sum slept ≤ 0 + 1500000000) × (length slept ≤ 0 + 5)
attach_bounded_example = attach_bounded (server 0) listed quantities (scope none) (world host_a)

lease_a : (try_acquire_lease (server 0) host_a "m" "one" host_a).1 ≡ acquired
unfolding try_acquire_lease acquire_at write_lease acquired_of lease_valid lookup
lease_a = refl

lease_seen :
    lease_of (leased (server 0) "one" host_a)
    ≡ lease_of (try_acquire_lease (server 0) host_a "m" "one" host_a).0.1
unfolding try_acquire_lease acquire_at write_lease acquired_of lease_valid lookup
lease_seen = refl

lease_excludes_example :
    try_acquire_lease (server 0) (leased (server 0) "one" host_a) "m2" "two" host_a
    ≡ ((host_a, leased (server 0) "one" host_a), held)
lease_excludes_example =
    lease_excludes (server 0) host_a (leased (server 0) "one" host_a) "m" "one" "m2" "two" host_a
      host_a reads lease_a lease_seen (omega arith)

abbrev labelled : ByoHost
labelled =
    host_with "a" ((attached_byo_machine_label, "default.m") ∷ []) [] (some machine_reference) []

-- A machine with its finalizer, and a live host.
abbrev dying : Scope
dying = record (scope (some labelled)) {
  byo_machine = record byo_machine {
    meta = record (byo_machine.meta) { finalizers = machine_finalizer ∷ [] };
  };
}

delete-finalizers_example :
    finalizers_of (reconcile_delete (server 0) finalizers dying (world labelled)) []
    ≡ machine_finalizer ∷ []
delete-finalizers_example =
    delete-finalizers (server 0) finalizers dying labelled (world labelled) refl

delete-IsMarked_example :
    (k : ByoHost) × (host_of
        (reconcile_delete (server 0) finalizers (scope (some labelled)) (world labelled))
      ≡ some k)
    × IsMarked labelled k
delete-IsMarked_example =
    delete-IsMarked (server 0) finalizers (scope (some labelled)) labelled (world labelled) refl
      refl

update-Provisions_example :
    Provisions
      (server 0)
      listed
      listed-Laws
      host_a
      (update_node_provider_id (server 0) listed (scope (some host_a)) host_a (world host_a))
update-Provisions_example =
    update-Provisions (server 0) listed listed-Laws (scope (some host_a)) host_a (world host_a)

abbrev request : Request
request = record {
  name = "byoh-csr-a";
  signer = "kubernetes.io/kube-apiserver-client";
  conditions = [];
}

is_sent : (review (λ r. none) request).0 ≡ some (approve request)
unfolding review is_approvable check_csr_condition
is_sent = refl

approval_once_example :
    (accepts request ≡ true) × (review (λ r. none) (approve request) ≡ (none, done))
approval_once_example = approval_once (λ r. none) (λ r. none) request (approve request) is_sent

deletion_follows_claim_example :
    (handle delete "user" (ok claimed_a) (ok claimed_a) ≡ denied_with)
    × (k : ByoHost) × (host_of
          (reconcile_delete (server 0) finalizers (scope (some claimed_a)) (world claimed_a))
        ≡ some k)
    × (handle delete "user" (ok claimed_a) (ok k) ≡ allowed)
deletion_follows_claim_example =
    deletion_follows_claim (server 0) listed quantities finalizers (scope none) (world host_a)
      claimed_a (scope (some claimed_a)) (world claimed_a) "user" (ok claimed_a) attach_a refl
      claimed_a_lives

reconcile_normal-ReadyByHost_example :
    ReadyByHost
      (server 0)
      listed
      listed-Laws
      (reconcile_normal (server 0) listed quantities finalizers (scope none) (world host_a))
reconcile_normal-ReadyByHost_example =
    reconcile_normal-ReadyByHost (server 0) listed listed-Laws quantities finalizers (scope none)
      (world host_a) refl
