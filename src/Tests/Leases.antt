-- ===== src/Tests/Leases.antt =====
-- Two controllers and one host.
use cluster_api_provider_bri.Prelude.{
  ℕ, ◌==◌, ◌≡◌, ◌≢◌, String, Bool, refl, ◌⊎◌, inl, inr, Option, none, some, if◌then◌else◌, if_true,
  if_false, Bool-cases, arith,
}
use cluster_api_provider_bri.Api.Meta.{Error, conflict}
use cluster_api_provider_bri.Api.Host.{ByoHost}
use cluster_api_provider_bri.MachineController.Server.{LockInfo, Server}
use cluster_api_provider_bri.MachineController.Lease.{acquired, unleased, try_acquire_lease}
use cluster_api_provider_bri.MachineController.Lease.System.{
  Store, stored, ApiLaws, System, after_try, Step, read, take, Reach, start, later,
}
use cluster_api_provider_bri.MachineController.Lease.Lock.{LockStep, StandsFor, lease_refines_lock}
use cluster_api_provider_bri.Tests.{server_over, host_a}
use cluster_api_provider_bri.Tests.Machines.{write_lock, read_lock, reads}

abbrev without_lease : ByoHost → ByoHost
without_lease = unleased (
    server_over {S = Store} (λ s. (s, 0)) (λ s. s.host) (λ h s. (s, none)) (λ h s. (s, none))
      write_lock (λ text. none))

abbrev api : ℕ → Server Store
api v =
    server_over (λ s. (s, s.clock)) (λ s. s.host)
      (λ h s. if v == s.version then (stored h s, none) else (s, some conflict))
      (λ h s. (stored (without_lease s.host) s, none)) write_lock (λ text. some (read_lock text))

updates :
    (v : ℕ) (h : ByoHost) (s : Store)
    → (v ≡ s.version) × ((api v).update_host h s ≡ (stored h s, none))
      ⊎ ((e : Error) × ((api v).update_host h s ≡ (s, some e)))
updates v h s = elim (Bool-cases (v == s.version)) [
  | inl same ↦ inl (ground arith, if_true _ _ same)
  | inr other ↦ inr (conflict, if_false _ _ other)
]

api-ApiLaws : ApiLaws api
api-ApiLaws = record {
  now = λ v s. refl;
  update_host = updates;
  patch_lease = λ v h s. inl refl;
  unmarshal-marshal = λ v k text e. reads k text e;
  one_unmarshal = λ v text. refl;
}

abbrev store : Store
store = record { host = host_a; version = 0; clock = 0 }

abbrev begun : System
begun = record { store = store; copies = λ i. none }

abbrev seen : System
seen = record begun { copies = λ j. if 0 == j then some (host_a, 0) else none }

abbrev won : System
won = after_try 0 0 (try_acquire_lease (api 0) host_a "m" "one" store) seen

won_reached : Reach api won
won_reached = later (later (start store) (read 0)) (take 0 host_a 0 "m" "one" refl)

lease_refines_lock_example :
    ((l : Option LockInfo) × StandsFor api won l)
    × ((l : Option LockInfo) (b : Bool) (t : System)
        → StandsFor api won l
        → Step api b won t
        → (l' : Option LockInfo) × LockStep won.store.clock t.store.clock b l l'
          × StandsFor api t l')
    × ((k : LockInfo) (i : ℕ) (h : ByoHost) (v : ℕ) (machine controller : String)
        → won.copies i ≡ some (h, v)
        → StandsFor api won (some k)
        → (try_acquire_lease (api v) h machine controller won.store).1 ≢ acquired)
lease_refines_lock_example = lease_refines_lock api api-ApiLaws won won_reached
