-- ===== src/MachineController/Lease/System.antt =====
-- Several controllers that take the lease of one host through one API server, in any order: what they
-- read, the writes of others, and the passing of time stand between any two of their calls.
use cluster_api_provider_bri.Prelude.{
  ℕ, ◌+◌, ◌*◌, ◌==◌, ◌≡◌, ◌⊎◌, String, Bool, true, false, Option, none, some, if◌then◌else◌,
}
use cluster_api_provider_bri.Api.Meta.{Error, ok, second}
use cluster_api_provider_bri.Api.Host.{ByoHost}
use cluster_api_provider_bri.MachineController.Server.{LockInfo, Server}
use cluster_api_provider_bri.MachineController.Lease.{
  Acquired, acquired, held, error, unleased, try_acquire_lease, release_lease,
}
use cluster_api_provider_bri.MachineController.Lease.Laws.{lease_of}

-- The host that the API server keeps, its resource version, and the time.
pub record Store : Type 0 where
  pub host : ByoHost
  pub version : ℕ
  pub clock : ℕ

abbrev pub stored : ByoHost → Store → Store
stored h s = record s { host = h; version = s.version + 1 }

-- The API server as a client sees it that has read the version `v`. An update is taken only at the
-- version that was read; a patch that removes the lease is applied to the host as it is. Either may
-- fail, and then changes nothing. A lock read back is the lock written.
pub record ApiLaws (api : ℕ → Server Store) : Type 0 where
  pub now : (v : ℕ) (s : Store) → (api v).now s ≡ (s, s.clock)
  pub update_host :
      (v : ℕ) (h : ByoHost) (s : Store)
      → (v ≡ s.version) × ((api v).update_host h s ≡ (stored h s, none))
        ⊎ ((e : Error) × ((api v).update_host h s ≡ (s, some e)))
  pub patch_lease :
      (v : ℕ) (h : ByoHost) (s : Store)
      → ((api v).patch_host h (unleased (api v) h) s ≡ (stored (unleased (api v) s.host) s, none))
        ⊎ ((e : Error) × ((api v).patch_host h (unleased (api v) h) s ≡ (s, some e)))
  pub unmarshal-marshal :
      (v : ℕ) (k : LockInfo) (text : String)
      → (api v).marshal k ≡ ok text
      → (api 0).unmarshal text ≡ some k
  pub one_unmarshal : (v : ℕ) (text : String) → (api v).unmarshal text ≡ (api 0).unmarshal text

-- The server with the controllers: the copy that each has read, with its version.
pub record System : Type 0 where
  pub store : Store
  pub copies : ℕ → Option (ByoHost × ℕ)

abbrev pub set_at {ℓ} : {A : Type ℓ} → (ℕ → A) → ℕ → A → ℕ → A
set_at f i x j = if i == j then x else f j

abbrev pub lease_time : ℕ
lease_time = 30 * second

-- What a controller has after a call of `tryAcquireLease`: where it did not get the lease, its next turn
-- begins with a fetch.
unfoldable pub after_try : ℕ → ℕ → (Store × ByoHost) × Acquired → System → System
after_try i v ((t, h), acquired) s = record s {
  store = t;
  copies = set_at s.copies i (some (h, v + 1));
}
after_try i v ((t, h), held) s = record s { store = t; copies = set_at s.copies i none }
after_try i v ((t, h), error _) s = record s { store = t; copies = set_at s.copies i none }

-- After a release, whether or not it failed, the next turn begins with a fetch too.
unfoldable pub after_release : ℕ → (Store × ByoHost) × Option Error → System → System
after_release i ((t, h), _) s = record s { store = t; copies = set_at s.copies i none }

module _ (api : ℕ → Server Store) where
  -- The steps, with whether the step may remove a lease: time passes; a controller reads the host;
  -- anyone writes the host with the lease that it has, or without one, as the claim of the host and the
  -- mark for its cleanup do; a controller tries to take the lease with the copy that it has; a
  -- controller releases the lease with the copy that it has, whoever holds the lease by then.
  pub data Step : Bool → System → System → Type 0 where
    tick :
        {s : System} (d : ℕ)
        → Step false s (record s { store = record (s.store) { clock = s.store.clock + d } })
    read :
        {s : System} (i : ℕ)
        → Step false s
            (record s { copies = set_at s.copies i (some (s.store.host, s.store.version)) })
    write :
        {s : System} (h : ByoHost)
        → lease_of h ≡ lease_of s.store.host
        → Step false s (record s { store = stored h s.store })
    clear :
        {s : System} (h : ByoHost)
        → lease_of h ≡ none
        → Step true s (record s { store = stored h s.store })
    take :
        {s : System} (i : ℕ) (h : ByoHost) (v : ℕ) (machine controller : String)
        → s.copies i ≡ some (h, v)
        → Step false s (after_try i v (try_acquire_lease (api v) h machine controller s.store) s)
    release :
        {s : System} (i : ℕ) (h : ByoHost) (v : ℕ)
        → s.copies i ≡ some (h, v)
        → Step true s (after_release i (release_lease (api v) h s.store) s)

  -- The states that come up, from one in which nobody has read the host.
  pub data Reach : System → Type 0 where
    start : (t : Store) → Reach (record { store = t; copies = λ i. none })
    later : {b : Bool} {s t : System} → Reach s → Step b s t → Reach t
