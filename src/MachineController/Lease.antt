-- ===== src/MachineController/Lease.antt =====
-- The lease that a controller takes on a host before it claims it: `tryAcquireLease`,
-- `releaseLease` and `exponentialBackoff` of controllers/infrastructure/byomachine_controller.go.
pub mod Laws
pub mod System
mod Sound
mod Tries
pub mod Lock
use cluster_api_provider_bri.Prelude.{
  ℕ, zero, suc, ◌+◌, ◌*◌, ◌^◌, String, Bool, true, false, Option, none, some, ltb, if◌then◌else◌,
}
use cluster_api_provider_bri.Prelude.Dict.{Dict, lookup, insert, erase}
use cluster_api_provider_bri.Api.Names.{host_lease_annotation_key}
use cluster_api_provider_bri.Api.Meta.{Error, conflict, failed, Result, ok, err, second}
use cluster_api_provider_bri.Api.Host.{ByoHost}
use cluster_api_provider_bri.MachineController.Server.{LockInfo, Server, with_host_annotations}

abbrev pub host_lease_timeout_seconds : ℕ
host_lease_timeout_seconds = 30

-- A lease acquired, one that another holds, or an error.
pub data Acquired : Type 0 where
  acquired held : Acquired
  error : Error → Acquired

unfoldable pub exponential_backoff : ℕ → ℕ
exponential_backoff zero = 0
exponential_backoff (suc n) = 2 ^ n * 100000000

abbrev pub is_conflict : Error → Bool
is_conflict conflict = true
is_conflict _ = false

-- `AcquireTime.Add(timeout).After(now)`, and `false` where the text does not parse.
unfoldable pub lock_valid : ℕ → Option LockInfo → Bool
lock_valid now none = false
lock_valid now (some lock) = ltb now (lock.acquire_time + host_lease_timeout_seconds * second)

module _ {S : Type 0} (a : Server S) where
  unfoldable pub lease_valid : ℕ → Option String → Bool
  unfolding lock_valid
  lease_valid now none = false
  lease_valid now (some text) = lock_valid now (a.unmarshal text)

  abbrev pub leased : String → ByoHost → ByoHost
  leased text h = with_host_annotations (insert host_lease_annotation_key text h.meta.annotations) h

  unfoldable pub acquired_of : Option Error → Acquired
  acquired_of none = acquired
  acquired_of (some e) = if is_conflict e then held else error (failed "failed to update lease")

  -- The server's state, the host in memory, and what came of it.
  unfoldable pub write_lease : Result {0} String → ByoHost → S → (S × ByoHost) × Acquired
  unfolding acquired_of
  write_lease (err _) h s = ((s, h), error (failed "failed to marshal lock data"))
  write_lease (ok text) h s =
      let r = a.update_host (leased text h) s in ((r.0, leased text h), acquired_of r.1)

  unfoldable pub acquire_at : ByoHost → String → String → ℕ → S → (S × ByoHost) × Acquired
  unfolding lease_valid write_lease
  acquire_at h machine controller now s =
      if lease_valid now (lookup host_lease_annotation_key h.meta.annotations)
      then ((s, h), held)
      else write_lease
          (a.marshal (record { holder = controller; acquire_time = now; machine_name = machine })) h
          s

  -- `tryAcquireLease`
  unfoldable pub try_acquire_lease : ByoHost → String → String → S → (S × ByoHost) × Acquired
  unfolding acquire_at
  try_acquire_lease h machine controller s =
      let t = a.now s in acquire_at h machine controller t.1 t.0

  abbrev pub unleased : ByoHost → ByoHost
  unleased h = with_host_annotations (erase host_lease_annotation_key h.meta.annotations) h

  unfoldable pub release_found : Option String → ByoHost → S → (S × ByoHost) × Option Error
  release_found none h s = ((s, h), none)
  release_found (some _) h s =
      let r = a.patch_host h (unleased h) s in
      (
        (r.0, unleased h),
        elim r.1 [ none ↦ none | some _ ↦ some (failed "failed to release lease") ],
      )

  -- `releaseLease`
  unfoldable pub release_lease : ByoHost → S → (S × ByoHost) × Option Error
  unfolding release_found
  release_lease h s = release_found (lookup host_lease_annotation_key h.meta.annotations) h s
