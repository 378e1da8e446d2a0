-- ===== src/MachineController/Lease/Tries.antt =====
-- What a call of `tryAcquireLease` comes to.
use mathlib.Core.Path.{subst}
use cluster_api_provider_bri.Prelude.{
  ℕ, ◌≡◌, ◌≢◌, refl, sym, ap, inl, inr, String, false, some, if_true, Bool-cases, arith,
}
use cluster_api_provider_bri.Api.Meta.{Error, Result, ok, err}
use cluster_api_provider_bri.Api.Host.{ByoHost}
use cluster_api_provider_bri.MachineController.Server.{Server}
use cluster_api_provider_bri.MachineController.Lease.{
  Acquired, acquired, held, lease_valid, leased, acquired_of, write_lease, acquire_at,
  try_acquire_lease,
}
use cluster_api_provider_bri.MachineController.Lease.Laws.{lock_of, lease_of}
use cluster_api_provider_bri.MachineController.Lease.System.{Store, stored, ApiLaws}

-- What a call of `tryAcquireLease` with the copy `h` of the version `v` comes to: the lease is won with
-- the copy up to date and no lease in force in it, or the store stays as it is.
pub data Tried (api : ℕ → Server Store) (v : ℕ) (h : ByoHost) (machine controller : String)
    (s : Store) (r : (Store × ByoHost) × Acquired) : Type 0 where
  won :
      (text : String)
      → v ≡ s.version
      → lease_valid (api v) s.clock (lease_of h) ≡ false
      → (api 0).unmarshal text ≡ some (lock_of controller machine s.clock)
      → r ≡ ((stored (leased (api v) text h) s, leased (api v) text h), acquired)
      → Tried api v h machine controller s r
  lost :
      (h' : ByoHost) (b : Acquired)
      → b ≢ acquired
      → r ≡ ((s, h'), b)
      → Tried api v h machine controller s r

module _ (api : ℕ → Server Store) (laws : ApiLaws api) where
  acquired_of-some : (v : ℕ) (e : Error) → acquired_of (api v) (some e) ≢ acquired
  unfolding acquired_of
  acquired_of-some v e h = ground arith

  module _ (v : ℕ) (h : ByoHost) (machine controller : String) (s : Store) where
    write_lease-Tried :
        (m : Result {0} String)
        → (api v).marshal (lock_of controller machine s.clock) ≡ m
        → lease_valid (api v) s.clock (lease_of h) ≡ false
        → Tried api v h machine controller s (write_lease (api v) m h s)
    unfolding write_lease
    write_lease-Tried (err e) made free = lost h _ (λ p. cc p) refl
    write_lease-Tried (ok text) made free = elim (laws.update_host v (leased (api v) text h) s) [
      | inl (same, call) ↦
          won text same free
            (laws.unmarshal-marshal v (lock_of controller machine s.clock) text made)
            (ap (λ r. ((r.0, leased (api v) text h), acquired_of (api v) r.1)) call)
      | inr (e, call) ↦
          lost (leased (api v) text h) (acquired_of (api v) (some e)) (acquired_of-some v e)
            (ap (λ r. ((r.0, leased (api v) text h), acquired_of (api v) r.1)) call)
    ]

    acquire_at-Tried :
        Tried api v h machine controller s (acquire_at (api v) h machine controller s.clock s)
    unfolding acquire_at
    acquire_at-Tried = elim (Bool-cases (lease_valid (api v) s.clock (lease_of h))) [
      | inl valid ↦ lost h held (λ p. cc p) (if_true _ _ valid)
      | inr free ↦ rw free (write_lease-Tried _ refl free)
    ]

    pub try-Tried :
        Tried api v h machine controller s (try_acquire_lease (api v) h machine controller s)
    unfolding try_acquire_lease
    try-Tried =
        subst
          (λ t.
            Tried api v h machine controller s (acquire_at (api v) h machine controller t.1 t.0))
          (sym (laws.now v s)) acquire_at-Tried
