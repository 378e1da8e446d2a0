-- ===== src/MachineController/Lease/Laws.antt =====
-- The lease keeps a second controller out until it expires.
use cluster_api_provider_bri.Prelude.{
  ℕ, ◌+◌, ◌*◌, ◌<◌, lt→ltb, ◌≡◌, refl, sym, ap, ◌∙◌, ◌⊎◌, inl, inr, String, true, false, Option,
  none, some, if◌then◌else◌, Bool-cases, arith,
}
use cluster_api_provider_bri.Prelude.Dict.{lookup, lookup-insert}
use cluster_api_provider_bri.Api.Names.{host_lease_annotation_key}
use cluster_api_provider_bri.Api.Meta.{Error, Result, ok, err, second}
use cluster_api_provider_bri.Api.Host.{ByoHost}
use cluster_api_provider_bri.MachineController.Server.{LockInfo, Server}
use cluster_api_provider_bri.MachineController.Lease.{
  acquired, held, host_lease_timeout_seconds, lock_valid, lease_valid, leased, acquired_of,
  write_lease, acquire_at, try_acquire_lease, unleased, release_found, release_lease,
}

abbrev pub lock_of : String → String → ℕ → LockInfo
lock_of controller machine now = record {
  holder = controller;
  acquire_time = now;
  machine_name = machine;
}

abbrev pub lease_of : ByoHost → Option String
lease_of h = lookup host_lease_annotation_key h.meta.annotations

module _ {S : Type 0} (a : Server S) where
  -- What is known once a lease is acquired at the time `now`: no lease in force was found, and the
  -- API server took the new one.
  pub record IsAcquired (h : ByoHost) (k : LockInfo) (s : S) : Type 0 where
    pub text : String
    pub marshalled : a.marshal k ≡ ok text
    pub was_free : lease_valid a k.acquire_time (lease_of h) ≡ false
    pub written : (a.update_host (leased a text h) s).1 ≡ none

  acquired_of-none : (e : Option Error) → acquired_of a e ≡ acquired → e ≡ none
  unfolding acquired_of
  acquired_of-none none h = refl
  acquired_of-none (some e) h = ground arith

  write_lease_acquired :
      (m : Result {0} String) (h : ByoHost) (s : S)
      → (write_lease a m h s).1 ≡ acquired
      → (text : String) × (m ≡ ok text)
        × ((a.update_host (leased a text h) s).1 ≡ none)
        × ((write_lease a m h s).0.1 ≡ leased a text h)
  unfolding write_lease
  write_lease_acquired (err _) h s e = absurd (cc)
  write_lease_acquired (ok text) h s e = (text, refl, acquired_of-none _ e, refl)

  acquire_at_free :
      (h : ByoHost) (machine controller : String) (now : ℕ) (s : S)
      → (acquire_at a h machine controller now s).1 ≡ acquired
      → (lease_valid a now (lease_of h) ≡ false)
        × (acquire_at a h machine controller now s
            ≡ write_lease a (a.marshal (lock_of controller machine now)) h s)
  unfolding acquire_at
  acquire_at_free h machine controller now s e =
      elim (Bool-cases (lease_valid a now (lease_of h))) [
        | inl y ↦ absurd (cc (rw (y, if◌then◌else◌) at e))
        | inr n ↦ (n, rw n refl)
      ]

  -- A lease is acquired only on a host without a lease in force, and only if the API server takes
  -- the update that records it; the host in memory then carries it.
  acquired-IsAcquired :
      (h : ByoHost) (machine controller : String) (s : S)
      → (try_acquire_lease a h machine controller s).1 ≡ acquired
      → let t = a.now s in
        (won : IsAcquired h (lock_of controller machine t.1) t.0) × ((try_acquire_lease a h machine
            controller s).0.1
          ≡ leased a won.text h)
  unfolding try_acquire_lease
  acquired-IsAcquired h machine controller s e =
      let t = a.now s in
      let free = acquire_at_free h machine controller t.1 t.0 e in
      let won =
        write_lease_acquired (a.marshal (lock_of controller machine t.1)) h t.0
          (ap (λ r. r.1) (sym free.1) ∙ e) in
      (
        record { text = won.0; marshalled = won.1; was_free = free.0; written = won.2 },
        ap (λ r. r.0.1) free.1 ∙ won.3,
      )

  pub valid_within :
      (k : LockInfo) (text : String) (now : ℕ)
      → a.unmarshal text ≡ some k
      → now < k.acquire_time + host_lease_timeout_seconds * second
      → lease_valid a now (some text) ≡ true
  unfolding lease_valid lock_valid
  valid_within k text now parsed early =
      ap (lock_valid now) parsed ∙ lt→ltb now (k.acquire_time + 30 * second) early

  held_back :
      (h : ByoHost) (machine controller : String) (s : S)
      → lease_valid a (a.now s).1 (lease_of h) ≡ true
      → try_acquire_lease a h machine controller s ≡ (((a.now s).0, h), held)
  unfolding try_acquire_lease acquire_at
  held_back h machine controller s valid = rw valid refl

  -- After one controller acquires the lease, another one that reads the host with this lease less
  -- than 30 seconds later does not get it, and writes nothing. A lock read back is the lock written.
  pub lease_excludes :
      (h other : ByoHost) (machine controller machine2 controller2 : String) (s later : S)
      → ((k : LockInfo) (text : String) → a.marshal k ≡ ok text → a.unmarshal text ≡ some k)
      → (try_acquire_lease a h machine controller s).1 ≡ acquired
      → lease_of other ≡ lease_of (try_acquire_lease a h machine controller s).0.1
      → (a.now later).1 < (a.now s).1 + 30 * second
      → try_acquire_lease a other machine2 controller2 later ≡ (((a.now later).0, other), held)
  lease_excludes h other machine controller machine2 controller2 s later reads first seen early =
      let won = acquired-IsAcquired h machine controller s first in
      let k = lock_of controller machine (a.now s).1 in
      let found : lease_of other ≡ some won.0.text =
        seen
        ∙ ap lease_of won.1
        ∙ lookup-insert host_lease_annotation_key host_lease_annotation_key won.0.text
            h.meta.annotations in
      held_back other machine2 controller2 later (
        ap (lease_valid a (a.now later).1) found
        ∙ valid_within k won.0.text (a.now later).1 (reads k won.0.text won.0.marshalled) early)

  release_found_host :
      (found : Option String) (h : ByoHost) (s : S)
      → ((release_found a found h s).0.1 ≡ h) × (found ≡ none)
        ⊎ ((release_found a found h s).0.1 ≡ unleased a h)
  unfolding release_found
  release_found_host none h s = inl (refl, refl)
  release_found_host (some _) h s = inr refl

  -- The host in memory after `release_lease`: as it was, without a lease, or with its lease removed.
  pub release_lease_host :
      (h : ByoHost) (s : S)
      → ((release_lease a h s).0.1 ≡ h) × (lease_of h ≡ none)
        ⊎ ((release_lease a h s).0.1 ≡ unleased a h)
  unfolding release_lease
  release_lease_host h s = release_found_host (lease_of h) h s
