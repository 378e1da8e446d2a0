-- ===== src/MachineController/Lease/Lock.antt =====
-- The lease on the host that the API server keeps refines a lock that one controller holds at a time.
use mathlib.Core.Path.{subst}
use mathlib.Core.Bool.{true≢false}
use native.Mathlib.Decide.{dec_lt}
use cluster_api_provider_bri.Prelude.{
  ℕ, ◌+◌, ◌<◌, ◌≤◌, ◌≡◌, ◌≢◌, refl, sym, ap, ◌∙◌, inl, inr, String, Bool, true, false, Option, none,
  some, arith,
}
use cluster_api_provider_bri.Prelude.Dict.{lookup-insert, lookup-erase}
use cluster_api_provider_bri.Api.Names.{host_lease_annotation_key}
use cluster_api_provider_bri.Api.Host.{ByoHost}
use cluster_api_provider_bri.MachineController.Server.{LockInfo, Server}
use cluster_api_provider_bri.MachineController.Lease.{
  Acquired, acquired, held, error, lock_valid, lease_valid, leased, try_acquire_lease, unleased,
  release_found, release_lease,
}
use cluster_api_provider_bri.MachineController.Lease.Laws.{lock_of, lease_of, valid_within}
use cluster_api_provider_bri.MachineController.Lease.System.{
  Store, stored, ApiLaws, System, lease_time, after_try, after_release, Step, tick, read, write,
  clear, take, release, Reach,
}
use cluster_api_provider_bri.MachineController.Lease.Sound.{IsSound, Reach-IsSound}
use cluster_api_provider_bri.MachineController.Lease.Tries.{won, lost, try-Tried}

-- The lock, between the times `now` and `next`: it is taken only where nobody holds it, and goes by a
-- step that may free it or once 30 seconds have passed.
pub data LockStep (now next : ℕ) (frees : Bool) : Option LockInfo → Option LockInfo → Type 0 where
  stay : (l : Option LockInfo) → LockStep now next frees l l
  taken : (k : LockInfo) → k.acquire_time ≡ now → LockStep now next frees none (some k)
  freed : (k : LockInfo) → frees ≡ true → LockStep now next frees (some k) none
  expired :
      (k : LockInfo) → k.acquire_time + lease_time ≤ next → LockStep now next frees (some k) none

module _ (api : ℕ → Server Store) where
  -- The lock that a lease stands for: the lock that its text reads to, for less than 30 seconds.
  pub Shows : ℕ → Option String → Option LockInfo → Type 0
  unfolding lease_valid
  Shows now found none = lease_valid (api 0) now found ≡ false
  Shows now found (some k) =
      (text : String) × (found ≡ some text)
      × ((api 0).unmarshal text ≡ some k)
      × (now < k.acquire_time + lease_time)

  abbrev pub StandsFor : System → Option LockInfo → Type 0
  StandsFor s l = Shows s.store.clock (lease_of s.store.host) l

  -- What a step comes to for the lock.
  Simulates : Bool → Option LockInfo → System → System → Type 0
  Simulates frees l s t =
      (l' : Option LockInfo) × LockStep s.store.clock t.store.clock frees l l' × StandsFor t l'

  valid-Shows :
      (now : ℕ) (found : Option String) (k : LockInfo)
      → Shows now found (some k)
      → lease_valid (api 0) now found ≡ true
  unfolding Shows
  valid-Shows now found k (text, e, reads, early) =
      ap (lease_valid (api 0) now) e ∙ valid_within (api 0) k text now reads early

  late-Shows :
      (now : ℕ) (text : String) (k : LockInfo)
      → (api 0).unmarshal text ≡ some k
      → ¬ (now < k.acquire_time + lease_time)
      → lease_valid (api 0) now (some text) ≡ false
  unfolding lease_valid lock_valid
  late-Shows now text k reads late = ap (lock_valid now) reads ∙ ground arith

  read-Shows :
      (now : ℕ) (text : String) (o : Option LockInfo)
      → (api 0).unmarshal text ≡ o
      → (l : Option LockInfo) × Shows now (some text) l
  unfolding Shows lease_valid lock_valid
  read-Shows now text none e = (none, ap (lock_valid now) e)
  read-Shows now text (some k) e = elim (dec_lt now (k.acquire_time + lease_time)) [
    | yes early ↦ (some k, (text, refl, e, early))
    | no late ↦ (none, late-Shows now text k e late)
  ]

  some-Shows : (now : ℕ) (found : Option String) → (l : Option LockInfo) × Shows now found l
  unfolding Shows lease_valid
  some-Shows now none = (none, refl)
  some-Shows now (some text) = read-Shows now text ((api 0).unmarshal text) refl

  lock_valid-later :
      (now d : ℕ) (o : Option LockInfo) → lock_valid now o ≡ false → lock_valid (now + d) o ≡ false
  unfolding lock_valid
  lock_valid-later now d none h = refl
  lock_valid-later now d (some k) h = ground arith

  lease_valid-later :
      (now d : ℕ) (found : Option String)
      → lease_valid (api 0) now found ≡ false
      → lease_valid (api 0) (now + d) found ≡ false
  unfolding lease_valid
  lease_valid-later now d none h = refl
  lease_valid-later now d (some text) h = lock_valid-later now d ((api 0).unmarshal text) h

  tick-Shows :
      (now d : ℕ) (found : Option String) (l : Option LockInfo)
      → Shows now found l
      → (l' : Option LockInfo) × LockStep now (now + d) false l l' × Shows (now + d) found l'
  unfolding Shows
  tick-Shows now d found none h = (none, stay none, lease_valid-later now d found h)
  tick-Shows now d found (some k) (text, e, reads, early) =
      elim (dec_lt (now + d) (k.acquire_time + lease_time)) [
        | yes still ↦ (some k, stay (some k), (text, e, reads, still))
        | no late ↦ (
          none,
          expired k (omega arith),
          ap (lease_valid (api 0) (now + d)) e ∙ late-Shows (now + d) text k reads late,
        )
      ]

  -- A host without a lease.
  cleared-Shows :
      (now : ℕ) (found : Option String) (l : Option LockInfo)
      → found ≡ none
      → (l' : Option LockInfo) × LockStep now now true l l' × Shows now found l'
  unfolding Shows lease_valid
  cleared-Shows now found none gone = (none, stay none, ap (lease_valid (api 0) now) gone)
  cleared-Shows now found (some k) gone = (none, freed k refl, ap (lease_valid (api 0) now) gone)

module _ (api : ℕ → Server Store) (laws : ApiLaws api) where
  same_valid :
      (v now : ℕ) (found : Option String)
      → lease_valid (api v) now found ≡ lease_valid (api 0) now found
  unfolding lease_valid
  same_valid v now none = refl
  same_valid v now (some text) = ap (lock_valid now) (laws.one_unmarshal v text)

  -- A copy that is up to date and shows no lease in force: nobody holds the lock.
  free-none :
      (s : System) (i : ℕ) (h : ByoHost) (v : ℕ) (k : LockInfo)
      → IsSound s
      → s.copies i ≡ some (h, v)
      → v ≡ s.store.version
      → lease_valid (api v) s.store.clock (lease_of h) ≡ false
      → ¬ StandsFor api s (some k)
  free-none s i h v k sound c same free stands = true≢false (
      sym (valid-Shows api s.store.clock (lease_of s.store.host) k stands)
      ∙ ap (lease_valid (api 0) s.store.clock) (sym (sound.fresh i h v c same))
      ∙ sym (same_valid v s.store.clock (lease_of h))
      ∙ free)

  -- A try that does not get the lease.
  lost-Simulates :
      (s : System) (l : Option LockInfo) (i v : ℕ) (h : ByoHost) (b : Acquired)
      → b ≢ acquired
      → StandsFor api s l
      → Simulates api false l s (after_try i v ((s.store, h), b) s)
  unfolding Simulates after_try
  lost-Simulates s l i v h acquired other stands = absurd (other refl)
  lost-Simulates s l i v h held other stands = (l, stay l, stands)
  lost-Simulates s l i v h (error _) other stands = (l, stay l, stands)

  won-Simulates :
      (s : System) (l : Option LockInfo) (i : ℕ) (h : ByoHost) (v : ℕ) (machine controller : String)
      (text : String)
      → IsSound s
      → s.copies i ≡ some (h, v)
      → v ≡ s.store.version
      → lease_valid (api v) s.store.clock (lease_of h) ≡ false
      → (api 0).unmarshal text ≡ some (lock_of controller machine s.store.clock)
      → StandsFor api s l
      → Simulates api false l s (
          after_try i v
            ((stored (leased (api v) text h) s.store, leased (api v) text h), acquired)
            s)
  unfolding Simulates after_try Shows
  won-Simulates s none i h v machine controller text sound c same free reads stands = (
    some (lock_of controller machine s.store.clock),
    taken (lock_of controller machine s.store.clock) refl,
    (
      text,
      lookup-insert host_lease_annotation_key host_lease_annotation_key text h.meta.annotations,
      reads,
      omega arith,
    ),
  )
  won-Simulates s (some k) i h v machine controller text sound c same free reads stands =
      absurd (free-none s i h v k sound c same free stands)

  take-Simulates :
      (s : System) (l : Option LockInfo) (i : ℕ) (h : ByoHost) (v : ℕ) (machine controller : String)
      → IsSound s
      → s.copies i ≡ some (h, v)
      → StandsFor api s l
      → Simulates api false l s
          (after_try i v (try_acquire_lease (api v) h machine controller s.store) s)
  take-Simulates s l i h v machine controller sound c stands =
      elim (try-Tried api laws v h machine controller s.store) [
        | won text same free reads eq ↦
            subst (λ r. Simulates api false l s (after_try i v r s)) (sym eq)
              (won-Simulates s l i h v machine controller text sound c same free reads stands)
        | lost h' b other eq ↦
            subst (λ r. Simulates api false l s (after_try i v r s)) (sym eq)
              (lost-Simulates s l i v h' b other stands)
      ]

  -- While somebody holds the lock no try succeeds.
  held-fails :
      (s : System) (k : LockInfo) (i : ℕ) (h : ByoHost) (v : ℕ) (machine controller : String)
      → IsSound s
      → s.copies i ≡ some (h, v)
      → StandsFor api s (some k)
      → (try_acquire_lease (api v) h machine controller s.store).1 ≢ acquired
  held-fails s k i h v machine controller sound c stands =
      elim (try-Tried api laws v h machine controller s.store) [
        | won text same free reads eq ↦ absurd (free-none s i h v k sound c same free stands)
        | lost h' b other eq ↦ λ e. other (ap (λ r. r.1) (sym eq) ∙ e)
      ]

  released-Simulates :
      (s : System) (l : Option LockInfo) (i v : ℕ) (h : ByoHost) (found : Option String)
      → StandsFor api s l
      → Simulates api true l s (after_release i (release_found (api v) found h s.store) s)
  unfolding Simulates after_release release_found
  released-Simulates s l i v h none stands = (l, stay l, stands)
  released-Simulates s l i v h (some _) stands = elim (laws.patch_lease v h s.store) [
    | inl call ↦
        subst
          (λ t.
            (l' : Option LockInfo) × LockStep s.store.clock t.clock true l l'
            × Shows api t.clock (lease_of t.host) l')
          (sym (ap (λ r. r.0) call))
          (cleared-Shows api s.store.clock _ l (
            lookup-erase host_lease_annotation_key host_lease_annotation_key
              s.store.host.meta.annotations))
    | inr (e, call) ↦
        subst
          (λ t.
            (l' : Option LockInfo) × LockStep s.store.clock t.clock true l l'
            × Shows api t.clock (lease_of t.host) l')
          (sym (ap (λ r. r.0) call)) (l, stay l, stands)
  ]

  step-Simulates :
      (b : Bool) (s t : System) (l : Option LockInfo)
      → IsSound s
      → StandsFor api s l
      → Step api b s t
      → Simulates api b l s t
  unfolding Simulates release_lease
  step-Simulates b s t l sound stands (tick d) =
      tick-Shows api s.store.clock d (lease_of s.store.host) l stands
  step-Simulates b s t l sound stands (read i) = (l, stay l, stands)
  step-Simulates b s t l sound stands (write h same) =
      (l, stay l, subst (λ o. Shows api s.store.clock o l) (sym same) stands)
  step-Simulates b s t l sound stands (clear h gone) =
      cleared-Shows api s.store.clock (lease_of h) l gone
  step-Simulates b s t l sound stands (take i h v machine controller c) =
      take-Simulates s l i h v machine controller sound c stands
  step-Simulates b s t l sound stands (release i h v c) =
      released-Simulates s l i v h (lease_of h) stands

-- A release that the API server takes leaves nobody with the lock, whoever has taken it since the
-- controller read its copy.
release_frees :
    (api : ℕ → Server Store) (s : System) (i : ℕ) (h : ByoHost) (v : ℕ) (text : String)
    → lease_of h ≡ some text
    → (api v).patch_host h (unleased (api v) h) s.store
      ≡ (stored (unleased (api v) s.store.host) s.store, none)
    → StandsFor api (after_release i (release_lease (api v) h s.store) s) none
unfolding release_lease release_found after_release Shows lease_valid
release_frees api s i h v text has done =
    let shown : Store → Bool = λ t. lease_valid (api 0) t.clock (lease_of t.host) in
    ap (λ found. shown (after_release i (release_found (api v) found h s.store) s).store) has
    ∙ ap (λ r. shown r.0) done
    ∙ ap (lease_valid (api 0) s.store.clock) (
        lookup-erase host_lease_annotation_key host_lease_annotation_key
          s.store.host.meta.annotations)

-- In every state that several controllers reach in any order of their calls, the lease on the host
-- stands for a lock. Each step is a step of that lock or leaves it as it is: it is taken only where
-- nobody holds it, and goes once 30 seconds have passed, by a write without a lease, or by a release,
-- which may be that of a controller that does not hold it. While somebody holds it, no try succeeds,
-- however old the copy that it is made with.
pub lease_refines_lock :
    (api : ℕ → Server Store)
    → ApiLaws api
    → (s : System) → Reach api s
    → ((l : Option LockInfo) × StandsFor api s l)
      × ((l : Option LockInfo) (b : Bool) (t : System)
          → StandsFor api s l
          → Step api b s t
          → (l' : Option LockInfo) × LockStep s.store.clock t.store.clock b l l'
            × StandsFor api t l')
      × ((k : LockInfo) (i : ℕ) (h : ByoHost) (v : ℕ) (machine controller : String)
          → s.copies i ≡ some (h, v)
          → StandsFor api s (some k)
          → (try_acquire_lease (api v) h machine controller s.store).1 ≢ acquired)
unfolding Simulates
lease_refines_lock api laws s r =
    let sound = Reach-IsSound api laws s r in
    (
      some-Shows api s.store.clock (lease_of s.store.host),
      λ l b t stands step. step-Simulates api laws b s t l sound stands step,
      λ k i h v machine controller c stands.
          held-fails api laws s k i h v machine controller sound c stands,
    )
