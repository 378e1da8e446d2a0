-- ===== src/MachineController/Lease/Sound.antt =====
-- The copies that the controllers have: one that is not out of date shows the lease of the store.
use mathlib.Core.Path.{subst}
use mathlib.Core.Option.{some-injective, none-ne-some}
use cluster_api_provider_bri.Prelude.{
  ℕ, ◌+◌, ◌≤◌, ◌==◌, ◌≡◌, ◌≢◌, sym, ap, ◌∙◌, refl, ◌⊎◌, inl, inr, String, Bool, Option, none, some,
  if_true, if_false, Bool-cases, arith,
}
use cluster_api_provider_bri.Api.Meta.{Error}
use cluster_api_provider_bri.Api.Host.{ByoHost}
use cluster_api_provider_bri.MachineController.Server.{Server}
use cluster_api_provider_bri.MachineController.Lease.{
  Acquired, acquired, held, error, leased, try_acquire_lease, release_found, release_lease,
}
use cluster_api_provider_bri.MachineController.Lease.Laws.{lease_of}
use cluster_api_provider_bri.MachineController.Lease.System.{
  Store, stored, ApiLaws, System, set_at, after_try, after_release, Step, tick, read, write, clear,
  take, release, Reach, start, later,
}
use cluster_api_provider_bri.MachineController.Lease.Tries.{won, lost, try-Tried}

set_at-cases {ℓ} :
    {A : Type ℓ} (f : ℕ → A) (i : ℕ) (x : A) (j : ℕ)
    → (i ≡ j) × (set_at f i x j ≡ x) ⊎ (i ≢ j) × (set_at f i x j ≡ f j)
set_at-cases f i x j = elim (Bool-cases (i == j)) [
  | inl same ↦ inl (ground arith, if_true _ _ same)
  | inr other ↦ inr (ground arith, if_false _ _ other)
]

pub record IsSound (s : System) : Type 0 where
  pub old : (i : ℕ) (h : ByoHost) (v : ℕ) → s.copies i ≡ some (h, v) → v ≤ s.store.version
  pub fresh :
      (i : ℕ) (h : ByoHost) (v : ℕ)
      → s.copies i ≡ some (h, v)
      → v ≡ s.store.version
      → lease_of h ≡ lease_of s.store.host

-- A copy after a change at one controller is that of the change, or an old one.
copy-cases :
    (s : System) (i : ℕ) (h : ByoHost) (v j : ℕ) (h' : ByoHost) (v' : ℕ)
    → set_at s.copies i (some (h, v)) j ≡ some (h', v')
    → (h ≡ h') × (v ≡ v') ⊎ (s.copies j ≡ some (h', v'))
copy-cases s i h v j h' v' c = elim (set_at-cases s.copies i (some (h, v)) j) [
  | inl (_, e) ↦ let p = some-injective _ _ (sym e ∙ c) in inl (ap (λ r. r.0) p, ap (λ r. r.1) p)
  | inr (_, e) ↦ inr (sym e ∙ c)
]

copy-dropped :
    (s : System) (i j : ℕ) (h' : ByoHost) (v' : ℕ)
    → set_at s.copies i none j ≡ some (h', v')
    → s.copies j ≡ some (h', v')
copy-dropped s i j h' v' c = elim (set_at-cases s.copies i none j) [
  | inl (_, e) ↦ absurd (none-ne-some _ (sym e ∙ c))
  | inr (_, e) ↦ sym e ∙ c
]

-- A store of the same version, or of a later one that makes every copy out of date.
stored-IsSound :
    (s : System) (h : ByoHost) → IsSound s → IsSound (record s { store = stored h s.store })
stored-IsSound s h sound = record {
  old = λ j h v c. let le = sound.old j h v c in omega arith;
  fresh = λ j h v c e. let le = sound.old j h v c in absurd (omega arith);
}

dropped-IsSound :
    (s : System) (i : ℕ) → IsSound s → IsSound (record s { copies = set_at s.copies i none })
dropped-IsSound s i sound = record {
  old = λ j h v c. sound.old j h v (copy-dropped s i j h v c);
  fresh = λ j h v c e. sound.fresh j h v (copy-dropped s i j h v c) e;
}

copied-IsSound :
    (s : System) (i : ℕ) (h : ByoHost) (v : ℕ)
    → IsSound s
    → v ≤ s.store.version
    → lease_of h ≡ lease_of s.store.host
    → IsSound (record s { copies = set_at s.copies i (some (h, v)) })
copied-IsSound s i h v sound le same = record {
  old = λ j h' v' c. elim (copy-cases s i h v j h' v' c) [
    | inl (_, e) ↦ omega arith
    | inr before ↦ sound.old j h' v' before
  ];
  fresh = λ j h' v' c e. elim (copy-cases s i h v j h' v' c) [
    | inl (shows, _) ↦ ap lease_of (sym shows) ∙ same
    | inr before ↦ sound.fresh j h' v' before e
  ];
}

module _ (api : ℕ → Server Store) (laws : ApiLaws api) where
  failed_try-IsSound :
      (s : System) (i v : ℕ) (h : ByoHost) (b : Acquired)
      → b ≢ acquired
      → IsSound s
      → IsSound (after_try i v ((s.store, h), b) s)
  unfolding after_try
  failed_try-IsSound s i v h acquired other sound = absurd (other refl)
  failed_try-IsSound s i v h held other sound = dropped-IsSound s i sound
  failed_try-IsSound s i v h (error _) other sound = dropped-IsSound s i sound

  won-IsSound :
      (s : System) (i v : ℕ) (h : ByoHost)
      → v ≡ s.store.version
      → IsSound s
      → IsSound (after_try i v ((stored h s.store, h), acquired) s)
  unfolding after_try
  won-IsSound s i v h same sound =
      copied-IsSound (record s { store = stored h s.store }) i h (v + 1) (stored-IsSound s h sound)
        (omega arith) refl

  take-IsSound :
      (s : System) (i : ℕ) (h : ByoHost) (v : ℕ) (machine controller : String)
      → IsSound s
      → IsSound (after_try i v (try_acquire_lease (api v) h machine controller s.store) s)
  take-IsSound s i h v machine controller sound =
      elim (try-Tried api laws v h machine controller s.store) [
        | won text same free reads eq ↦
            subst (λ r. IsSound (after_try i v r s)) (sym eq)
              (won-IsSound s i v (leased (api v) text h) same sound)
        | lost h' b other eq ↦
            subst (λ r. IsSound (after_try i v r s)) (sym eq)
              (failed_try-IsSound s i v h' b other sound)
      ]

  released-IsSound :
      (s : System) (i : ℕ) (r : (Store × ByoHost) × Option Error) (t : Store)
      → r.0.0 ≡ t
      → IsSound (record s { store = t })
      → IsSound (after_release i r s)
  unfolding after_release
  released-IsSound s i ((u, h), e) t same sound =
      dropped-IsSound (record s { store = u }) i
        (subst (λ x. IsSound (record s { store = x })) (sym same) sound)

  release-IsSound :
      (s : System) (i : ℕ) (h : ByoHost) (v : ℕ) (found : Option String)
      → IsSound s
      → IsSound (after_release i (release_found (api v) found h s.store) s)
  unfolding release_found
  release-IsSound s i h v none sound = released-IsSound s i _ s.store refl sound
  release-IsSound s i h v (some _) sound = elim (laws.patch_lease v h s.store) [
    | inl call ↦ released-IsSound s i _ _ (ap (λ r. r.0) call) (stored-IsSound s _ sound)
    | inr (e, call) ↦ released-IsSound s i _ s.store (ap (λ r. r.0) call) sound
  ]

  step-IsSound : (b : Bool) (s t : System) → IsSound s → Step api b s t → IsSound t
  unfolding release_lease
  step-IsSound b s t sound (tick d) = record { old = sound.old; fresh = sound.fresh }
  step-IsSound b s t sound (read i) =
      copied-IsSound s i s.store.host s.store.version sound (omega arith) refl
  step-IsSound b s t sound (write h same) = stored-IsSound s h sound
  step-IsSound b s t sound (clear h gone) = stored-IsSound s h sound
  step-IsSound b s t sound (take i h v machine controller c) =
      take-IsSound s i h v machine controller sound
  step-IsSound b s t sound (release i h v c) = release-IsSound s i h v (lease_of h) sound

  pub Reach-IsSound : (s : System) → Reach api s → IsSound s
  Reach-IsSound s (start t) = record {
    old = λ i h v c. absurd (none-ne-some _ c);
    fresh = λ i h v c e. absurd (none-ne-some _ c);
  }
  Reach-IsSound s (later r step) = step-IsSound _ _ s (Reach-IsSound _ r) step
