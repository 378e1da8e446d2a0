-- ===== src/Installer/Lists.antt =====
-- What the registry lists.
use mathlib.Core.Option.{none-ne-some, some-injective}
use cluster_api_provider_bri.Prelude.{
  ◌≡◌, refl, ap, ◌∙◌, ◌⊎◌, inl, inr, ℕ, zero, suc, String, Bool, true, false, ◌&&◌, ◌||◌, Option,
  none, some, [], ◌∷◌, map, get_elem?, In, str_eq, is_some, Bool-cases, arith, eq_iff,
}
use cluster_api_provider_bri.Prelude.Dict.{Dict, lookup, insert, lookup-insert}
use cluster_api_provider_bri.Installer.{
  Registry, or_empty, with_bundle, add_bundle_installer, resolve_os_to_os_bundle, list_found,
  list_k8s,
}

-- Whether the registry has an installer for the bundle and the version.
pub supports : String → String → Registry → Bool
supports os version r = is_some (lookup version (or_empty (lookup os r.installers)))

with_bundle-lookup :
    (d : Dict (Dict (Unit {0}))) (os other : String)
    → or_empty (lookup other (with_bundle d os)) ≡ or_empty (lookup other d)
unfolding with_bundle
with_bundle-lookup d os other = ground (arith, eq_iff os other, lookup-insert other os [] d)

-- The two ways out of `add_bundle_installer`.
add-there :
    (os version : String) (r : Registry)
    → supports os version r ≡ true
    → (add_bundle_installer os version r).0.installers ≡ with_bundle r.installers os
unfolding supports add_bundle_installer
add-there os version r there =
    rw (ap (λ d. is_some (lookup version d)) (with_bundle-lookup r.installers os os) ∙ there) refl

add-new :
    (os version : String) (r : Registry)
    → supports os version r ≡ false
    → (add_bundle_installer os version r).0.installers
      ≡ insert os
          (insert version tt (or_empty (lookup os (with_bundle r.installers os))))
          (with_bundle r.installers os)
unfolding supports add_bundle_installer
add-new os version r new =
    rw (ap (λ d. is_some (lookup version d)) (with_bundle-lookup r.installers os os) ∙ new) refl

add-error :
    (os version : String) (r : Registry)
    → is_some (add_bundle_installer os version r).1 ≡ supports os version r
unfolding supports add_bundle_installer
add-error os version r = ground (arith, with_bundle-lookup r.installers os os)

in_place :
    (os os2 version version2 : String) (d : Dict (Dict (Unit {0})))
    → is_some (
        lookup version2
          (or_empty (lookup os2 (insert os (insert version tt (or_empty (lookup os d))) d))))
      ≡ ((str_eq os os2 && str_eq version version2)
          || is_some (lookup version2 (or_empty (lookup os2 d))))
in_place os os2 version version2 d = ground (
  arith,
  eq_iff os os2,
  eq_iff version version2,
  lookup-insert os2 os (insert version tt (or_empty (lookup os d))) d,
  lookup-insert version2 version tt (or_empty (lookup os d)),
)

supported_twice :
    (os version os2 version2 : String) (r : Registry)
    → supports os version r ≡ true
    → supports os2 version2 r
      ≡ ((str_eq os os2 && str_eq version version2) || supports os2 version2 r)
unfolding supports
supported_twice os version os2 version2 r there =
    ground (arith, eq_iff os os2, eq_iff version version2)

found_in : String → String → Dict (Dict (Unit {0})) → Bool
found_in os version installers = is_some (lookup version (or_empty (lookup os installers)))

supports-add :
    (os version : String) (r : Registry) (os2 version2 : String)
    → supports os2 version2 (add_bundle_installer os version r).0
      ≡ ((str_eq os os2 && str_eq version version2) || supports os2 version2 r)
unfolding supports found_in
supports-add os version r os2 version2 = elim (Bool-cases (supports os version r)) [
  | inl there ↦
      ap (found_in os2 version2) (add-there os version r there)
      ∙ ap (λ d. is_some (lookup version2 d)) (with_bundle-lookup r.installers os os2)
      ∙ supported_twice os version os2 version2 r there
  | inr new ↦
      ap (found_in os2 version2) (add-new os version r new)
      ∙ in_place os os2 version version2 (with_bundle r.installers os)
      ∙ ap (λ d. (str_eq os os2 && str_eq version version2) || is_some (lookup version2 d))
          (with_bundle-lookup r.installers os os2)
]

-- Adding an installer makes it supported and changes no other; it fails exactly where the installer
-- is there already.
pub add_bundle_installer-supports :
    (os version : String) (r : Registry) (os2 version2 : String)
    → (supports os2 version2 (add_bundle_installer os version r).0
        ≡ ((str_eq os os2 && str_eq version version2) || supports os2 version2 r))
      × (is_some (add_bundle_installer os version r).1 ≡ supports os version r)
add_bundle_installer-supports os version r os2 version2 =
    (supports-add os version r os2 version2, add-error os version r)

keys-lookup :
    (version : String) (d : Dict (Unit {0})) (i : ℕ)
    → get_elem? (map (λ v. v.0) d) i ≡ some version
    → is_some (lookup version d) ≡ true
unfolding lookup
keys-lookup version [] i e = absurd (none-ne-some version e)
keys-lookup version ((k, u) ∷ d) zero e =
    let same = some-injective k version e in ground (arith, eq_iff k version)
keys-lookup version ((k, u) ∷ d) (suc i) e = ground (arith, keys-lookup version d i e)

module _ (match_string : String → String → Bool) where
  list_found-supports :
      (found : Option (Dict (Unit {0}))) (r : Registry) (os version : String)
      → lookup os r.installers ≡ found
      → In version (list_found match_string found r os)
      → (supports os version r ≡ true)
        ⊎ (supports (resolve_os_to_os_bundle match_string r os) version r ≡ true)
  unfolding supports list_found
  list_found-supports (some versions) r os version e listed =
      inl (rw e (keys-lookup version versions listed.0 listed.1))
  list_found-supports none r os version e listed = inr (keys-lookup version _ listed.0 listed.1)

  -- A version that is listed for the name of a bundle or of an operating system has an installer
  -- for the bundle of this name, or for the one that the filters give the name.
  pub list_k8s-supports :
      (r : Registry) (os version : String)
      → In version (list_k8s match_string r os)
      → (supports os version r ≡ true)
        ⊎ (supports (resolve_os_to_os_bundle match_string r os) version r ≡ true)
  unfolding list_k8s
  list_k8s-supports r os version listed =
      list_found-supports (lookup os r.installers) r os version refl listed
