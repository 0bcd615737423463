-- ===== src/Renew/Version/Newer.antt =====
-- renew/version.rs: the comparison of versions.
use rxiu.Base.{
  ◌≡◌, ◌≢◌, ◌↔◌, ◌⊎◌, str_eq_iff, true, none, some, Ordering, arith, inl, inr, Option-cases,
}
use rxiu.Renew.Version.{Semver, VersionInfo, version_order, is_newer_than}

module _ (semver : Semver) where
  -- The order of semantic versions is total: the two directions agree.
  abbrev pub IsTotalOrder : Type 0
  IsTotalOrder =
      (x y : semver.Version)
      → ((semver.cmp x y ≡ Ordering.gt) ↔ (semver.cmp y x ≡ Ordering.lt))
        × ((semver.cmp x y ≡ Ordering.lt) ↔ (semver.cmp y x ≡ Ordering.gt))

  -- Neither version is known to precede the other.
  abbrev pub IsUnordered : VersionInfo → VersionInfo → Type 0
  IsUnordered a b =
      (version_order semver a b ≡ none) ⊎ (version_order semver a b ≡ some Ordering.eq)

  -- Where semantic versions are totally ordered, two binaries are each newer than the other exactly
  -- where their versions are equal or one of them is not a semantic version, and their hashes differ.
  pub is_newer_than-both :
      IsTotalOrder
      → (a b : VersionInfo)
      → ((is_newer_than semver a b ≡ true) × (is_newer_than semver b a ≡ true))
        ↔ (IsUnordered a b × (a.hash ≢ b.hash))
  unfolding is_newer_than version_order
  is_newer_than-both total a b = elim (Option-cases (semver.parse a.version)) [
    | inl na ↦ ground (arith, str_eq_iff a.hash b.hash, str_eq_iff b.hash a.hash)
    | inr (x, ex) ↦ elim (Option-cases (semver.parse b.version)) [
      | inl nb ↦ ground (arith, str_eq_iff a.hash b.hash, str_eq_iff b.hash a.hash)
      | inr (y, ey) ↦
          ground (arith, str_eq_iff a.hash b.hash, str_eq_iff b.hash a.hash, total x y, total y x)
    ]
  ]
