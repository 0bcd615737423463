-- ===== src/Renew/Version.antt =====
-- renew/version.rs: what a node says of its binary, and when one binary counts as newer.
pub mod Newer
use rxiu.Base.{
  ℕ, ◌+◌, ◌%◌, ◌^◌, Str, Bytes, str_eq, Bool, true, false, List, [], ◌∷◌, ◌++◌, Option, none, some,
  if◌then◌else◌, not, ◌&&◌, is_nil, length, Ordering,
}
use rxiu.External.{Sha256}

-- The `semver` crate: `Version::parse`, and the order of versions.
pub record Semver : Type 1 where
  pub Version : Type 0
  pub parse : Str → Option Version
  pub cmp : Version → Version → Ordering

pub record VersionInfo : Type 0 where
  pub version : Str
  pub hash : Str
  pub size : ℕ
  pub target_os : Str
  pub target_arch : Str

unfoldable pub is_compatible_with : VersionInfo → VersionInfo → Bool
is_compatible_with a b = str_eq a.target_os b.target_os && str_eq a.target_arch b.target_arch

module _ (semver : Semver) where
  -- The order of the two versions, where both parse.
  unfoldable pub version_order : VersionInfo → VersionInfo → Option Ordering
  version_order a b = elim (semver.parse a.version) [
    | none ↦ none
    | some self_ver ↦ elim (semver.parse b.version) [
      | none ↦ none
      | some other_ver ↦ some (semver.cmp self_ver other_ver)
    ]
  ]

  unfoldable pub is_newer_than : VersionInfo → VersionInfo → Bool
  unfolding version_order
  is_newer_than a b = elim (version_order a b) [
    | none ↦ not (str_eq a.hash b.hash)
    | some Ordering.gt ↦ true
    | some Ordering.lt ↦ false
    | some Ordering.eq ↦ not (str_eq a.hash b.hash)
  ]

-- The variables of the loop of `hash_file`: the bytes fed to the hasher, and `total_size`. The reads
-- are the results of the successive `read` calls; the first empty one ends the loop.
unfoldable pub hash_reads : List Bytes → Bytes × ℕ → Bytes × ℕ
hash_reads [] s = s
hash_reads (content ∷ rest) (hashed, total_size) =
    if is_nil content
    then (hashed, total_size)
    else hash_reads rest (hashed ++ content, (total_size + length content) % 2 ^ 64)

unfoldable pub hash_file : Sha256 → List Bytes → Str × ℕ
unfolding hash_reads
hash_file sha reads =
    let (hashed, total_size) = hash_reads reads ([], 0) in
    (sha.lower_hex (sha.digest hashed), total_size)

-- `VersionInfo::current`, from the build's constants and the reads of the running binary.
unfoldable pub current : Sha256 → Str → Str → Str → List Bytes → VersionInfo
unfolding hash_file
current sha build_version os arch reads =
    let (hash, size) = hash_file sha reads in
    record { version = build_version; hash = hash; size = size; target_os = os; target_arch = arch }

-- `Updater::verify_binary`
unfoldable pub verify_binary : Sha256 → List Bytes → Str → Bool
unfolding hash_reads
verify_binary sha reads expected_hash =
    str_eq (sha.lower_hex (sha.digest (hash_reads reads ([], 0)).0)) expected_hash
