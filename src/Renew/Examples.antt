-- ===== src/Renew/Examples.antt =====
-- Runs of the update, and its theorems at concrete data.
use rxiu.Base.{
  ℕ, ◌≡◌, ◌⊎◌, ◌*◌, refl, Bytes, codes, str_eq, true, false, [], ◌∷◌, ◌++◌, none, some, arith,
}
use Prim.Native.Nat.{compare}
use rxiu.Error.{ok}
use rxiu.Rs.Types.{is_component}
use rxiu.Renew.Version.{Semver, VersionInfo, is_newer_than, version_order}
use rxiu.Renew.Chunk.{download}
use rxiu.Renew.Chunk.Transfer.{serve, download-serve}
use rxiu.Renew.Update.{
  Node, unfinished, restarted, RenewPeer, hash_prefix, download_and_apply_update, configured, tick,
}
use rxiu.Renew.Update.Safety.{
  IsReplacedOnlyBy, IsReplacedByOffer, tick-safe, download_and_apply_update-serve,
  download_and_apply_update-safe,
}
use rxiu.Samples.{identity_sha}

-- A version is one digit.
abbrev digits : Semver
digits = record {
  Version = ℕ;
  parse = λ s. elim s [ [] ↦ none | a ∷ rest ↦ elim rest [ [] ↦ some a | _ ∷ _ ↦ none ] ];
  cmp = compare;
}

abbrev local_build : VersionInfo
local_build = record {
  version = codes "V26-0131.1530";
  hash = codes "0123456789";
  size = 3;
  target_os = codes "linux";
  target_arch = codes "x86_64";
}

-- Another build; its version is no semantic version either.
abbrev other_build : VersionInfo
other_build = record local_build { version = codes "V26-0101.0900"; hash = codes "abcdefghij" }

-- A build is newer than a build of the day after it.
older_is_newer : is_newer_than digits other_build local_build ≡ true
unfolding is_newer_than version_order str_eq
older_is_newer = refl

-- Reads of one byte.
abbrev slow : ℕ → ℕ → ℕ
slow call offset = 1

abbrev new_exe : Bytes
new_exe = codes "abcdefghij"

download-serve_example : download (serve slow new_exe) 11 0 0 [] ≡ some (ok new_exe)
download-serve_example = download-serve slow new_exe 11 0 (omega arith) (omega arith)

abbrev node : Node
node = record {
  renew_enabled = true;
  renew_check_interval = 300;
  local_version = some local_build;
  last_check = 0;
  update_in_progress = false;
  exe = 1 ∷ 2 ∷ 3 ∷ [];
  backup = none;
  staged = [];
}

abbrev peer : RenewPeer
peer = record { get_version = ok other_build; fetch = serve slow new_exe }

download_and_apply_update-safe_example :
    IsReplacedOnlyBy identity_sha other_build.hash node
      (download_and_apply_update identity_sha peer.fetch 20 true other_build node).1
    × (((download_and_apply_update identity_sha peer.fetch 20 true other_build node).0 ≡ unfinished)
        ⊎ ((download_and_apply_update identity_sha peer.fetch 20 true other_build
              node).1.update_in_progress
            ≡ false))
download_and_apply_update-safe_example =
    download_and_apply_update-safe identity_sha peer.fetch 20 true other_build node

prefix_other : hash_prefix other_build.hash ≡ some (codes "abcdefgh")
unfolding hash_prefix
prefix_other = refl

staging_name : is_component (codes "rxiu-daemon." ++ codes "abcdefgh") ≡ true
unfolding is_component
staging_name = refl

download_and_apply_update-serve_example :
    ((download_and_apply_update identity_sha (serve slow new_exe) 20 true other_build node).0
      ≡ restarted)
    × ((download_and_apply_update identity_sha (serve slow new_exe) 20 true other_build node).1.exe
        ≡ new_exe)
    × ((download_and_apply_update identity_sha
          (serve slow new_exe)
          20
          true
          other_build
          node).1.backup
        ≡ some (1 ∷ 2 ∷ 3 ∷ []))
    × ((download_and_apply_update identity_sha
          (serve slow new_exe)
          20
          true
          other_build
          node).1.update_in_progress
        ≡ false)
download_and_apply_update-serve_example =
    download_and_apply_update-serve identity_sha slow new_exe 20 other_build (codes "abcdefgh") node
      (omega arith) (omega arith) refl prefix_other staging_name refl

abbrev minutes : ℕ
minutes = 60_000_000_000

tick-safe_example :
    ((tick identity_sha digits 20 true none (10 * minutes) 0 (peer ∷ []) node).1
      ≡ configured none node)
    ⊎ (((configured none node).renew_enabled ≡ true)
        × IsReplacedByOffer identity_sha digits local_build
            (peer ∷ [])
            (configured none node)
            (tick identity_sha digits 20 true none (10 * minutes) 0 (peer ∷ []) node).1)
tick-safe_example =
    tick-safe identity_sha digits local_build 20 true none (10 * minutes) 0 (peer ∷ []) node refl
