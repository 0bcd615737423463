-- ===== src/Renew/Update.antt =====
-- daemon/renew.rs: the check for updates, and the replacement of the running binary (the Unix branch).
-- Disk faults do not occur, apart from the staging file that cannot be created.
pub mod Safety
use rxiu.Base.{
  ℕ, ◌-◌, ◌/◌, Str, Bytes, str_eq, codes, Bool, true, false, List, [], ◌∷◌, ◌++◌, Option, none,
  some, if◌then◌else◌, not, ◌&&◌, leb, ltb, length, take, get_elem?, is_nil,
}
use rxiu.Base.Assoc.{insert, erase}
use rxiu.Error.{Result, ok, err, io}
use rxiu.External.{Sha256}
use rxiu.Rs.Types.{is_component}
use rxiu.Renew.Version.{VersionInfo, Semver, is_compatible_with, is_newer_than}
use rxiu.Renew.Chunk.{Fetch, download}

-- `RenewState`, with the part of the disk that an update works on: the running binary, its backup and
-- the staging directory. `last_check` is in nanoseconds, the interval in seconds.
pub record Node : Type 0 where
  pub renew_enabled : Bool
  pub renew_check_interval : ℕ
  pub local_version : Option VersionInfo
  pub last_check : ℕ
  pub update_in_progress : Bool
  pub exe : Bytes
  pub backup : Option Bytes
  pub staged : List (Str × Bytes)

-- How a call ends: with a result, in a panic, in the restart of the process, or (the fuel having run
-- out) not yet.
pub data Outcome : Type 0 where
  returned : Result (Unit {0}) → Outcome
  panicked restarted unfinished : Outcome

-- `&hash[..8]`: it panics where there are less than 8 bytes, or where a character goes on after them.
unfoldable pub hash_prefix : Str → Option Str
hash_prefix hash = if ltb (length hash) 8 then none else elim (get_elem? hash 8) [
  | none ↦ some (take 8 hash)
  | some b ↦ if leb 128 b && ltb b 192 then none else some (take 8 hash)
]

-- After the loop: the hash is verified, and the binary replaced. `exec_ok` says whether `exec`
-- starts the new process.
unfoldable pub apply_download : Sha256 → Bool → VersionInfo → Str → Bytes → Node → Outcome × Node
apply_download sha exec_ok version staging_path file s =
    if str_eq (sha.lower_hex (sha.digest file)) version.hash
    then (
      if exec_ok then restarted else returned (err (io (codes "Failed to restart daemon"))),
      record s { exe = file; backup = some s.exe; staged = erase staging_path s.staged },
    )
    else (
      returned (err (io (codes "Hash mismatch"))),
      record s { staged = erase staging_path s.staged },
    )

-- What is done while `update_in_progress` is set.
unfoldable pub update_body : Sha256 → Fetch → ℕ → Bool → VersionInfo → Node → Outcome × Node
unfolding hash_prefix apply_download download
update_body sha fetch fuel exec_ok version s = elim (hash_prefix version.hash) [
  | none ↦ (panicked, s)
  | some hash8 ↦
      let staging_path = codes "rxiu-daemon." ++ hash8 in
      let created = record s { staged = insert staging_path [] s.staged } in
      if not (is_component staging_path)
      then (returned (err (io (codes "No such file or directory (os error 2)"))), s)
      else elim (download fetch fuel 0 0 []) [
        | none ↦ (unfinished, created)
        | some (err e) ↦
            (returned (err e), record created { staged = erase staging_path created.staged })
        | some (ok file) ↦
            apply_download sha exec_ok version staging_path file
              (record created { staged = insert staging_path file created.staged })
      ]
]

-- The scope guard resets the flag on every way out, a panic included; a restarted process starts
-- with the flag off.
unfoldable pub leave : Outcome × Node → Outcome × Node
leave (unfinished, s) = (unfinished, s)
leave (returned r, s) = (returned r, record s { update_in_progress = false })
leave (panicked, s) = (panicked, record s { update_in_progress = false })
leave (restarted, s) = (restarted, record s { update_in_progress = false })

unfoldable pub download_and_apply_update :
    Sha256 → Fetch → ℕ → Bool → VersionInfo → Node → Outcome × Node
unfolding update_body leave
download_and_apply_update sha fetch fuel exec_ok version s =
    if s.update_in_progress
    then (returned (ok tt), s)
    else leave (update_body sha fetch fuel exec_ok version (record s { update_in_progress = true }))

-- A peer as `check_for_updates` sees it: its answers to the two requests.
pub record RenewPeer : Type 0 where
  pub get_version : Result VersionInfo
  pub fetch : Fetch

-- An error is logged, and dropped.
abbrev pub drop_error : Outcome → Outcome
drop_error (returned r) = returned (ok tt)
drop_error panicked = panicked
drop_error restarted = restarted
drop_error unfinished = unfinished

abbrev pub logged : Outcome × Node → Outcome × Node
logged (outcome, s) = (drop_error outcome, s)

-- The configuration, where it loads.
abbrev pub configured : Option (Bool × ℕ) → Node → Node
configured none s = s
configured (some (enabled, interval)) s = record s {
  renew_enabled = enabled;
  renew_check_interval = interval;
}

module _ (sha : Sha256) (semver : Semver) (fuel : ℕ) (exec_ok : Bool) where
  unfoldable pub check_peers : VersionInfo → List RenewPeer → Node → Outcome × Node
  unfolding download_and_apply_update is_compatible_with is_newer_than
  check_peers local_version [] s = (returned (ok tt), s)
  check_peers local_version (peer ∷ peers) s =
      let rest = check_peers local_version peers s in
      elim peer.get_version [
        | err e ↦ rest
        | ok remote_version ↦
            if not (is_compatible_with remote_version local_version)
            then rest
            else if is_newer_than semver remote_version local_version
            then logged (download_and_apply_update sha peer.fetch fuel exec_ok remote_version s)
            else rest
      ]

  unfoldable pub check_for_updates : ℕ → List RenewPeer → Node → Outcome × Node
  unfolding check_peers
  check_for_updates now peers s =
      let s' = record s { last_check = now } in
      elim s'.local_version [
        | none ↦ (returned (ok tt), s')
        | some local_version ↦ check_peers local_version peers s'
      ]

  -- A turn of the manager's loop: the configuration, where it loads, the time at the test of the
  -- interval and the time that the check stores.
  unfoldable pub tick : Option (Bool × ℕ) → ℕ → ℕ → List RenewPeer → Node → Outcome × Node
  unfolding check_for_updates
  tick config now check_now peers s =
      let s' = configured config s in
      if not s'.renew_enabled
      then (returned (ok tt), s')
      else if ltb ((now - s'.last_check) / 1_000_000_000) s'.renew_check_interval
      then (returned (ok tt), s')
      else logged (check_for_updates check_now peers s')
