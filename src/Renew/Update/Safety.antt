-- ===== src/Renew/Update/Safety.antt =====
-- daemon/renew.rs: when the running binary changes, and to what.
use rxiu.Base.{
  ℕ, ◌≡◌, ◌⊎◌, inl, inr, refl, sym, subst, ◌∙◌, ◌-◌, ◌/◌, ltb, Str, Bytes, str_eq_iff, Bool, true,
  false, List, [], ◌∷◌, Option, none, some, arith, Option-cases, Bool-cases, Any, ◌<◌, ◌^◌, length,
  codes, ◌++◌,
}
use rxiu.Error.{ok, Result-cases}
use rxiu.External.{Sha256}
use rxiu.Rs.Types.{is_component}
use rxiu.Renew.Version.{VersionInfo, Semver, is_compatible_with, is_newer_than}
use rxiu.Renew.Chunk.{Fetch, download}
use rxiu.Renew.Chunk.Transfer.{serve, download-serve}
use rxiu.Renew.Update.{
  Node, Outcome, logged, configured, returned, panicked, restarted, unfinished, hash_prefix,
  apply_download, update_body, leave, download_and_apply_update, RenewPeer, check_peers,
  check_for_updates, tick,
}

-- The binary is left alone, or replaced by one of that hash with the old one as the backup.
abbrev pub IsReplacedOnlyBy : Sha256 → Str → Node → Node → Type 0
IsReplacedOnlyBy sha hash s t =
    ((t.exe ≡ s.exe) × (t.backup ≡ s.backup))
    ⊎ ((sha.lower_hex (sha.digest t.exe) ≡ hash) × (t.backup ≡ some s.exe))

configured-local :
    (config : Option (Bool × ℕ)) (s : Node) → (configured config s).local_version ≡ s.local_version
configured-local none s = refl
configured-local (some (enabled, interval)) s = refl

module _ (sha : Sha256) where
  update_body-safe :
      (fetch : Fetch) (fuel : ℕ) (exec_ok : Bool) (version : VersionInfo) (s : Node)
      → IsReplacedOnlyBy sha version.hash s (update_body sha fetch fuel exec_ok version s).1
  unfolding update_body apply_download
  update_body-safe fetch fuel exec_ok version s = elim (Option-cases (hash_prefix version.hash)) [
    | inl bad ↦ ground (arith, bad)
    | inr (hash8, e) ↦ elim (Bool-cases (is_component (codes "rxiu-daemon." ++ hash8))) [
      | inl creatable ↦ elim (Option-cases (download fetch fuel 0 0 [])) [
        | inl more ↦ ground (arith, e, creatable, more)
        | inr (some_result, d) ↦ elim (Result-cases some_result) [
          | inl (file, r) ↦
              ground (
                arith,
                e,
                creatable,
                d,
                r,
                str_eq_iff (sha.lower_hex (sha.digest file)) version.hash,
              )
          | inr (error, r) ↦ ground (arith, e, creatable, d, r)
        ]
      ]
      | inr failed ↦ ground (arith, e, failed)
    ]
  ]

  leave-safe :
      (r : Outcome × Node)
      → ((leave r).1.exe ≡ r.1.exe)
        × ((leave r).1.backup ≡ r.1.backup)
        × ((leave r).0 ≡ r.0)
        × ((r.0 ≡ unfinished) ⊎ ((leave r).1.update_in_progress ≡ false))
  unfolding leave
  leave-safe (unfinished, s) = ground arith
  leave-safe (returned r, s) = ground arith
  leave-safe (panicked, s) = ground arith
  leave-safe (restarted, s) = ground arith

  -- Whatever a peer answers, an update leaves the binary and its backup alone, or puts in place a
  -- binary of the announced hash and keeps the old one as the backup; and unless it is still
  -- running, no update is marked as in progress after it that was not before.
  pub download_and_apply_update-safe :
      (fetch : Fetch) (fuel : ℕ) (exec_ok : Bool) (version : VersionInfo) (s : Node)
      → let (outcome, t) = download_and_apply_update sha fetch fuel exec_ok version s in
        IsReplacedOnlyBy sha version.hash s t
        × ((outcome ≡ unfinished) ⊎ (t.update_in_progress ≡ s.update_in_progress))
  unfolding download_and_apply_update
  download_and_apply_update-safe fetch fuel exec_ok version s =
      let marked : Node = record s { update_in_progress = true } in
      let r = update_body sha fetch fuel exec_ok version marked in
      ground (arith, leave-safe r, update_body-safe fetch fuel exec_ok version marked)

  -- A peer that serves a binary of less than 2^64 bytes as `get_binary_chunk` does, and announces its
  -- hash, whose first 8 bytes name a file: where no update is in progress and `exec` succeeds, the update
  -- ends in a restart with the peer's binary in place of the old one, which is the backup.
  pub download_and_apply_update-serve :
      (short : ℕ → ℕ → ℕ) (exe : Bytes) (fuel : ℕ) (version : VersionInfo) (hash8 : Str) (s : Node)
      → length exe < 2 ^ 64
      → length exe < fuel
      → version.hash ≡ sha.lower_hex (sha.digest exe)
      → hash_prefix version.hash ≡ some hash8
      → is_component (codes "rxiu-daemon." ++ hash8) ≡ true
      → s.update_in_progress ≡ false
      → let (outcome, t) = download_and_apply_update sha (serve short exe) fuel true version s in
        (outcome ≡ restarted)
        × (t.exe ≡ exe)
        × (t.backup ≡ some s.exe)
        × (t.update_in_progress ≡ false)
  unfolding download_and_apply_update update_body leave apply_download
  download_and_apply_update-serve short exe fuel version hash8 s small enough same prefix creatable
        idle =
      ground (
        arith,
        idle,
        prefix,
        creatable,
        download-serve short exe fuel 0 small enough,
        str_eq_iff (sha.lower_hex (sha.digest exe)) version.hash,
      )

  -- A peer that announces a compatible and newer version of that hash.
  abbrev pub IsOfferedBy : Semver → VersionInfo → Str → RenewPeer → Type 0
  IsOfferedBy semver local_version hash peer =
      (v : VersionInfo) × (peer.get_version ≡ ok v)
      × (is_compatible_with v local_version ≡ true)
      × (is_newer_than semver v local_version ≡ true)
      × (v.hash ≡ hash)

  module _ (semver : Semver) (local_version : VersionInfo) where
    -- The binary is left alone, or one of the peers has offered the binary that replaced it.
    abbrev pub IsReplacedByOffer : List RenewPeer → Node → Node → Type 0
    IsReplacedByOffer peers s t =
        ((t.exe ≡ s.exe) × (t.backup ≡ s.backup))
        ⊎ ((t.backup ≡ some s.exe)
            × Any (IsOfferedBy semver local_version (sha.lower_hex (sha.digest t.exe))) peers)

    IsReplacedByOffer-cons :
        (peer : RenewPeer) (peers : List RenewPeer) (s t : Node)
        → IsReplacedByOffer peers s t
        → IsReplacedByOffer (peer ∷ peers) s t
    IsReplacedByOffer-cons peer peers s t (inl same) = inl same
    IsReplacedByOffer-cons peer peers s t (inr (backup, offered)) = inr (backup, inr offered)

    IsReplacedByOffer-head :
        (peer : RenewPeer) (peers : List RenewPeer) (v : VersionInfo) (s t : Node)
        → peer.get_version ≡ ok v
        → is_compatible_with v local_version ≡ true
        → is_newer_than semver v local_version ≡ true
        → IsReplacedOnlyBy sha v.hash s t
        → IsReplacedByOffer (peer ∷ peers) s t
    IsReplacedByOffer-head peer peers v s t said compatible newer (inl same) = inl same
    IsReplacedByOffer-head peer peers v s t said compatible newer (inr (hash, backup)) =
        inr (backup, inl (v, said, compatible, newer, sym hash))

    check_peers-safe :
        (fuel : ℕ) (exec_ok : Bool) (peers : List RenewPeer) (s : Node)
        → IsReplacedByOffer peers s (check_peers sha semver fuel exec_ok local_version peers s).1
    unfolding check_peers
    check_peers-safe fuel exec_ok [] s = inl (refl, refl)
    check_peers-safe fuel exec_ok (peer ∷ peers) s =
        let rest = check_peers sha semver fuel exec_ok local_version peers s in
        let all = check_peers sha semver fuel exec_ok local_version (peer ∷ peers) s in
        let skipped =
          IsReplacedByOffer-cons peer peers s rest.1 (check_peers-safe fuel exec_ok peers s) in
        let skip =
          λ (e : all ≡ rest). subst (λ r. IsReplacedByOffer (peer ∷ peers) s r.1) (sym e) skipped in
        elim (Result-cases peer.get_version) [
          | inr (e, failed) ↦ skip (rw failed)
          | inl (v, said) ↦ elim (Bool-cases (is_compatible_with v local_version)) [
            | inr incompatible ↦ skip (rw (said, incompatible))
            | inl compatible ↦ elim (Bool-cases (is_newer_than semver v local_version)) [
              | inr old ↦ skip (rw (said, compatible, old))
              | inl newer ↦
                  let update = download_and_apply_update sha peer.fetch fuel exec_ok v s in
                  let e : all ≡ logged update = rw (said, compatible, newer) in
                  subst (λ r. IsReplacedByOffer (peer ∷ peers) s r.1) (sym e)
                    (IsReplacedByOffer-head peer peers v s update.1 said compatible newer
                      (download_and_apply_update-safe peer.fetch fuel exec_ok v s).0)
            ]
          ]
        ]

    check_for_updates-safe :
        (fuel : ℕ) (exec_ok : Bool) (now : ℕ) (peers : List RenewPeer) (s : Node)
        → s.local_version ≡ some local_version
        → IsReplacedByOffer peers s (check_for_updates sha semver fuel exec_ok now peers s).1
    unfolding check_for_updates
    check_for_updates-safe fuel exec_ok now peers s known =
        let s' : Node = record s { last_check = now } in
        let e : check_for_updates sha semver fuel exec_ok now peers s
            ≡ check_peers sha semver fuel exec_ok local_version peers s' =
          rw known in
        subst (λ r. IsReplacedByOffer peers s r.1) (sym e) (check_peers-safe fuel exec_ok peers s')

    -- Where the local version is known, a turn of the manager's loop only takes over the configuration, or, updates being enabled,
    -- leaves the binary and its backup alone or puts in place a binary whose hash a peer announced in
    -- a version for which `is_compatible_with` and `is_newer_than` hold against the local one, with the old binary
    -- as the backup. `is_newer_than` holds of a later version and, where the two versions are equal or do not
    -- parse, of any other hash.
    pub tick-safe :
        (fuel : ℕ) (exec_ok : Bool) (config : Option (Bool × ℕ)) (now check_now : ℕ)
        (peers : List RenewPeer) (s : Node)
        → s.local_version ≡ some local_version
        → let t = (tick sha semver fuel exec_ok config now check_now peers s).1 in
          (t ≡ configured config s)
          ⊎ (((configured config s).renew_enabled ≡ true)
              × IsReplacedByOffer peers (configured config s) t)
    unfolding tick
    tick-safe fuel exec_ok config now check_now peers s known =
        let c = configured config s in
        let result = tick sha semver fuel exec_ok config now check_now peers s in
        let early = ltb ((now - c.last_check) / 1_000_000_000) c.renew_check_interval in
        let known' : c.local_version ≡ some local_version = configured-local config s ∙ known in
        elim (Bool-cases c.renew_enabled) [
          | inr off ↦ inl (rw off)
          | inl on ↦ elim (Bool-cases early) [
            | inl soon ↦ inl (rw (on, soon))
            | inr due ↦
                let e : result
                    ≡ logged (check_for_updates sha semver fuel exec_ok check_now peers c) =
                  rw (on, due) in
                inr (
                  on,
                  subst (λ r. IsReplacedByOffer peers c r.1) (sym e)
                      (check_for_updates-safe fuel exec_ok check_now peers c known'),
                )
          ]
        ]
