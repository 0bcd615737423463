-- ===== src/Tui/Files.antt =====
-- tui/input.rs: reading and writing the files of the disk, the active zone and the shared store by a path that the browser gives.
use rxiu.Base.{
  ◌*◌, ◌%◌, ◌^◌, Str, Bytes, str_eq, codes, Bool, true, false, List, [], ◌∷◌, ◌++◌, Option, none,
  some, if◌then◌else◌, length, map, is_some, ◌==◌, ◌||◌, ◌&&◌, bytes_le,
}
use rxiu.Base.Assoc.{insert}
use rxiu.Base.Sort.{sort_by}
use rxiu.Error.{Result, ok, err, io, not_a_file, ◌>>=◌}
use rxiu.External.{Json, Sha256, PeerId}
use rxiu.Rs.Types.{RsFileEntry, RsMetadata}
use rxiu.Rs.Metadata.{get_file, missing_file}
use rxiu.Storage.Local
use rxiu.Storage.Local.{FileMetadata, ZoneDisk, exists, retrieve}
use rxiu.Storage.Zones.{active_zone}
use rxiu.Ui.Keys.{KeyCode}
use rxiu.Ui.Browser.{FilePath}
use rxiu.Tui.App.{LineStyle, App, Env, Disk, Task, display, print, start_upload}
use rxiu.Tui.Commands.{zone_disk}

abbrev pub path_eq : FilePath → FilePath → Bool
path_eq [] [] = true
path_eq [] (n ∷ q) = false
path_eq (m ∷ p) [] = false
path_eq (m ∷ p) (n ∷ q) = str_eq m n && path_eq p q

-- `Path::exists`, of a file of the user or a directory.
abbrev pub path_exists : {Text : Type 0} → Env → FilePath → Disk Text → Bool
path_exists env path d =
    is_some (d.own_files path) || elim (env.read_dir path) [ ok _ ↦ true | err _ ↦ false ]

-- `fs::write`
abbrev pub write_file : {Text : Type 0} → FilePath → Bytes → Disk Text → Disk Text
write_file path content d = record d {
  own_files = λ p. if path_eq p path then some content else d.own_files p;
}

-- `fs::read`
abbrev pub read_file : {Text : Type 0} → FilePath → Disk Text → Result Bytes
read_file path d = elim (d.own_files path) [ none ↦ err (io missing_file) | some c ↦ ok c ]

abbrev pub set_zone : {Text : Type 0} → Str → ZoneDisk Text → Disk Text → Disk Text
set_zone zone z d = record d {
  home = record d.home { directories = insert zone z d.home.directories };
}

-- The name given, or that of the file chosen.
unfoldable pub target : Option Str → FilePath → Result Str
target (some name) path = ok name
target none (name ∷ dir) = ok name
target none [] = err (not_a_file (codes "/"))

-- What `put` reads before it looks into the zone: the content, the name and the zone.
unfoldable pub chosen_file :
    {Text : Type 0} → FilePath → Option Str → App × Disk Text → Result (Bytes × (Str × Str))
unfolding target active_zone
chosen_file path target_name (a, d) = read_file path d >>= λ content.
    target target_name path >>= λ name.
    active_zone a.zone_manager >>= λ zone. ok (content, (name, zone))

-- The callback of `get`.
unfoldable pub save_file :
    {Text : Type 0} → Env → FilePath → Str → App × Disk Text → Result (Unit {0}) × (App × Disk Text)
unfolding active_zone retrieve print display
save_file env path file_name (a, d) =
    let dest_path = file_name ∷ path in
    elim (active_zone a.zone_manager >>= λ zone. retrieve file_name (zone_disk zone d.home)) [
      | err e ↦ (err e, (a, d))
      | ok content ↦
          if path_exists env dest_path d
          then (
            ok tt,
            (
              print LineStyle.error
                  (codes "Error: File '" ++ (file_name ++ codes "' already exists at destination"))
                  a,
              d,
            ),
          )
          else (
            ok tt,
            (
              print LineStyle.success
                  (codes "Saved '" ++ (file_name ++ (codes "' to " ++ display dest_path))) a,
              write_file dest_path content d,
            ),
          )
    ]

abbrev pub is_yes : KeyCode → Bool
is_yes (KeyCode.char c) = c == b'y' || c == b'Y'
is_yes _ = false

module _ {Text : Type 0} (sha : Sha256) (json : Json Text (List FileMetadata)) where
  -- `store` of the active zone, where the name is not there yet.
  unfoldable pub import_file :
      Env → Str → Bytes → Str → App × Disk Text → Result (Unit {0}) × (App × Disk Text)
  unfolding Local.store exists print
  import_file env zone content name (a, d) =
      let z = zone_disk zone d.home in
      let (result, z') = Local.store json sha env.now name content z in
      if exists name z
      then (
        ok tt,
        (
          print LineStyle.error
              (codes "Error: File '" ++ (name ++ codes "' already exists in zone")) a,
          d,
        ),
      )
      else elim result [
        | err e ↦ (err e, (a, set_zone zone z' d))
        | ok metadata ↦ (
          ok tt,
          (
            print LineStyle.success
                (codes "Imported '"
                  ++ (metadata.name
                      ++ (codes "' (" ++ (env.formatted_size metadata.size ++ codes ")"))))
                a,
            set_zone zone z' d,
          ),
        )
      ]

  -- The callback of `put`.
  unfoldable pub put_file :
      Env → FilePath → Option Str → App × Disk Text → Result (Unit {0}) × (App × Disk Text)
  unfolding chosen_file import_file
  put_file env path target_name (a, d) = elim (chosen_file path target_name (a, d)) [
    | err e ↦ (err e, (a, d))
    | ok (content, (name, zone)) ↦ import_file env zone content name (a, d)
  ]

  module _ (rs_json : Json Text RsMetadata) where
    -- The callback of `rsput`: a task is spawned that cuts the file into blocks and announces it.
    unfoldable pub upload_file :
        Env → FilePath → Option Str → App × Disk Text → Result (Unit {0}) × App
    unfolding target get_file print start_upload sort_by
    upload_file env path target_name (a, d) =
        let peers = map (λ p. p.peer_id) a.peers_cache in
        let found : Result (Str × Option RsFileEntry) = target target_name path >>= λ name.
        get_file rs_json name d.rs >>= λ entry. ok (name, entry) in
        elim found [
          | err e ↦ (err e, a)
          | ok (name, some _) ↦ (
            ok tt,
            print LineStyle.error (codes "Error: RS file '" ++ (name ++ codes "' already exists"))
                a,
          )
          | ok (name, none) ↦ elim (read_file path d) [
            | err e ↦ (err e, a)
            | ok content ↦
                let size = length content in
                let shown =
                  print LineStyle.info
                    ((226 ∷ 143 ∷ 179 ∷ [])
                      ++ (codes " Uploading '"
                          ++ (name ++ (codes "' (" ++ (env.format_size size ++ codes ")...")))))
                    (record a { transfer = start_upload name size a.transfer }) in
                let members : List PeerId = elim a.p2p [
                  | none ↦ []
                  | some local ↦ sort_by bytes_le (peers ++ local ∷ [])
                ] in
                let algo : Str = elim a.p2p [
                  | none ↦ codes "legacy"
                  | some local ↦ codes "hrw-v1"
                ] in
                let block_size = a.rs_block_size_mb * 1024 * 1024 % 2 ^ 64 in
                (
                  ok tt,
                  record shown {
                    receives = true;
                    tasks =
                        Task.rs_upload path name size members algo block_size peers ∷ shown.tasks;
                  },
                )
          ]
        ]
