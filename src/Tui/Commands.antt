-- ===== src/Tui/Commands.antt =====
-- cli/commands.rs: the commands that work on the zones alone.
use rxiu.Base.{
  ℕ, ◌+◌, max, Str, str_eq, codes, List, [], ◌∷◌, ◌++◌, if◌then◌else◌, length, map, all, is_nil,
  ◌||◌,
}
use rxiu.Base.Assoc.{lookup}
use rxiu.Error.{Result, ok, err, missing_argument, ◌>>=◌}
use rxiu.External.{Json}
use rxiu.Storage.Local.{FileMetadata, ZoneDisk}
use rxiu.Storage.Zones.{
  ZoneRegistry, ZoneManager, Home, create_zone, set_active, active_zone, empty_zone,
}
use rxiu.Base.{unwrap_or}
use rxiu.Base.Decimal.{format_u64}
use rxiu.Tui.Text.{chars, rule, pad_right, pad_left}
use rxiu.Tui.App.{Env}

-- The directory of a zone of the manager.
abbrev pub zone_disk : {Text : Type 0} → Str → Home Text → ZoneDisk Text
zone_disk name h = unwrap_or (lookup name h.directories) empty_zone

-- The first of the arguments, or `MissingArgument`.
unfoldable pub zone_argument : List Str → Result Str
zone_argument [] = err (missing_argument (codes "zone_name"))
zone_argument (name ∷ args) = ok name

module _ {Text : Type 0} (json : Json Text (List FileMetadata))
    (registry_json : Json Text ZoneRegistry) where
  unfoldable pub create :
      Env → List Str → ZoneManager × Home Text → Result Str × (ZoneManager × Home Text)
  unfolding zone_argument create_zone chars
  create env args zh = elim (zone_argument args) [
    | err e ↦ (err e, zh)
    | ok name ↦
        if all (λ c. env.is_alphanumeric c || str_eq c (codes "_") || str_eq c (codes "-"))
          (chars name)
        then (let (result, zh') = create_zone json registry_json name zh in
            (result >>= λ _. ok (codes "Zone '" ++ (name ++ codes "' created successfully.")), zh'))
        else (
          ok (codes "Error: Zone name can only contain letters, numbers, underscores, and hyphens"),
          zh,
        )
  ]

unfoldable pub use_zone : List Str → ZoneManager → Result Str × ZoneManager
unfolding zone_argument set_active
use_zone args z = elim (zone_argument args) [
  | err e ↦ (err e, z)
  | ok name ↦
      let (result, z') = set_active name z in
      (result >>= λ _. ok (codes "Switched to zone '" ++ (name ++ codes "'.")), z')
]

abbrev pub max_length : List Str → ℕ
max_length [] = 0
max_length (s ∷ ss) = max (length s) (max_length ss)

-- A row of the table that `list` prints, with its line feed.
unfoldable pub table_row : ℕ → Str → Str → Str → Str
unfolding pad_right pad_left
table_row max_name name size imported =
    pad_right max_name name
    ++ (codes "  " ++ (pad_left 10 size ++ (codes "  " ++ (imported ++ 10 ∷ []))))

abbrev pub concat : List Str → Str
concat [] = []
concat (s ∷ ss) = s ++ concat ss

module _ {Text : Type 0} (json : Json Text (List FileMetadata)) where
  unfoldable pub list : Env → ZoneManager → Home Text → Result Str
  unfolding active_zone rxiu.Storage.Local.list table_row format_u64
  list env z h = active_zone z >>= λ zone.
      rxiu.Storage.Local.list json (zone_disk zone h) >>= λ files.
      let max_name = max (max_length (map (λ f. f.name) files)) 10 in
      if is_nil files
      then ok (codes "Zone is empty.")
      else ok (
          10 ∷ table_row max_name (codes "NAME") (codes "SIZE") (codes "IMPORTED")
          ++ (rule (max_name + 10 + 25)
              ++ (10
                    ∷ concat (
                        map
                          (λ f.
                            table_row max_name f.name (env.formatted_size f.size)
                              (env.format_time f.imported_at))
                          files)
                  ++ (10 ∷ format_u64 (length files) ++ codes " file(s) total"))))

-- The text between the lines of a literal, each with a line feed.
abbrev pub unlines : List Str → Str
unlines [] = []
unlines (s ∷ ss) = s ++ (10 ∷ unlines ss)

abbrev pub help : Str
help = unlines (
    codes ""
    ∷ codes "Available commands:"
    ∷ codes ""
    ∷ codes "  create <zone_name>  Create a new file zone"
    ∷ codes "  use <zone_name>     Switch to a file zone"
    ∷ codes "  list                List files in the current zone"
    ∷ codes "  list area           List all file zones"
    ∷ codes "  list storage        Show storage locations"
    ∷ codes "  get <file_name>     Export a file from the zone"
    ∷ codes "  put [name]          Import a file into the zone"
    ∷ codes "  del <file_name>     Delete a file from the zone"
    ∷ codes ""
    ∷ codes "P2P Commands:"
    ∷ codes "  peers               Show discovered LAN peers"
    ∷ codes "  ruse <n>            Select peer #n to connect"
    ∷ codes "  ruse <zone>         Select a remote zone"
    ∷ codes "  rarea               List remote zones"
    ∷ codes "  rlist               List files in selected zone"
    ∷ codes "  rget <n>            Download file #n (opens save dialog)"
    ∷ codes ""
    ∷ codes "RS (Block Sharing) Commands:"
    ∷ codes "  rs                  Enter RS mode"
    ∷ codes "  rslist              List RS shared files"
    ∷ codes "  rsput [name]        Share a file into RS space"
    ∷ codes "  rsget <number>      Download RS file by number"
    ∷ codes "  rsget <file_name>   Download a file from RS space"
    ∷ codes "  rsdel <number>      Delete RS file by number (propagates to peers)"
    ∷ codes "  rsdel <file_name>   Delete a file from RS space (propagates to peers)"
    ∷ codes "  rsstatus            Show RS mode/sync/transfer status"
    ∷ codes "  rsstats             Show RS local stats (files/blocks/size)"
    ∷ codes "  rshave <n|name>      Show local blocks for an RS file"
    ∷ codes "  rspeers             Refresh and show RS peer list"
    ∷ codes "  rsprogress          Show current RS transfer/sync progress"
    ∷ codes "  rscfg show               Show RS settings"
    ∷ codes "  rscfg concurrency N       Set RS download concurrency (2-16)"
    ∷ codes "  rscfg sync_concurrency N  Set RS sync concurrency (2-16)"
    ∷ codes "  rscfg block_size N        Set RS block size in MB (4-32)"
    ∷ codes "  rscfg gsyn <0|1>          Set RS global sync (0=RS mode only, 1=always sync)"
    ∷ codes "  rxiu                     Return to default mode"
    ∷ codes ""
    ∷ codes "  help                Show this help message"
    ∷ codes "  exit, quit          Exit the program"
    ∷ codes ""
    ∷ codes "Navigation (in file browser):"
    ∷ (codes "  j/" ++ (226 ∷ 134 ∷ 147 ∷ []) ++ codes "         Move down")
    ∷ (codes "  k/" ++ (226 ∷ 134 ∷ 145 ∷ []) ++ codes "         Move up")
    ∷ codes "  Enter/l     Enter directory"
    ∷ codes "  h/Backspace Go to parent directory"
    ∷ codes "  y           Confirm selection"
    ∷ codes "  q/Esc       Cancel"
    ∷ [])
