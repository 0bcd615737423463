-- ===== src/Tui/RsCommands.antt =====
-- tui/input.rs: the commands on the shared files that are answered at once, and on the settings.
use rxiu.Base.{
  ℕ, suc, zero, ◌+◌, ◌-◌, ◌%◌, ◌^◌, Str, Bytes, str_eq, codes, true, false, List, [], ◌∷◌, ◌++◌,
  Option, none, some, if◌then◌else◌, length, map, get_elem?, leb, ◌==◌, ◌&&◌, filter,
}
use rxiu.Error.{ok, err, to_string}
use rxiu.External.{Json}
use rxiu.Config.{AppConfig}
use rxiu.Rs.Types.{RsBlockEntry, RsMetadata, RsDisk, is_component}
use rxiu.Rs.Metadata.{list_files, get_file}
use rxiu.Rs.Blocks.{has_block}
use rxiu.Base.Decimal.{format_u64}
use rxiu.Tui.Text.{rule, parse_u64}
use rxiu.Tui.App.{LineStyle, App, Disk, Env, line, print, print_lines}

-- A number of `rslist` is replaced by its file's name; `none` is a number out of range.
unfoldable pub rs_name : Str → App → Option Str
unfolding parse_u64
rs_name arg a = elim (parse_u64 arg) [
  | none ↦ some arg
  | some zero ↦ none
  | some (suc i) ↦ elim (get_elem? a.rs_files_cache i) [ none ↦ none | some f ↦ some f.name ]
]

abbrev pub invalid_number : App → App
invalid_number = print LineStyle.error (codes "Invalid RS file number. Use 'rslist' first.")

-- The loops over the blocks on disk: their number and their bytes.
unfoldable pub count_local : List (Str × Bytes) → ℕ × ℕ
unfolding is_component
count_local [] = (0, 0)
count_local ((name, content) ∷ files) =
    let (count, bytes) = count_local files in
    if is_component name then (count + 1, (bytes + length content) % 2 ^ 64) else (count, bytes)

abbrev pub sum : List ℕ → ℕ
sum [] = 0
sum (n ∷ ns) = n + sum ns

-- The loop over a file's blocks: how many are on disk, and the sum of their sizes.
unfoldable pub count_have : {Text : Type 0} → List RsBlockEntry → RsDisk Text → ℕ → ℕ → ℕ × ℕ
unfolding has_block
count_have [] d have_blocks have_bytes = (have_blocks, have_bytes)
count_have (b ∷ blocks) d have_blocks have_bytes =
    if has_block b.hash d
    then count_have blocks d (have_blocks + 1) ((have_bytes + b.size) % 2 ^ 64)
    else count_have blocks d have_blocks have_bytes

module _ {Text : Type 0} (rs_json : Json Text RsMetadata) where
  unfoldable pub execute_rs_stats : Env → RsDisk Text → App → App
  unfolding list_files print print_lines count_local format_u64
  execute_rs_stats env d a = elim (list_files rs_json d) [
    | err e ↦ print LineStyle.error (codes "Failed to read RS metadata: " ++ to_string e) a
    | ok files ↦
        let total_files = length files in
        let complete = length (filter (λ f. f.complete) files) in
        let total_blocks = sum (map (λ f. length f.blocks) files) in
        let (local_count, local_bytes) = count_local d.files in
        print_lines
          (line LineStyle.header []
            ∷ line LineStyle.header (codes "RS STATS")
            ∷ line LineStyle.header (rule 40)
            ∷ line LineStyle.normal (
                codes "  Files: "
                ++ (format_u64 total_files
                    ++ (codes " ("
                        ++ (format_u64 complete
                            ++ (codes " complete, "
                                ++ (format_u64 (total_files - complete) ++ codes " partial)"))))))
            ∷ line LineStyle.normal (codes "  Blocks in metadata: " ++ format_u64 total_blocks)
            ∷ line LineStyle.normal (codes "  Local blocks: " ++ format_u64 local_count)
            ∷ line LineStyle.normal (codes "  Local block size: " ++ env.format_size local_bytes)
            ∷ line LineStyle.normal
                (codes "  Block size: " ++ (format_u64 a.rs_block_size_mb ++ codes " MB"))
            ∷ [])
          a
  ]

  unfoldable pub execute_rs_have : Env → RsDisk Text → Str → App → App
  unfolding rs_name get_file print print_lines count_have format_u64
  execute_rs_have env d arg a = elim (rs_name arg a) [
    | none ↦ invalid_number a
    | some name ↦ elim (get_file rs_json name d) [
      | err e ↦ print LineStyle.error (codes "Failed to read RS file: " ++ to_string e) a
      | ok none ↦ print LineStyle.error (codes "RS file '" ++ (name ++ codes "' not found")) a
      | ok (some entry) ↦
          let (have_blocks, have_bytes) = count_have entry.blocks d 0 0 in
          let percent = if entry.size == 0 then 0 else env.percent have_bytes entry.size in
          print_lines
            (line LineStyle.header []
              ∷ line LineStyle.header (codes "RS HAVE: " ++ entry.name)
              ∷ line LineStyle.header (rule 40)
              ∷ line LineStyle.normal (
                  codes "  Blocks: "
                  ++ (format_u64 have_blocks ++ (codes "/" ++ format_u64 (length entry.blocks))))
              ∷ line LineStyle.normal (
                  codes "  Bytes: "
                  ++ (env.format_size have_bytes
                      ++ (codes "/"
                          ++ (env.format_size entry.size
                              ++ (codes " (" ++ (format_u64 percent ++ codes "%)"))))))
              ∷ [])
            a
    ]
  ]

-- What the settings are written with.
unfoldable pub config_of : App → AppConfig
config_of a = record {
  rs_concurrency = a.rs_concurrency;
  rs_sync_concurrency = a.rs_sync_concurrency;
  rs_block_size_mb = a.rs_block_size_mb;
  rs_global_sync = a.rs_global_sync;
  rs_replication_factor = 2;
  renew_enabled = true;
  renew_check_interval = 300;
}

unfoldable pub save_config : {Text : Type 0} → App × Disk Text → App × Disk Text
unfolding config_of
save_config (a, d) = (a, record d { config = some (config_of a) })

-- A setting's value that parses and is in the range.
abbrev pub in_range : ℕ → ℕ → Str → Option ℕ
in_range low high value = elim (parse_u64 value) [
  | none ↦ none
  | some v ↦ if leb low v && leb v high then some v else none
]

unfoldable pub set_concurrency : {Text : Type 0} → Str → App × Disk Text → App × Disk Text
unfolding parse_u64 save_config print format_u64
set_concurrency value (a, d) = elim (in_range 2 16 value) [
  | none ↦ (print LineStyle.error (codes "Usage: rscfg concurrency <2-16>") a, d)
  | some v ↦ save_config (
    print LineStyle.success (codes "RS download concurrency set to " ++ format_u64 v)
        (record a { rs_concurrency = v }),
    d,
  )
]

unfoldable pub set_sync_concurrency : {Text : Type 0} → Str → App × Disk Text → App × Disk Text
unfolding parse_u64 save_config print format_u64
set_sync_concurrency value (a, d) = elim (in_range 2 16 value) [
  | none ↦ (print LineStyle.error (codes "Usage: rscfg sync_concurrency <2-16>") a, d)
  | some v ↦ save_config (
    print LineStyle.success (codes "RS sync concurrency set to " ++ format_u64 v)
        (record a { rs_sync_concurrency = v }),
    d,
  )
]

unfoldable pub set_block_size : {Text : Type 0} → Str → App × Disk Text → App × Disk Text
unfolding parse_u64 save_config print format_u64
set_block_size value (a, d) = elim (in_range 4 32 value) [
  | none ↦ (print LineStyle.error (codes "Usage: rscfg block_size <4-32>") a, d)
  | some v ↦ save_config (
    print LineStyle.success (codes "RS block size set to " ++ (format_u64 v ++ codes " MB"))
        (record a { rs_block_size_mb = v }),
    d,
  )
]

unfoldable pub set_global_sync : {Text : Type 0} → Str → App × Disk Text → App × Disk Text
unfolding str_eq save_config print
set_global_sync value (a, d) =
    if str_eq value (codes "0")
    then save_config (
      print LineStyle.success (codes "RS global sync set to 0 (RS mode only).")
          (record a { rs_global_sync = false }),
      d,
    )
    else if str_eq value (codes "1")
    then save_config (
      print LineStyle.success (codes "RS global sync set to 1 (always sync).")
          (record a { rs_global_sync = true }),
      d,
    )
    else (print LineStyle.error (codes "Usage: rscfg gsyn <0|1>") a, d)

unfoldable pub show_config : App → App
unfolding print_lines format_u64
show_config a =
    print_lines
      (line LineStyle.info (codes "RS download concurrency: " ++ format_u64 a.rs_concurrency)
        ∷ line LineStyle.info (codes "RS sync concurrency: " ++ format_u64 a.rs_sync_concurrency)
        ∷ line LineStyle.info
            (codes "RS block size: " ++ (format_u64 a.rs_block_size_mb ++ codes " MB"))
        ∷ line LineStyle.info
            (codes "RS global sync: " ++ (if a.rs_global_sync then codes "1" else codes "0"))
        ∷ line LineStyle.info
            (codes "Use 'rscfg concurrency <2-16>' to change download concurrency.")
        ∷ line LineStyle.info
            (codes "Use 'rscfg sync_concurrency <2-16>' to change sync concurrency.")
        ∷ line LineStyle.info (codes "Use 'rscfg block_size <4-32>' to change RS block size.")
        ∷ line LineStyle.info (codes "Use 'rscfg gsyn <0|1>' to toggle global sync.")
        ∷ [])
      a

abbrev pub rscfg_usage : Str
rscfg_usage =
    codes "Usage: rscfg show | rscfg concurrency <2-16> | rscfg sync_concurrency <2-16> | "
    ++ codes "rscfg block_size <4-32> | rscfg gsyn <0|1>"

unfoldable pub execute_rscfg : {Text : Type 0} → List Str → App × Disk Text → App × Disk Text
unfolding str_eq set_concurrency set_sync_concurrency set_block_size set_global_sync show_config
    print
execute_rscfg [] (a, d) = (show_config a, d)
execute_rscfg (name ∷ []) (a, d) =
    (if str_eq name (codes "show") then show_config a else print LineStyle.error rscfg_usage a, d)
execute_rscfg (name ∷ value ∷ []) ad =
    if str_eq name (codes "concurrency")
    then set_concurrency value ad
    else if str_eq name (codes "sync_concurrency")
    then set_sync_concurrency value ad
    else if str_eq name (codes "block_size")
    then set_block_size value ad
    else if str_eq name (codes "gsyn")
    then set_global_sync value ad
    else (print LineStyle.error rscfg_usage ad.0, ad.1)
execute_rscfg (name ∷ value ∷ more ∷ args) (a, d) = (print LineStyle.error rscfg_usage a, d)
