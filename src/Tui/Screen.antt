-- ===== src/Tui/Screen.antt =====
-- tui/input.rs: the commands that change nothing but the application's own state.
use rxiu.Base.{
  ℕ, ◌+◌, Str, str_eq, codes, Bool, true, false, List, [], ◌∷◌, ◌++◌, Option, none, some,
  if◌then◌else◌, length, map, get_elem?, take, is_nil, is_some, unwrap_or, not,
}
use rxiu.External.{PeerId}
use rxiu.Error.{ok, err}
use rxiu.P2p.Node.{PeerInfo}
use rxiu.Base.Decimal.{format_u64}
use rxiu.Storage.Zones.{clear_active}
use rxiu.Ui.Browser.{FilePath}
use rxiu.Tui.Text.{rule, pad_right}
use rxiu.Tui.App.{
  LineStyle, App, Env, OutputLine, PendingOperation, Task, no_remote, no_transfer, line, display,
  print, print_lines,
}

-- The first twelve bytes of a peer's id, or all of it.
abbrev pub short_id : PeerId → Str
short_id p = take 12 p

abbrev pub not_started : App → App
not_started = print LineStyle.error (codes "P2P network not started.")

abbrev pub marker : Option Str → Str → Str
marker none zone = []
marker (some active) zone = if str_eq active zone then codes "  " ++ (226 ∷ 151 ∷ 143 ∷ []) else []

unfoldable pub execute_list_area : App → App
unfolding print print_lines pad_right
execute_list_area a =
    let zones = a.zone_manager.zones in
    if is_nil zones
    then print LineStyle.info (codes "No zones exist. Use 'create <name>' to create one.") a
    else print_lines
        (line LineStyle.header []
            ∷ line LineStyle.header (codes "ZONE NAME           ACTIVE")
            ∷ line LineStyle.header (rule 40)
            ∷ map
                (λ zone.
                  line LineStyle.normal
                    (pad_right 20 zone ++ marker a.zone_manager.active_zone zone))
                zones
          ++ line LineStyle.normal [] ∷ [])
        a

-- The directories among the entries.
unfoldable pub zone_lines : FilePath → List (Str × Bool) → List OutputLine
unfolding display
zone_lines zones_dir [] = []
zone_lines zones_dir ((name, is_dir) ∷ entries) =
    let rest = zone_lines zones_dir entries in
    if is_dir
    then line LineStyle.info (codes "Zone '" ++ (name ++ codes "':"))
      ∷ line LineStyle.normal (
          codes "  "
          ++ (226 ∷ 148 ∷ 148 ∷ 226 ∷ 148 ∷ 128 ∷ codes " "
              ++ display (codes "files" ∷ name ∷ zones_dir)))
      ∷ rest
    else rest

-- A zones' directory that is not there has no entries.
unfoldable pub execute_list_storage : Env → App → App
unfolding print print_lines display zone_lines
execute_list_storage env a = elim env.home_dir [
  | none ↦ print LineStyle.error (codes "Error: Could not determine home directory") a
  | some home ↦
      let root = codes ".rxiu" ∷ home in
      let zones_dir = codes "zones" ∷ root in
      print_lines
        (line LineStyle.header []
            ∷ line LineStyle.header (codes "Storage Location")
            ∷ line LineStyle.header (rule 50)
            ∷ line LineStyle.normal (codes "Root: " ++ display root)
            ∷ line LineStyle.normal []
            ∷ elim (env.read_dir zones_dir) [
              | err e ↦ []
              | ok entries ↦ zone_lines zones_dir entries
            ]
          ++ line LineStyle.normal [] ∷ [])
        a
]

-- The lines of the peers, numbered from 1.
unfoldable pub peer_lines : ℕ → List PeerInfo → List OutputLine
unfolding format_u64
peer_lines i [] = []
peer_lines i (peer ∷ peers) =
    line LineStyle.normal (
      codes "  ["
      ++ (format_u64 (i + 1)
          ++ (codes "] "
              ++ (short_id peer.peer_id
                  ++ (codes " - " ++ unwrap_or (get_elem? peer.addrs 0) (codes "unknown"))))))
    ∷ peer_lines (i + 1) peers

-- The table of `peers` and of `rspeers`.
unfoldable pub peer_table : Str → App → App
unfolding print_lines peer_lines format_u64
peer_table title a =
    print_lines
      (line LineStyle.header []
          ∷ line LineStyle.header
              (title ++ (codes " (" ++ (format_u64 (length a.peers_cache) ++ codes ")")))
          ∷ line LineStyle.header (rule 60)
          ∷ peer_lines 0 a.peers_cache
        ++ line LineStyle.normal [] ∷ [])
      a

unfoldable pub execute_peers_list : App → App
unfolding print print_lines peer_table
execute_peers_list a =
    if not (is_some a.p2p)
    then not_started a
    else if is_nil a.peers_cache
    then print_lines
        (line LineStyle.info (codes "No peers discovered on LAN yet.")
          ∷ line LineStyle.info
              (codes "Make sure other rxiu instances are running on your network.")
          ∷ line LineStyle.info []
          ∷ line LineStyle.info (codes "Peers are discovered automatically via mDNS.")
          ∷ [])
        a
    else peer_table (codes "LAN PEERS") a

-- A query that the main loop makes, and the line printed with it.
abbrev pub queue : PendingOperation → Str → App → App
queue op text a = print LineStyle.info text (record a { pending_op = some op })

unfoldable pub execute_rs_list : App → App
unfolding print
execute_rs_list = queue PendingOperation.rs_list (codes "Listing RS files...")

unfoldable pub execute_rs_status : App → App
unfolding print
execute_rs_status =
    queue (PendingOperation.rs_sync_status true) (codes "Fetching RS sync status...")

unfoldable pub execute_rs_progress : App → App
unfolding print
execute_rs_progress =
    queue (PendingOperation.rs_sync_status false) (codes "Fetching RS sync status...")

unfoldable pub execute_rs_peers : App → App
unfolding print peer_table
execute_rs_peers a =
    let spawned =
      print LineStyle.info (codes "Refreshing LAN peers...")
        (record a { tasks = Task.refresh_peers ∷ a.tasks }) in
    if not (is_some a.p2p)
    then not_started a
    else if is_nil a.peers_cache
    then print LineStyle.info (codes "No peers discovered on LAN yet. Please wait and try again.")
        spawned
    else peer_table (codes "RS PEERS") spawned

unfoldable pub execute_rxiu : App → App
unfolding print clear_active
execute_rxiu a = print LineStyle.success (codes "Returned to default mode.") (record a {
  rs_mode = false;
  rs_files_cache = [];
  remote = no_remote;
  pending_op = none;
  transfer = no_transfer;
  status_message = none;
  zone_manager = clear_active a.zone_manager;
})

-- `rs`
unfoldable pub enter_rs : App → App
unfolding print print_lines
enter_rs a =
    if a.rs_mode
    then print LineStyle.info (codes "Already in RS mode.") a
    else let entered =
        print_lines
          (line LineStyle.success (codes "Entered RS (Block Sharing) mode.")
            ∷ line LineStyle.info (codes "Use 'rslist' to see shared files.")
            ∷ [])
          (record a { rs_mode = true }) in
      if is_some a.p2p then record entered { tasks = Task.rs_sync ∷ entered.tasks } else entered
