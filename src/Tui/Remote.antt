-- ===== src/Tui/Remote.antt =====
-- tui/input.rs: the commands that select a peer and one of its zones, and that ask for its lists.
use rxiu.Base.{
  ℕ, ◌+◌, ◌-◌, Str, codes, [], ◌∷◌, ◌++◌, Option, none, some, if◌then◌else◌, length, get_elem?, leb,
  is_nil, is_some, ◌&&◌, unwrap_or, not,
}
use rxiu.Base.Decimal.{format_u64}
use rxiu.Tui.Text.{rule, parse_u64}
use rxiu.Tui.App.{LineStyle, App, PendingOperation, no_remote, line, print, print_lines}
use rxiu.Tui.Screen.{short_id, not_started, queue, execute_peers_list}

-- A number from 1 to a length, less 1.
unfoldable pub parse_index : ℕ → Str → Option ℕ
unfolding parse_u64
parse_index len s = elim (parse_u64 s) [
  | none ↦ none
  | some n ↦ if leb 1 n && leb n len then some (n - 1) else none
]

unfoldable pub execute_remote_query : Str → App → App
unfolding print parse_index format_u64
execute_remote_query index_str a =
    if not (is_some a.p2p)
    then not_started a
    else if is_nil a.peers_cache
    then print LineStyle.error (codes "No peers available. Run 'peers' to see discovered peers.") a
    else elim (parse_index (length a.peers_cache) index_str) [
      | none ↦
          print LineStyle.error
            (codes "Invalid peer number. Use 1-" ++ format_u64 (length a.peers_cache)) a
      | some index ↦ print LineStyle.info (codes "Querying remote zones...") (record a {
        remote = record a.remote { peer_index = some index; zone = none; files_cache = [] };
        pending_op = some (PendingOperation.query_zones index);
      })
    ]

-- `ruse <n>`, where the argument is a number.
unfoldable pub select_peer : ℕ → App → App
unfolding print print_lines format_u64
select_peer n a = elim (get_elem? a.peers_cache (n - 1)) [
  | none ↦ invalid n a
  | some peer ↦
      if leb 1 n
      then print_lines
          (line LineStyle.success (
              (226 ∷ 156 ∷ 147 ∷ [])
              ++ (codes " Connected to peer ["
                  ++ (format_u64 n ++ (codes "] " ++ short_id peer.peer_id))))
            ∷ line LineStyle.info (codes "Use 'rarea' to see zones.")
            ∷ [])
          (record a { remote = record no_remote { peer_index = some (n - 1) } })
      else invalid n a
]
  where
    invalid : ℕ → App → App
    invalid n a =
        print LineStyle.error
          (codes "Invalid peer number. Use 1-" ++ format_u64 (length a.peers_cache)) a

unfoldable pub execute_ruse : Str → App → App
unfolding print print_lines parse_u64 select_peer
execute_ruse arg a = if not (is_some a.p2p) then not_started a else elim (parse_u64 arg) [
  | some n ↦ select_peer n a
  | none ↦
      if not (is_some a.remote.peer_index)
      then print LineStyle.error (codes "No peer selected. Use 'ruse <n>' first to select a peer.")
          a
      else print_lines
          (line LineStyle.success ((226 ∷ 156 ∷ 147 ∷ []) ++ (codes " Selected zone: " ++ arg))
            ∷ line LineStyle.info (codes "Use 'rlist' to see files.")
            ∷ [])
          (record a { remote = record a.remote { zone = some arg; files_cache = [] } })
]

unfoldable pub selected_peer : App → Str
unfolding format_u64
selected_peer a = elim a.remote.peer_index [
  | none ↦ codes "  Peer: (none)"
  | some idx ↦ elim (get_elem? a.peers_cache idx) [
    | none ↦ codes "  Peer: (none)"
    | some peer ↦
        codes "  Peer: [" ++ (format_u64 (idx + 1) ++ (codes "] " ++ short_id peer.peer_id))
  ]
]

unfoldable pub show_remote_status : App → App
unfolding print_lines selected_peer format_u64
show_remote_status a =
    print_lines
      (line LineStyle.header []
        ∷ line LineStyle.header (codes "REMOTE CONNECTION STATUS")
        ∷ line LineStyle.header (rule 50)
        ∷ line LineStyle.normal (selected_peer a)
        ∷ line LineStyle.normal (codes "  Zone: " ++ unwrap_or a.remote.zone (codes "(none)"))
        ∷ line LineStyle.normal
            (codes "  Cached files: " ++ format_u64 (length a.remote.files_cache))
        ∷ line LineStyle.normal []
        ∷ line LineStyle.info (codes "Commands: ruse <n>, rarea, rlist, rget <n>")
        ∷ [])
      a

unfoldable pub execute_rarea : App → App
unfolding print execute_peers_list
execute_rarea a =
    if not (is_some a.p2p)
    then not_started a
    else if not (is_some a.remote.peer_index)
    then execute_peers_list
        (print LineStyle.error (codes "No peer selected. Use 'ruse <n>' first.") a)
    else queue PendingOperation.query_selected_zones (codes "Querying zones...") a

unfoldable pub execute_rlist : App → App
unfolding print
execute_rlist a =
    if not (is_some a.p2p)
    then not_started a
    else if not (is_some a.remote.peer_index)
    then print LineStyle.error (codes "No peer selected. Use 'ruse <n>' first.") a
    else if not (is_some a.remote.zone)
    then print LineStyle.error (codes "No zone selected. Use 'ruse <zone>' or 'rlist <zone>'.") a
    else queue PendingOperation.query_selected_files (codes "Listing files...") a

-- `rlist <zone>`
unfoldable pub list_zone : Str → App → App
unfolding print
list_zone zone a = elim a.remote.peer_index [
  | none ↦ print LineStyle.error (codes "No peer selected. Use 'ruse <n>' first.") a
  | some peer_index ↦ record a {
    remote = record a.remote { zone = some zone };
    pending_op = some (PendingOperation.query_files peer_index zone);
  }
]
