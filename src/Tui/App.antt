-- ===== src/Tui/App.antt =====
-- tui/app.rs: the state of the application, and what its operations work on beside it.
use rxiu.Base.{
  ℕ, Str, Bytes, codes, Bool, true, false, List, [], ◌∷◌, ◌++◌, Option, none, some, if◌then◌else◌,
  length, map,
}
use rxiu.External.{PeerId}
use rxiu.Config.{AppConfig}
use rxiu.Rs.Types.{RsFileEntry, RsDisk}
use rxiu.Storage.Local.{FileMetadata}
use rxiu.Storage.Zones.{ZoneManager, Home}
use rxiu.P2p.Node.{PeerInfo}
use rxiu.Ui.Browser.{BrowserMode, FilePath, FileBrowser, Listing}
use rxiu.Tui.Text.{lines}

pub data LineStyle : Type 0 where
  normal success error info header : LineStyle

pub record OutputLine : Type 0 where
  pub content : Str
  pub style : LineStyle

pub data PendingAction : Type 0 where
  delete_file rs_delete_file : Str → PendingAction

pub data BrowserCallback : Type 0 where
  put : Option Str → BrowserCallback
  get : Str → BrowserCallback
  remote_get : ℕ → Str → Str → BrowserCallback
  rs_put : Option Str → BrowserCallback
  rs_get : Str → BrowserCallback

pub data AppMode : Type 0 where
  normal : AppMode
  browser : FileBrowser → BrowserMode → BrowserCallback → AppMode
  confirmation : Str → PendingAction → AppMode

pub data PendingOperation : Type 0 where
  query_zones : ℕ → PendingOperation
  query_files : ℕ → Str → PendingOperation
  download_file : ℕ → Str → Str → FilePath → PendingOperation
  query_selected_zones query_selected_files rs_list : PendingOperation
  rs_sync_status : Bool → PendingOperation
  rs_download : Str → FilePath → PendingOperation

pub record RemoteConnection : Type 0 where
  pub peer_index : Option ℕ
  pub zone : Option Str
  pub zones_cache : List Str
  pub files_cache : List FileMetadata

abbrev pub no_remote : RemoteConnection
no_remote = record { peer_index = none; zone = none; zones_cache = []; files_cache = [] }

pub record TransferProgress : Type 0 where
  pub active : Bool
  pub transfer_type : Str
  pub file_name : Str
  pub bytes_done : ℕ
  pub bytes_total : ℕ

abbrev pub no_transfer : TransferProgress
no_transfer = record {
  active = false;
  transfer_type = [];
  file_name = [];
  bytes_done = 0;
  bytes_total = 0;
}

unfoldable pub start_download : Str → ℕ → TransferProgress → TransferProgress
start_download file_name total_bytes t = record {
  active = true;
  transfer_type = codes "download";
  file_name = file_name;
  bytes_done = 0;
  bytes_total = total_bytes;
}

unfoldable pub start_upload : Str → ℕ → TransferProgress → TransferProgress
start_upload file_name total_bytes t = record {
  active = true;
  transfer_type = codes "upload";
  file_name = file_name;
  bytes_done = 0;
  bytes_total = total_bytes;
}

-- A task that is spawned: a method of the proxy, which each names, or the upload of a file with its members,
-- algorithm and block size and the peers that it is announced to.
pub data Task : Type 0 where
  rs_sync refresh_peers : Task
  rs_upload : FilePath → Str → ℕ → List PeerId → Str → ℕ → List PeerId → Task
  rs_delete : List PeerId → Str → Task

-- `p2p` is the id of the local node, where the daemon is connected. `receives` is whether there is a `transfer_rx`.
-- `tasks` has what has been spawned, the last first.
pub record App : Type 0 where
  pub mode : AppMode
  pub zone_manager : ZoneManager
  pub rs_mode : Bool
  pub rs_concurrency : ℕ
  pub rs_sync_concurrency : ℕ
  pub rs_block_size_mb : ℕ
  pub rs_global_sync : Bool
  pub p2p : Option PeerId
  pub peer_count_cache : ℕ
  pub peers_cache : List PeerInfo
  pub pending_op : Option PendingOperation
  pub rs_files_cache : List RsFileEntry
  pub remote : RemoteConnection
  pub transfer : TransferProgress
  pub receives : Bool
  pub input_buffer : Str
  pub cursor_pos : ℕ
  pub output_lines : List OutputLine
  pub scroll_offset : ℕ
  pub should_quit : Bool
  pub status_message : Option Str
  pub tasks : List Task

-- What is on disk: the zones, the store of shared files, the configuration, and the user's own files, whose last
-- contents are found by their paths. The four are places of their own: names that lead from one into another, like a block
-- `../../zones/…` that a peer announces, are not followed (see RsDisk), and the user's own files lie outside of ~/.rxiu.
pub record Disk (Text : Type 0) : Type 0 where
  pub home : Home Text
  pub rs : RsDisk Text
  pub config : Option AppConfig
  pub own_files : FilePath → Option Bytes

-- What a key meets outside of the program: the `dirs` crate's directories, the path `.`, `read_dir`, the terminal's height, the
-- clock, the formats of sizes, times and rounded percentages, which are of floating point and of the `chrono` crate,
-- and Unicode's tables for characters, which are given by their bytes.
pub record Env : Type 0 where
  pub home_dir : Option FilePath
  pub desktop_dir : Option FilePath
  pub download_dir : Option FilePath
  pub working_dir : FilePath
  pub read_dir : Listing
  pub height : ℕ
  pub now : ℕ
  pub format_size : ℕ → Str
  pub formatted_size : ℕ → Str
  pub format_time : ℕ → Str
  pub percent : ℕ → ℕ → ℕ
  pub lowercase : Str → Str
  pub is_alphanumeric : Bytes → Bool

-- `Path::display`; the paths are absolute.
abbrev pub display_under : FilePath → Str
display_under [] = []
display_under (name ∷ dir) = display_under dir ++ (codes "/" ++ name)

unfoldable pub display : FilePath → Str
display [] = codes "/"
display (name ∷ dir) = display_under (name ∷ dir)

-- `OutputLine::normal` and its fellows.
abbrev pub line : LineStyle → Str → OutputLine
line style content = record { content = content; style = style }

-- `print` and, of more lines, `print_multiline`.
unfoldable pub print_lines : List OutputLine → App → App
print_lines more a =
    let all = a.output_lines ++ more in record a { output_lines = all; scroll_offset = length all }

unfoldable pub print : LineStyle → Str → App → App
unfolding print_lines
print style content a = print_lines (line style content ∷ []) a

unfoldable pub print_multiline : Str → LineStyle → App → App
unfolding print_lines lines
print_multiline text style a = print_lines (map (line style) (lines text)) a

unfoldable pub set_status : Str → App → App
set_status msg a = record a { status_message = some msg }

unfoldable pub clear_status : App → App
clear_status a = record a { status_message = none }

unfoldable pub current_zone_name : App → Option Str
current_zone_name a = if a.rs_mode then some (codes "rs") else a.zone_manager.active_zone
