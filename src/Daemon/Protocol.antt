-- ===== src/Daemon/Protocol.antt =====
-- daemon/protocol.rs: the messages between the interface and the daemon.
use rxiu.Base.{ℕ, Str, Bytes, Bool, List, Option}
use rxiu.P2p.Node.{PeerInfo}
use rxiu.Rs.Types.{RsFileEntry}
use rxiu.Storage.Local.{FileMetadata}
use rxiu.P2p.Messages.{FileMeta, FileChunk, RsBlock, RsHave}

pub record RsSyncStatus : Type 0 where
  pub in_progress : Bool
  pub last_updated_files : ℕ
  pub last_error : Option Str
  pub global_sync : Bool
  pub download_concurrency : ℕ
  pub sync_concurrency : ℕ
  pub block_size_mb : ℕ

pub data DaemonRequest : Type 0 where
  ping shutdown get_local_peer_id get_peers get_peer_count : DaemonRequest
  list_remote_zones : Str → DaemonRequest
  list_remote_files : Str → Str → DaemonRequest
  fetch_file get_file_meta : Str → Str → Str → DaemonRequest
  get_file_chunk : Str → Str → Str → ℕ → ℕ → DaemonRequest
  rs_list : Str → DaemonRequest
  rs_announce : Str → RsFileEntry → DaemonRequest
  rs_get_meta rs_get_block : Str → Str → DaemonRequest
  rs_get_blocks : Str → List Str → DaemonRequest
  rs_have rs_delete : Str → Str → DaemonRequest
  rs_sync rs_sync_status refresh_peers : DaemonRequest

pub data DaemonResponse : Type 0 where
  pong shutting_down : DaemonResponse
  local_peer_id : Str → DaemonResponse
  peers : List PeerInfo → DaemonResponse
  peer_count : ℕ → DaemonResponse
  zones : List Str → DaemonResponse
  files : List FileMetadata → DaemonResponse
  file_data : Bytes → Str → DaemonResponse
  file_meta : FileMeta → DaemonResponse
  file_chunk : FileChunk → DaemonResponse
  rs_files : List RsFileEntry → DaemonResponse
  rs_meta : RsFileEntry → DaemonResponse
  rs_block : RsBlock → DaemonResponse
  rs_blocks : List RsBlock → DaemonResponse
  rs_has : RsHave → DaemonResponse
  sync_status : RsSyncStatus → DaemonResponse
  done : DaemonResponse
  error : Str → DaemonResponse
