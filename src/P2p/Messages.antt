-- ===== src/P2p/Messages.antt =====
-- p2p/messages.rs and the `PeerEntry` of p2p/protocol/peer_exchange.rs: what nodes send to each other.
use rxiu.Base.{ℕ, ◌*◌, Str, Bytes, Bool, List}
use rxiu.Rs.Types.{RsFileEntry}
use rxiu.Storage.Local.{FileMetadata}
use rxiu.Renew.Version.{VersionInfo}

abbrev pub file_chunk_size : ℕ
file_chunk_size = 4 * 1024 * 1024

pub record FileMeta : Type 0 where
  pub zone : Str
  pub name : Str
  pub size : ℕ
  pub hash : Str
  pub chunk_size : ℕ
  pub chunks : ℕ

pub record FileChunk : Type 0 where
  pub zone : Str
  pub name : Str
  pub offset : ℕ
  pub content : Bytes
  pub hash : Str

pub record RsBlock : Type 0 where
  pub hash : Str
  pub content : Bytes

pub record RsHave : Type 0 where
  pub name : Str
  pub hashes : List Str

pub record PeerEntry : Type 0 where
  pub peer_id : Str
  pub addrs : List Str

pub data FileRequest : Type 0 where
  ping list_zones : FileRequest
  list_files : Str → FileRequest
  get_file get_file_meta : Str → Str → FileRequest
  get_file_chunk : Str → Str → ℕ → ℕ → FileRequest
  rs_list : FileRequest
  rs_announce : RsFileEntry → FileRequest
  rs_get_meta rs_get_block : Str → FileRequest
  rs_get_blocks : List Str → FileRequest
  rs_delete rs_have : Str → FileRequest
  get_peers renew_get_version : FileRequest
  renew_get_binary_chunk : ℕ → ℕ → FileRequest

pub data FileResponse : Type 0 where
  pong : FileResponse
  zones : List Str → FileResponse
  files : Str → List FileMetadata → FileResponse
  file_data : Str → Bytes → Str → FileResponse
  file_meta : FileMeta → FileResponse
  file_chunk : FileChunk → FileResponse
  rs_files : List RsFileEntry → FileResponse
  rs_meta : RsFileEntry → FileResponse
  rs_block : RsBlock → FileResponse
  rs_blocks : List RsBlock → FileResponse
  rs_has : RsHave → FileResponse
  rs_ok : FileResponse
  peers : List PeerEntry → FileResponse
  error : Str → FileResponse
  renew_version : VersionInfo → FileResponse
  renew_binary_chunk : ℕ → Bytes → Bool → FileResponse
