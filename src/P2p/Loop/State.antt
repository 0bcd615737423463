-- ===== src/P2p/Loop/State.antt =====
-- p2p/service.rs: the commands of the service, and what its loop keeps.
use rxiu.Base.{
  ℕ, ◌-◌, Str, Bytes, str_eq, codes, Bool, List, [], ◌∷◌, ◌++◌, Option, none, some, map, length,
  drop, leb, ◌&&◌,
}
use rxiu.Base.Assoc.{lookup}
use rxiu.Error.{AppError}
use rxiu.External.{PeerId, Multiaddr, Libp2p}
use rxiu.Rs.Types.{RsFileEntry}
use rxiu.Storage.Local.{FileMetadata}
use rxiu.Renew.Version.{VersionInfo}
use rxiu.Recovery.{NetworkRecovery}
use rxiu.P2p.Messages.{FileMeta, FileChunk, RsBlock, RsHave}
use rxiu.P2p.Node.{PeerInfo, RequestId, Node}
use rxiu.Base.Decimal.{format_u64}

-- A command's `resp` is told from others by a number.
abbrev pub Ticket : Type 0
Ticket = ℕ

pub data ServiceCommand : Type 0 where
  get_peers get_peer_count : Ticket → ServiceCommand
  list_remote_zones : PeerId → Ticket → ServiceCommand
  list_remote_files : PeerId → Str → Ticket → ServiceCommand
  fetch_file get_file_meta : PeerId → Str → Str → Ticket → ServiceCommand
  get_file_chunk : PeerId → Str → Str → ℕ → ℕ → Ticket → ServiceCommand
  rs_list : PeerId → Ticket → ServiceCommand
  rs_announce : PeerId → RsFileEntry → ServiceCommand
  rs_get_meta rs_get_block : PeerId → Str → Ticket → ServiceCommand
  rs_get_blocks : PeerId → List Str → Ticket → ServiceCommand
  rs_have : PeerId → Str → Ticket → ServiceCommand
  rs_delete : PeerId → Str → ServiceCommand
  refresh_peers : Ticket → ServiceCommand
  renew_get_version : PeerId → Ticket → ServiceCommand
  renew_get_binary_chunk : PeerId → ℕ → ℕ → Ticket → ServiceCommand

-- What is sent on a `resp`; `failed` is an `Err`, and the others are values or an `Ok` of them.
pub data Answer : Type 0 where
  peers : List PeerInfo → Answer
  peer_count refreshed : ℕ → Answer
  zones : List Str → Answer
  files : List FileMetadata → Answer
  file : Bytes → Str → Answer
  file_meta : FileMeta → Answer
  file_chunk : FileChunk → Answer
  rs_files : List RsFileEntry → Answer
  rs_meta : RsFileEntry → Answer
  rs_block : RsBlock → Answer
  rs_blocks : List RsBlock → Answer
  rs_has : RsHave → Answer
  version : VersionInfo → Answer
  binary_chunk : Bytes → Bool → Answer
  failed : AppError → Answer

-- A waiting `Sender` is the command that it came with.
abbrev pub Senders : Type 0
Senders = List (Str × ServiceCommand)

-- The fields have the names of the loop's maps, less `pending_` and `_requests`.
pub record Pending : Type 0 where
  pub zone : Senders
  pub file_list : Senders
  pub file : Senders
  pub file_meta : Senders
  pub file_chunk : Senders
  pub rs_list : Senders
  pub rs_meta : Senders
  pub rs_block : Senders
  pub rs_block_ids : List (RequestId × Str)
  pub rs_blocks : Senders
  pub rs_have : Senders
  pub rs_have_ids : List (RequestId × Str)
  pub renew_version : Senders
  pub renew_chunk : Senders

-- `HashMap::new()` for each.
abbrev pub no_pending : Pending
no_pending = record {
  zone = [];
  file_list = [];
  file = [];
  file_meta = [];
  file_chunk = [];
  rs_list = [];
  rs_meta = [];
  rs_block = [];
  rs_block_ids = [];
  rs_blocks = [];
  rs_have = [];
  rs_have_ids = [];
  renew_version = [];
  renew_chunk = [];
}

-- `World` is what `handle_incoming_request` works on, `known` the text of the peer store's file, and `replies`
-- what has been sent on the commands' `resp`, the last first.
pub record LoopState (Text S World : Type 0) : Type 0 where
  pub node : Node S
  pub pending : Pending
  pub misses : List (PeerId × ℕ)
  pub pings : List PeerId
  pub recovery : NetworkRecovery
  pub known : Option Text
  pub world : World
  pub replies : List (ServiceCommand × Answer)

-- `format!("{}:{}", …)`
abbrev pub pair_key : Str → Str → Str
pair_key a b = a ++ (codes ":" ++ b)

unfoldable pub chunk_key : Str → Str → ℕ → Str
unfolding format_u64
chunk_key zone name offset = pair_key zone (pair_key name (format_u64 offset))

unfoldable pub renew_key : PeerId → ℕ → Str
unfolding format_u64
renew_key peer_id offset = pair_key peer_id (format_u64 offset)

-- `str::ends_with`
unfoldable pub ends_with : Str → Str → Bool
ends_with s suffix =
    leb (length suffix) (length s) && str_eq (drop (length s - length suffix) s) suffix

-- `send` on what `remove` finds.
unfoldable pub answer :
    Str → Senders → Answer → List (ServiceCommand × Answer) → List (ServiceCommand × Answer)
answer key senders a replies = elim (lookup key senders) [
  | none ↦ replies
  | some command ↦ (command, a) ∷ replies
]

-- `send` on what `drain` gives.
abbrev pub fail_all :
    Senders → AppError → List (ServiceCommand × Answer) → List (ServiceCommand × Answer)
fail_all senders e replies = map (λ s. (s.1, Answer.failed e)) senders ++ replies

-- `parse_first_addr` of `PeerEntry`, and the loops over the addresses of a persisted peer.
unfoldable pub first_addr : Libp2p → List Str → Option Multiaddr
first_addr net [] = none
first_addr net (addr ∷ addrs) =
    let rest = first_addr net addrs in elim (net.parse_addr addr) [ none ↦ rest | some a ↦ some a ]
