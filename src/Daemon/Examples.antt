-- ===== src/Daemon/Examples.antt =====
-- A daemon whose service answers at once, and whose messages are tags.
use rxiu.Base.{
  ℕ, ◌+◌, ◌*◌, ◌≡◌, refl, Str, Bytes, codes, false, List, [], ◌∷◌, none, some, ◌⊎◌, inl, inr,
  get_elem?, arith,
}
use rxiu.Error.{ok, err, io, to_string}
use rxiu.External.{Cbor, Libp2p, PeerId}
use rxiu.P2p.Messages.{FileMeta, FileChunk, RsBlock, RsHave}
use rxiu.Daemon.Protocol.{DaemonRequest, DaemonResponse}
use rxiu.Daemon.Server.{Service, SyncManager, handle_request}
use rxiu.Daemon.Proxy.Relay.{proxy, relay, zones-relay, rs-relay}
use rxiu.Samples.{file_b}

abbrev p : PeerId
p = codes "12D3"

abbrev zone : Str
zone = codes "work"

abbrev name : Str
name = codes "a.txt"

abbrev meta : FileMeta
meta = record { zone = zone; name = name; size = 1; hash = name; chunk_size = 4; chunks = 1 }

abbrev chunk : FileChunk
chunk = record { zone = zone; name = name; offset = 0; content = 7 ∷ []; hash = name }

abbrev piece : RsBlock
piece = record { hash = name; content = 7 ∷ [] }

abbrev have : RsHave
have = record { name = name; hashes = [] }

abbrev net : Libp2p
net = record { parse_peer_id = some; parse_addr = some }

-- The world is a count of calls.
abbrev service : Service ℕ
service = record {
  local_peer_id = p;
  get_peers = λ v. ([], v);
  peer_count = λ v. (3, v);
  list_remote_zones = λ q v. (ok (zone ∷ []), v + 1);
  list_remote_files = λ q z v. (err (io (codes "gone")), v + 1);
  fetch_file = λ q z n v. (ok (7 ∷ [], n), v + 1);
  get_file_meta = λ q z n v. (ok meta, v);
  get_file_chunk = λ q z n o s v. (ok chunk, v);
  rs_list = λ q v. (ok (file_b ∷ []), v);
  rs_announce = λ q f v. (ok tt, v + 1);
  rs_get_meta = λ q n v. (ok file_b, v);
  rs_get_block = λ q h v. (ok piece, v);
  rs_get_blocks = λ q h v. (ok (piece ∷ []), v);
  rs_have = λ q n v. (ok have, v);
  rs_delete = λ q n v. (err (io (codes "gone")), v);
  refresh_peers = λ v. (ok 3, v);
}

abbrev manager : SyncManager ℕ
manager = record {
  trigger = λ v. v + 1;
  status = λ v. record {
    in_progress = false;
    last_updated_files = 0;
    last_error = none;
    global_sync = false;
    download_concurrency = 1;
    sync_concurrency = 1;
    block_size_mb = 1;
  };
}

abbrev untag : {A : Type 0} → List A → Bytes → Str ⊎ A
untag values [] = inl []
untag values (tag ∷ rest) = elim (get_elem? values tag) [ none ↦ inl [] | some a ↦ inr a ]

abbrev request_tag : DaemonRequest → Bytes
request_tag r = elim r [
  | DaemonRequest.list_remote_zones _ ↦ 0 ∷ []
  | DaemonRequest.list_remote_files _ _ ↦ 1 ∷ []
  | DaemonRequest.fetch_file _ _ _ ↦ 2 ∷ []
  | DaemonRequest.get_file_meta _ _ _ ↦ 3 ∷ []
  | DaemonRequest.get_file_chunk _ _ _ _ _ ↦ 4 ∷ []
  | DaemonRequest.rs_list _ ↦ 5 ∷ []
  | DaemonRequest.rs_announce _ _ ↦ 6 ∷ []
  | DaemonRequest.rs_get_meta _ _ ↦ 7 ∷ []
  | DaemonRequest.rs_get_block _ _ ↦ 8 ∷ []
  | DaemonRequest.rs_get_blocks _ _ ↦ 9 ∷ []
  | DaemonRequest.rs_have _ _ ↦ 10 ∷ []
  | DaemonRequest.rs_delete _ _ ↦ 11 ∷ []
  | _ ↦ []
]

abbrev req_cbor : Cbor DaemonRequest
req_cbor = record {
  to_vec = request_tag;
  from_slice = untag (
      DaemonRequest.list_remote_zones p
      ∷ DaemonRequest.list_remote_files p zone
      ∷ DaemonRequest.fetch_file p zone name
      ∷ DaemonRequest.get_file_meta p zone name
      ∷ DaemonRequest.get_file_chunk p zone name 0 2
      ∷ DaemonRequest.rs_list p
      ∷ DaemonRequest.rs_announce p file_b
      ∷ DaemonRequest.rs_get_meta p name
      ∷ DaemonRequest.rs_get_block p name
      ∷ DaemonRequest.rs_get_blocks p (name ∷ [])
      ∷ DaemonRequest.rs_have p name
      ∷ DaemonRequest.rs_delete p name
      ∷ []);
}

abbrev response_tag : DaemonResponse → Bytes
response_tag r = elim r [
  | DaemonResponse.zones _ ↦ 0 ∷ []
  | DaemonResponse.error _ ↦ 1 ∷ []
  | DaemonResponse.file_data _ _ ↦ 2 ∷ []
  | DaemonResponse.file_meta _ ↦ 3 ∷ []
  | DaemonResponse.file_chunk _ ↦ 4 ∷ []
  | DaemonResponse.rs_files _ ↦ 5 ∷ []
  | DaemonResponse.done ↦ 6 ∷ []
  | DaemonResponse.rs_meta _ ↦ 7 ∷ []
  | DaemonResponse.rs_block _ ↦ 8 ∷ []
  | DaemonResponse.rs_blocks _ ↦ 9 ∷ []
  | DaemonResponse.rs_has _ ↦ 10 ∷ []
  | _ ↦ []
]

abbrev resp_cbor : Cbor DaemonResponse
resp_cbor = record {
  to_vec = response_tag;
  from_slice = untag (
      DaemonResponse.zones (zone ∷ [])
      ∷ DaemonResponse.error (codes "IO error: gone")
      ∷ DaemonResponse.file_data (7 ∷ []) name
      ∷ DaemonResponse.file_meta meta
      ∷ DaemonResponse.file_chunk chunk
      ∷ DaemonResponse.rs_files (file_b ∷ [])
      ∷ DaemonResponse.done
      ∷ DaemonResponse.rs_meta file_b
      ∷ DaemonResponse.rs_block piece
      ∷ DaemonResponse.rs_blocks (piece ∷ [])
      ∷ DaemonResponse.rs_has have
      ∷ DaemonResponse.local_peer_id p
      ∷ DaemonResponse.peers []
      ∷ DaemonResponse.peer_count 3
      ∷ []);
}

-- A step of the world takes a second.
abbrev clock : ℕ → ℕ
clock w = w * 1000

abbrev via : Service ℕ
via = proxy net service manager req_cbor resp_cbor clock

zones-relay_example :
    (via.list_remote_zones p 4 ≡ relay (service.list_remote_zones p 4))
    × (via.list_remote_files p zone 4 ≡ relay (service.list_remote_files p zone 4))
    × (via.fetch_file p zone name 4 ≡ relay (service.fetch_file p zone name 4))
    × (via.get_file_meta p zone name 4 ≡ relay (service.get_file_meta p zone name 4))
    × (via.get_file_chunk p zone name 0 2 4 ≡ relay (service.get_file_chunk p zone name 0 2 4))
unfolding handle_request to_string
zones-relay_example =
    zones-relay net service manager req_cbor resp_cbor clock p zone name 0 2 4 refl (
      (refl, refl, omega arith, omega arith, omega arith),
      (
        (refl, refl, omega arith, omega arith, omega arith),
        (
          (refl, refl, omega arith, omega arith, omega arith),
          (
            (refl, refl, omega arith, omega arith, omega arith),
            ((refl, refl, omega arith, omega arith, omega arith), tt),
          ),
        ),
      ),
    )

rs-relay_example :
    (via.rs_list p 4 ≡ relay (service.rs_list p 4))
    × (via.rs_announce p file_b 4 ≡ relay (service.rs_announce p file_b 4))
    × (via.rs_get_meta p name 4 ≡ relay (service.rs_get_meta p name 4))
    × (via.rs_get_block p name 4 ≡ relay (service.rs_get_block p name 4))
    × (via.rs_get_blocks p (name ∷ []) 4 ≡ relay (service.rs_get_blocks p (name ∷ []) 4))
    × (via.rs_have p name 4 ≡ relay (service.rs_have p name 4))
    × (via.rs_delete p name 4 ≡ relay (service.rs_delete p name 4))
unfolding handle_request to_string
rs-relay_example =
    rs-relay net service manager req_cbor resp_cbor clock p name name (name ∷ []) file_b 4 refl (
      (refl, refl, omega arith, omega arith, omega arith),
      (
        (refl, refl, omega arith, omega arith, omega arith),
        (
          (refl, refl, omega arith, omega arith, omega arith),
          (
            (refl, refl, omega arith, omega arith, omega arith),
            (
              (refl, refl, omega arith, omega arith, omega arith),
              (
                (refl, refl, omega arith, omega arith, omega arith),
                ((refl, refl, omega arith, omega arith, omega arith), tt),
              ),
            ),
          ),
        ),
      ),
    )
