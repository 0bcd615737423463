-- ===== src/P2p/Service.antt =====
-- p2p/service.rs: how a node answers a request from a peer.
pub mod Answers
pub mod Replies
use rxiu.Base.{
  ℕ, ◌+◌, ◌-◌, ◌/◌, ◌%◌, ◌^◌, Str, Bytes, str_eq, codes, Bool, true, false, List, [], ◌∷◌, ◌++◌,
  Option, none, some, if◌then◌else◌, find, ◌==◌, unwrap_or,
}
use rxiu.Base.Assoc.{lookup}
use rxiu.Error.{Result, ok, err, to_string}
use rxiu.External.{Json, Sha256}
use rxiu.Rs.Types.{RsFileEntry, RsMetadata, RsDisk}
use rxiu.Rs.Metadata.{list_files, get_file}
use rxiu.Rs.Blocks.{sha256_bytes, read_block, file_block_hashes, remove_file, apply_remote_meta}
use rxiu.Storage.Local.{FileMetadata, ZoneDisk, list, retrieve, read_chunk}
use rxiu.Storage.Zones.{ZoneManager, Home, get_zone, empty_zone}
use rxiu.Renew.Version.{VersionInfo}
use rxiu.Renew.Chunk.{get_binary_chunk}
use rxiu.P2p.Messages.{
  FileMeta, FileChunk, RsBlock, RsHave, FileRequest, FileResponse, file_chunk_size,
}

-- What the handler works on: the zones and their directories, and the block store. They are places of their own, though a
-- block that is announced under a name like `../../zones/…` lies in a zone's directory: see RsDisk.
pub record Shared (Text : Type 0) : Type 0 where
  pub manager : ZoneManager
  pub home : Home Text
  pub rs : RsDisk Text

-- The number of chunks of `GetFileMeta`, on u64.
unfoldable pub chunk_count : ℕ → ℕ
chunk_count size =
    if size == 0 then 0 else ((size + file_chunk_size + 2 ^ 64 - 1) % 2 ^ 64) / file_chunk_size

-- The loop of `RsGetBlocks`: the first block that cannot be read is the answer's error.
unfoldable pub read_blocks : {Text : Type 0} → List Str → RsDisk Text → Result (List RsBlock)
unfolding read_block
read_blocks [] d = ok []
read_blocks (hash ∷ hashes) d =
    let rest = read_blocks hashes d in
    elim (read_block hash d) [
      | err e ↦ err e
      | ok content ↦ elim rest [
        | err e ↦ err e
        | ok blocks ↦ ok (record { hash = hash; content = content } ∷ blocks)
      ]
    ]

module _ {Text : Type 0} (sha : Sha256) (json : Json Text (List FileMetadata))
    (rs_json : Json Text RsMetadata) (short : ℕ → ℕ) (version : Result VersionInfo)
    (exe : Result Bytes) where
  -- A zone of the manager has its directory, which `open_backend` made.
  unfoldable pub with_zone : Str → Shared Text → (ZoneDisk Text → FileResponse) → FileResponse
  unfolding get_zone
  with_zone zone s f = elim (get_zone zone s.manager) [
    | none ↦ FileResponse.error (codes "Zone '" ++ zone ++ codes "' not found")
    | some z ↦ f (unwrap_or (lookup z s.home.directories) empty_zone)
  ]

  unfoldable pub answer_files : Str → ZoneDisk Text → FileResponse
  unfolding list
  answer_files zone z = elim (list json z) [
    | ok found ↦ FileResponse.files zone found
    | err e ↦ FileResponse.error (codes "Failed to list files: " ++ to_string e)
  ]

  unfoldable pub answer_file : Str → ZoneDisk Text → FileResponse
  unfolding retrieve sha256_bytes
  answer_file name z = elim (retrieve name z) [
    | ok content ↦ FileResponse.file_data name content (sha256_bytes sha content)
    | err e ↦ FileResponse.error (codes "Failed to get file: " ++ to_string e)
  ]

  unfoldable pub answer_meta : Str → Str → ZoneDisk Text → FileResponse
  unfolding list chunk_count
  answer_meta zone name z = elim (list json z) [
    | err e ↦ FileResponse.error (codes "Failed to list files: " ++ to_string e)
    | ok found ↦ elim (find (λ f. str_eq f.name name) found) [
      | none ↦ FileResponse.error (codes "File '" ++ name ++ codes "' not found")
      | some m ↦ FileResponse.file_meta (record {
        zone = zone;
        name = m.name;
        size = m.size;
        hash = m.content_hash;
        chunk_size = file_chunk_size;
        chunks = chunk_count m.size;
      })
    ]
  ]

  unfoldable pub answer_chunk : Str → Str → ℕ → ℕ → ZoneDisk Text → FileResponse
  unfolding read_chunk sha256_bytes
  answer_chunk zone name offset size z = elim (read_chunk short name offset size z) [
    | err e ↦ FileResponse.error (codes "Failed to read chunk: " ++ to_string e)
    | ok content ↦ FileResponse.file_chunk (record {
      zone = zone;
      name = name;
      offset = offset;
      content = content;
      hash = sha256_bytes sha content;
    })
  ]

  -- `GetPeers` is answered by the service's loop before it comes here.
  unfoldable pub handle_incoming_request : FileRequest → Shared Text → FileResponse × Shared Text
  unfolding with_zone answer_files answer_file answer_meta answer_chunk list_files get_file
      read_block read_blocks file_block_hashes remove_file apply_remote_meta get_binary_chunk
  handle_incoming_request FileRequest.ping s = (FileResponse.pong, s)
  handle_incoming_request FileRequest.list_zones s = (FileResponse.zones s.manager.zones, s)
  handle_incoming_request (FileRequest.list_files zone) s =
      (with_zone zone s (answer_files zone), s)
  handle_incoming_request (FileRequest.get_file zone name) s =
      (with_zone zone s (answer_file name), s)
  handle_incoming_request (FileRequest.get_file_meta zone name) s =
      (with_zone zone s (answer_meta zone name), s)
  handle_incoming_request (FileRequest.get_file_chunk zone name offset size) s =
      (with_zone zone s (answer_chunk zone name offset size), s)
  handle_incoming_request FileRequest.rs_list s = elim (list_files rs_json s.rs) [
    | ok found ↦ (FileResponse.rs_files found, s)
    | err e ↦ (FileResponse.error (codes "Failed to list RS files: " ++ to_string e), s)
  ]
  handle_incoming_request (FileRequest.rs_announce file) s =
      let (result, rs') = apply_remote_meta rs_json file s.rs in
      elim result [
        | ok _ ↦ (FileResponse.rs_ok, record s { rs = rs' })
        | err e ↦ (
          FileResponse.error (codes "Failed to apply RS meta: " ++ to_string e),
          record s { rs = rs' },
        )
      ]
  handle_incoming_request (FileRequest.rs_get_meta name) s = elim (get_file rs_json name s.rs) [
    | err e ↦ (FileResponse.error (codes "Failed to get RS meta: " ++ to_string e), s)
    | ok none ↦ (FileResponse.error (codes "RS file '" ++ name ++ codes "' not found"), s)
    | ok (some file) ↦ (FileResponse.rs_meta file, s)
  ]
  handle_incoming_request (FileRequest.rs_get_block hash) s = elim (read_block hash s.rs) [
    | ok content ↦ (FileResponse.rs_block (record { hash = hash; content = content }), s)
    | err e ↦ (FileResponse.error (codes "Failed to read RS block: " ++ to_string e), s)
  ]
  handle_incoming_request (FileRequest.rs_get_blocks hashes) s = elim (read_blocks hashes s.rs) [
    | ok blocks ↦ (FileResponse.rs_blocks blocks, s)
    | err e ↦ (FileResponse.error (codes "Failed to read RS block: " ++ to_string e), s)
  ]
  handle_incoming_request (FileRequest.rs_have name) s =
      elim (file_block_hashes rs_json name s.rs) [
        | ok hashes ↦ (FileResponse.rs_has (record { name = name; hashes = hashes }), s)
        | err e ↦
            (FileResponse.error (codes "Failed to read RS block availability: " ++ to_string e), s)
      ]
  handle_incoming_request (FileRequest.rs_delete name) s =
      let (result, rs') = remove_file rs_json name s.rs in
      elim result [
        | ok _ ↦ (FileResponse.rs_ok, record s { rs = rs' })
        | err e ↦ (
          FileResponse.error (codes "Failed to delete RS file: " ++ to_string e),
          record s { rs = rs' },
        )
      ]
  handle_incoming_request FileRequest.get_peers s =
      (FileResponse.error (codes "GetPeers should be handled inline"), s)
  handle_incoming_request FileRequest.renew_get_version s = elim version [
    | ok info ↦ (FileResponse.renew_version info, s)
    | err e ↦ (FileResponse.error (codes "Failed to get version: " ++ to_string e), s)
  ]
  handle_incoming_request (FileRequest.renew_get_binary_chunk offset len) s =
      elim (get_binary_chunk short exe offset len) [
        | ok (content, is_last) ↦ (FileResponse.renew_binary_chunk offset content is_last, s)
        | err e ↦ (FileResponse.error (codes "Failed to get binary chunk: " ++ to_string e), s)
      ]
