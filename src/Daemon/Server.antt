-- ===== src/Daemon/Server.antt =====
-- daemon/server.rs: what the daemon answers. The methods of the P2P service and of the sync manager are an interface;
-- `World` is all that they read and change.
use rxiu.Base.{
  ℕ, zero, suc, ◌*◌, Str, Bytes, codes, Bool, true, false, List, [], ◌∷◌, ◌++◌, none, some, inl,
  inr, if◌then◌else◌, length, take, drop, ltb,
}
use rxiu.Error.{Result, ok, err, to_string}
use rxiu.External.{Cbor, PeerId, Libp2p}
use rxiu.Rs.Types.{RsFileEntry}
use rxiu.Storage.Local.{FileMetadata}
use rxiu.P2p.Messages.{FileMeta, FileChunk, RsBlock, RsHave}
use rxiu.Wire.Frame.{from_be_bytes, encode_message}
use rxiu.P2p.Node.{PeerInfo}
use rxiu.Daemon.Protocol.{RsSyncStatus, DaemonRequest, DaemonResponse}

-- The public methods of `P2PService` that the daemon calls, each with the world that it leaves.
pub record Service (World : Type 0) : Type 0 where
  pub local_peer_id : PeerId
  pub get_peers : World → List PeerInfo × World
  pub peer_count : World → ℕ × World
  pub list_remote_zones : PeerId → World → Result (List Str) × World
  pub list_remote_files : PeerId → Str → World → Result (List FileMetadata) × World
  pub fetch_file : PeerId → Str → Str → World → Result (Bytes × Str) × World
  pub get_file_meta : PeerId → Str → Str → World → Result FileMeta × World
  pub get_file_chunk : PeerId → Str → Str → ℕ → ℕ → World → Result FileChunk × World
  pub rs_list : PeerId → World → Result (List RsFileEntry) × World
  pub rs_announce : PeerId → RsFileEntry → World → Result (Unit {0}) × World
  pub rs_get_meta : PeerId → Str → World → Result RsFileEntry × World
  pub rs_get_block : PeerId → Str → World → Result RsBlock × World
  pub rs_get_blocks : PeerId → List Str → World → Result (List RsBlock) × World
  pub rs_have : PeerId → Str → World → Result RsHave × World
  pub rs_delete : PeerId → Str → World → Result (Unit {0}) × World
  pub refresh_peers : World → Result ℕ × World

-- `RsSyncManager`
pub record SyncManager (World : Type 0) : Type 0 where
  pub trigger : World → World
  pub status : World → RsSyncStatus

-- The two inner matches of each arm: on the method's result, and on the parsed peer id.
abbrev pub respond {ℓ} :
    {A : Type ℓ} {World : Type 0} → (A → DaemonResponse) → Result A × World → DaemonResponse × World
respond f r = elim r.0 [ ok a ↦ (f a, r.1) | err e ↦ (DaemonResponse.error (to_string e), r.1) ]

abbrev pub with_peer :
    {World : Type 0}
    → Libp2p
    → Str
    → (PeerId → World → DaemonResponse × World)
    → World
    → DaemonResponse × World
with_peer net peer_id f w = elim (net.parse_peer_id peer_id) [
  | none ↦ (DaemonResponse.error (codes "Invalid peer ID"), w)
  | some pid ↦ f pid w
]

-- How a connection ends: by `Ok(())`, by an I/O error, or with the process.
pub data Ending : Type 0 where
  closed failed exited : Ending

abbrev pub max_request : ℕ
max_request = 100 * 1024 * 1024

abbrev pub is_shutdown : DaemonResponse → Bool
is_shutdown DaemonResponse.shutting_down = true
is_shutdown _ = false

module _ {World : Type 0} (net : Libp2p) (p2p : Service World)
    (sync_manager : SyncManager World) where
  unfoldable pub handle_request : DaemonRequest → World → DaemonResponse × World
  handle_request DaemonRequest.ping w = (DaemonResponse.pong, w)
  handle_request DaemonRequest.shutdown w = (DaemonResponse.shutting_down, w)
  handle_request DaemonRequest.get_local_peer_id w =
      (DaemonResponse.local_peer_id p2p.local_peer_id, w)
  handle_request DaemonRequest.get_peers w =
      let (peers, w') = p2p.get_peers w in (DaemonResponse.peers peers, w')
  handle_request DaemonRequest.get_peer_count w =
      let (count, w') = p2p.peer_count w in (DaemonResponse.peer_count count, w')
  handle_request (DaemonRequest.list_remote_zones peer_id) w =
      with_peer net peer_id (λ pid v. respond DaemonResponse.zones (p2p.list_remote_zones pid v)) w
  handle_request (DaemonRequest.list_remote_files peer_id zone) w =
      with_peer net peer_id
        (λ pid v. respond DaemonResponse.files (p2p.list_remote_files pid zone v)) w
  handle_request (DaemonRequest.fetch_file peer_id zone name) w =
      with_peer net peer_id
        (λ pid v. respond (λ f. DaemonResponse.file_data f.0 f.1) (p2p.fetch_file pid zone name v))
        w
  handle_request (DaemonRequest.get_file_meta peer_id zone name) w =
      with_peer net peer_id
        (λ pid v. respond DaemonResponse.file_meta (p2p.get_file_meta pid zone name v)) w
  handle_request (DaemonRequest.get_file_chunk peer_id zone name offset size) w =
      with_peer net peer_id
        (λ pid v.
          respond DaemonResponse.file_chunk (p2p.get_file_chunk pid zone name offset size v))
        w
  handle_request (DaemonRequest.rs_list peer_id) w =
      with_peer net peer_id (λ pid v. respond DaemonResponse.rs_files (p2p.rs_list pid v)) w
  handle_request (DaemonRequest.rs_announce peer_id file) w =
      with_peer net peer_id
        (λ pid v. respond (λ _. DaemonResponse.done) (p2p.rs_announce pid file v)) w
  handle_request (DaemonRequest.rs_get_meta peer_id name) w =
      with_peer net peer_id (λ pid v. respond DaemonResponse.rs_meta (p2p.rs_get_meta pid name v)) w
  handle_request (DaemonRequest.rs_get_block peer_id hash) w =
      with_peer net peer_id (λ pid v. respond DaemonResponse.rs_block (p2p.rs_get_block pid hash v))
        w
  handle_request (DaemonRequest.rs_get_blocks peer_id hashes) w =
      with_peer net peer_id
        (λ pid v. respond DaemonResponse.rs_blocks (p2p.rs_get_blocks pid hashes v)) w
  handle_request (DaemonRequest.rs_have peer_id name) w =
      with_peer net peer_id (λ pid v. respond DaemonResponse.rs_has (p2p.rs_have pid name v)) w
  handle_request (DaemonRequest.rs_delete peer_id name) w =
      with_peer net peer_id (λ pid v. respond (λ _. DaemonResponse.done) (p2p.rs_delete pid name v))
        w
  handle_request DaemonRequest.rs_sync w = (DaemonResponse.done, sync_manager.trigger w)
  handle_request DaemonRequest.rs_sync_status w =
      (DaemonResponse.sync_status (sync_manager.status w), w)
  handle_request DaemonRequest.refresh_peers w =
      respond DaemonResponse.peer_count (p2p.refresh_peers w)

  -- What a turn of the loop does behind the length; `next` is the rest of the loop.
  unfoldable pub handle_message :
      Cbor DaemonRequest
      → Cbor DaemonResponse
      → ℕ
      → Bytes
      → (Bytes → World → Bytes × Ending × World)
      → World
      → Bytes × Ending × World
  unfolding handle_request
  handle_message req_cbor resp_cbor len rest next w =
      if ltb max_request len
      then ([], closed, w)
      else if ltb (length rest) len
      then ([], failed, w)
      else elim (req_cbor.from_slice (take len rest)) [
        | inl e ↦
            let resp = DaemonResponse.error (codes "Invalid request: " ++ e) in
            let (out, ending, w') = next (drop len rest) w in
            (encode_message (resp_cbor.to_vec resp) ++ out, ending, w')
        | inr request ↦
            let (response, v) = handle_request request w in
            let sent = encode_message (resp_cbor.to_vec response) in
            let (out, ending, w') = next (drop len rest) v in
            if is_shutdown response then (sent, exited, v) else (sent ++ out, ending, w')
      ]

  -- The loop of a connection, whose input is what the client sends until it closes it: what the daemon sends, how the
  -- connection ends and the world after it. Every turn reads a length, so fuel beyond the input's length is enough.
  unfoldable pub handle_client :
      Cbor DaemonRequest → Cbor DaemonResponse → ℕ → Bytes → World → Bytes × Ending × World
  unfolding handle_message
  handle_client req_cbor resp_cbor zero input w = ([], closed, w)
  handle_client req_cbor resp_cbor (suc fuel) [] w = ([], closed, w)
  handle_client req_cbor resp_cbor (suc fuel) (a ∷ []) w = ([], closed, w)
  handle_client req_cbor resp_cbor (suc fuel) (a ∷ b ∷ []) w = ([], closed, w)
  handle_client req_cbor resp_cbor (suc fuel) (a ∷ b ∷ c ∷ []) w = ([], closed, w)
  handle_client req_cbor resp_cbor (suc fuel) (a ∷ b ∷ c ∷ d ∷ rest) w =
      handle_message req_cbor resp_cbor (from_be_bytes a b c d) rest
        (handle_client req_cbor resp_cbor fuel) w
