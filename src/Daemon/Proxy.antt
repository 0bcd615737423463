-- ===== src/Daemon/Proxy.antt =====
-- daemon/proxy.rs: the P2P service as the terminal interface sees it. `connect` is what a new connection to the daemon
-- does: the text of the I/O error, or, for what the client sends on it, the milliseconds until the daemon answers, what it sends
-- back and the world when it is done. The answer is there all at once. A proxy that stops waiting does not see the later world
-- yet. The limits for connecting and for writing are part of `connect`.
pub mod Exchange
pub mod Relay
pub mod EndToEnd
mod Examples
use rxiu.Base.{
  ℕ, Str, Bytes, codes, List, [], ◌++◌, Option, none, some, ◌⊎◌, inl, inr, if◌then◌else◌, length,
  take, drop, ltb, leb, ◌*◌,
}
use rxiu.Error.{Result, ok, err, io, ◌>>=◌}
use rxiu.External.{Cbor, PeerId, Libp2p}
use rxiu.Rs.Types.{RsFileEntry}
use rxiu.Storage.Local.{FileMetadata}
use rxiu.P2p.Messages.{FileMeta, FileChunk, RsBlock, RsHave}
use rxiu.Wire.Frame.{encode_message, parse_length}
use rxiu.P2p.Node.{PeerInfo}
use rxiu.Daemon.Protocol.{RsSyncStatus, DaemonRequest, DaemonResponse}

-- `read_exact` that finds the end of the stream.
abbrev pub short_read : Str
short_read = codes "failed to fill whole buffer"

unfoldable pub recv_response : Cbor DaemonResponse → Bytes → Result DaemonResponse
unfolding parse_length
recv_response resp_cbor stream = elim (parse_length stream) [
  | none ↦ err (io short_read)
  | some len ↦
      let payload = drop 4 stream in
      if ltb (length payload) len
      then err (io short_read)
      else elim (resp_cbor.from_slice (take len payload)) [
        | inl e ↦ err (io (codes "CBOR parse error: " ++ e))
        | inr response ↦ ok response
      ]
]

-- `set_read_timeout`, in milliseconds, and the error of a read that takes as long.
abbrev pub read_timeout : ℕ
read_timeout = 120 * 1000

abbrev pub timed_out : Str
timed_out = codes "Resource temporarily unavailable (os error 11)"

-- The last two arms of every match on a response.
unfoldable pub refuse {ℓ} : {A : Type ℓ} → DaemonResponse → Result A
refuse (DaemonResponse.error e) = err (io e)
refuse response = err (io (codes "Unexpected response"))

-- A match that expects one kind of response.
unfoldable pub expect {ℓ} : {A : Type ℓ} → (DaemonResponse → Option A) → DaemonResponse → Result A
unfolding refuse
expect pick response = elim (pick response) [ some a ↦ ok a | none ↦ refuse response ]

module _ {World : Type 0} (req_cbor : Cbor DaemonRequest) (resp_cbor : Cbor DaemonResponse)
    (connect : Bytes → World → Str ⊎ (ℕ × Bytes × World)) where
  -- A connection for one request.
  unfoldable pub request : DaemonRequest → World → Result DaemonResponse × World
  unfolding recv_response
  request req w = elim (connect (encode_message (req_cbor.to_vec req)) w) [
    | inl e ↦ (err (io e), w)
    | inr (wait, answer, w') ↦
        (if leb read_timeout wait then err (io timed_out) else recv_response resp_cbor answer, w')
  ]

  -- `match self.request(req)? { … }`
  unfoldable pub ask {ℓ} :
      {A : Type ℓ} → (DaemonResponse → Option A) → DaemonRequest → World → Result A × World
  unfolding request expect
  ask pick req w = let (result, w') = request req w in (result >>= expect pick, w')

  -- `P2PProxy::connect`, which asks the daemon for its peer id.
  unfoldable pub local_peer_id : Libp2p → World → Result PeerId × World
  unfolding ask
  local_peer_id net w =
      let (answer, w') =
        ask (λ r. elim r [ DaemonResponse.local_peer_id id ↦ some id | _ ↦ none ])
          DaemonRequest.get_local_peer_id w in
      (
        answer >>= λ id. elim (net.parse_peer_id id) [
          | none ↦ err (io (codes "Invalid peer ID"))
          | some peer_id ↦ ok peer_id
        ],
        w',
      )

  unfoldable pub get_peers : World → List PeerInfo × World
  unfolding request
  get_peers w =
      let (result, w') = request DaemonRequest.get_peers w in
      (
        elim result [
          | err e ↦ []
          | ok response ↦ elim response [ DaemonResponse.peers peers ↦ peers | _ ↦ [] ]
        ],
        w',
      )

  unfoldable pub peer_count : World → ℕ × World
  unfolding request
  peer_count w =
      let (result, w') = request DaemonRequest.get_peer_count w in
      (
        elim result [
          | err e ↦ 0
          | ok response ↦ elim response [ DaemonResponse.peer_count count ↦ count | _ ↦ 0 ]
        ],
        w',
      )

  unfoldable pub list_remote_zones : PeerId → World → Result (List Str) × World
  unfolding ask
  list_remote_zones peer_id =
      ask (λ r. elim r [ DaemonResponse.zones zones ↦ some zones | _ ↦ none ])
        (DaemonRequest.list_remote_zones peer_id)

  unfoldable pub list_remote_files : PeerId → Str → World → Result (List FileMetadata) × World
  unfolding ask
  list_remote_files peer_id zone =
      ask (λ r. elim r [ DaemonResponse.files files ↦ some files | _ ↦ none ])
        (DaemonRequest.list_remote_files peer_id zone)

  unfoldable pub fetch_file : PeerId → Str → Str → World → Result (Bytes × Str) × World
  unfolding ask
  fetch_file peer_id zone name =
      ask (λ r. elim r [ DaemonResponse.file_data content hash ↦ some (content, hash) | _ ↦ none ])
        (DaemonRequest.fetch_file peer_id zone name)

  unfoldable pub get_file_meta : PeerId → Str → Str → World → Result FileMeta × World
  unfolding ask
  get_file_meta peer_id zone name =
      ask (λ r. elim r [ DaemonResponse.file_meta meta ↦ some meta | _ ↦ none ])
        (DaemonRequest.get_file_meta peer_id zone name)

  unfoldable pub get_file_chunk : PeerId → Str → Str → ℕ → ℕ → World → Result FileChunk × World
  unfolding ask
  get_file_chunk peer_id zone name offset size =
      ask (λ r. elim r [ DaemonResponse.file_chunk chunk ↦ some chunk | _ ↦ none ])
        (DaemonRequest.get_file_chunk peer_id zone name offset size)

  unfoldable pub rs_list : PeerId → World → Result (List RsFileEntry) × World
  unfolding ask
  rs_list peer_id =
      ask (λ r. elim r [ DaemonResponse.rs_files files ↦ some files | _ ↦ none ])
        (DaemonRequest.rs_list peer_id)

  unfoldable pub rs_announce : PeerId → RsFileEntry → World → Result (Unit {0}) × World
  unfolding ask
  rs_announce peer_id file =
      ask (λ r. elim r [ DaemonResponse.done ↦ some tt | _ ↦ none ])
        (DaemonRequest.rs_announce peer_id file)

  unfoldable pub rs_get_meta : PeerId → Str → World → Result RsFileEntry × World
  unfolding ask
  rs_get_meta peer_id name =
      ask (λ r. elim r [ DaemonResponse.rs_meta meta ↦ some meta | _ ↦ none ])
        (DaemonRequest.rs_get_meta peer_id name)

  unfoldable pub rs_get_block : PeerId → Str → World → Result RsBlock × World
  unfolding ask
  rs_get_block peer_id hash =
      ask (λ r. elim r [ DaemonResponse.rs_block block ↦ some block | _ ↦ none ])
        (DaemonRequest.rs_get_block peer_id hash)

  unfoldable pub rs_get_blocks : PeerId → List Str → World → Result (List RsBlock) × World
  unfolding ask
  rs_get_blocks peer_id hashes =
      ask (λ r. elim r [ DaemonResponse.rs_blocks blocks ↦ some blocks | _ ↦ none ])
        (DaemonRequest.rs_get_blocks peer_id hashes)

  unfoldable pub rs_have : PeerId → Str → World → Result RsHave × World
  unfolding ask
  rs_have peer_id name =
      ask (λ r. elim r [ DaemonResponse.rs_has have ↦ some have | _ ↦ none ])
        (DaemonRequest.rs_have peer_id name)

  unfoldable pub rs_delete : PeerId → Str → World → Result (Unit {0}) × World
  unfolding ask
  rs_delete peer_id name =
      ask (λ r. elim r [ DaemonResponse.done ↦ some tt | _ ↦ none ])
        (DaemonRequest.rs_delete peer_id name)

  unfoldable pub rs_sync : World → Result (Unit {0}) × World
  unfolding ask
  rs_sync = ask (λ r. elim r [ DaemonResponse.done ↦ some tt | _ ↦ none ]) DaemonRequest.rs_sync

  unfoldable pub rs_sync_status : World → Result RsSyncStatus × World
  unfolding ask
  rs_sync_status =
      ask (λ r. elim r [ DaemonResponse.sync_status status ↦ some status | _ ↦ none ])
        DaemonRequest.rs_sync_status

  unfoldable pub refresh_peers : World → Result ℕ × World
  unfolding ask
  refresh_peers =
      ask (λ r. elim r [ DaemonResponse.peer_count count ↦ some count | _ ↦ none ])
        DaemonRequest.refresh_peers
