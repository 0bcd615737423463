-- ===== src/P2p/Node.antt =====
-- p2p/node.rs: the node's table of peers and its events. The swarm of libp2p is an interface on a state of its own;
-- what it reports is the argument of `handle_swarm_event`. The configuration in `new` is left out.
pub mod Table
use rxiu.Base.{
  ℕ, Str, Bytes, str_eq, codes, Bool, true, false, not, List, [], ◌∷◌, ◌++◌, Option, none, some,
  if◌then◌else◌, length, take, is_nil, map, ◌==◌, ◌&&◌, ◌||◌,
}
use rxiu.Base.Assoc.{lookup, insert, erase, has_key, contains}
use rxiu.Error.{Result, ok, err}
use rxiu.External.{PeerId, Multiaddr}
use rxiu.Rs.Types.{RsFileEntry}
use rxiu.Storage.Local.{FileMetadata}
use rxiu.Renew.Version.{VersionInfo}
use rxiu.P2p.Messages.{FileMeta, FileChunk, RsBlock, RsHave, PeerEntry, FileRequest, FileResponse}

-- An `OutboundRequestId` is its text, and a `ResponseChannel` a number.
abbrev pub RequestId : Type 0
RequestId = Str

abbrev pub Channel : Type 0
Channel = ℕ

pub record PeerInfo : Type 0 where
  pub peer_id : PeerId
  pub name : Str
  pub addrs : List Multiaddr

pub data NodeEvent : Type 0 where
  peer_discovered : PeerInfo → NodeEvent
  peer_expired pong_received : PeerId → NodeEvent
  incoming_request : PeerId → FileRequest → Channel → NodeEvent
  zones_received : PeerId → List Str → NodeEvent
  files_received : PeerId → Str → List FileMetadata → NodeEvent
  file_received : Str → Bytes → Str → NodeEvent
  file_meta_received : FileMeta → NodeEvent
  file_chunk_received : FileChunk → NodeEvent
  rs_files_received : PeerId → List RsFileEntry → NodeEvent
  rs_meta_received : RsFileEntry → NodeEvent
  rs_block_received : RsBlock → NodeEvent
  rs_blocks_received : RequestId → List RsBlock → NodeEvent
  rs_have_received : PeerId → Str → List Str → NodeEvent
  rs_ok : NodeEvent
  peers_received : PeerId → List PeerEntry → NodeEvent
  renew_version_received : PeerId → VersionInfo → NodeEvent
  renew_chunk_received : PeerId → ℕ → Bytes → Bool → NodeEvent
  response_error : RequestId → Str → NodeEvent
  error : Str → NodeEvent

-- The methods of `Swarm` and of its behaviours that the node calls; a `Bool` says whether a dial began.
pub record Swarm (S : Type 0) : Type 0 where
  pub local_peer_id : PeerId
  pub listen_on : S → Result (Unit {0}) × S
  pub listeners : S → List Multiaddr
  pub disconnect_peer_id : PeerId → S → S
  pub send_request : PeerId → FileRequest → S → RequestId × S
  pub send_response : Channel → FileResponse → S → S
  pub add_peer_address : PeerId → Multiaddr → S → S
  pub dial : PeerId → S → Bool × S
  pub dial_addr : Multiaddr → S → Bool × S

-- What the swarm reports; the number of `connection_closed` is that of the connections left.
pub data SwarmEvent : Type 0 where
  discovered : List (PeerId × Multiaddr) → SwarmEvent
  expired : List (PeerId × Multiaddr) → SwarmEvent
  requested : PeerId → FileRequest → Channel → SwarmEvent
  answered : PeerId → RequestId → FileResponse → SwarmEvent
  outbound_failure : RequestId → Str → SwarmEvent
  inbound_failure response_sent : SwarmEvent
  connection_established : PeerId → Multiaddr → SwarmEvent
  connection_closed : PeerId → ℕ → SwarmEvent
  new_listen_addr other : SwarmEvent

pub record Node (S : Type 0) : Type 0 where
  pub swarm : S
  pub discovered_peers : List (PeerId × PeerInfo)
  pub pending_requests : List (RequestId × PeerId)

-- A peer's entry, made where it is missing, with one more address.
unfoldable pub noted_info : PeerId → Multiaddr → Option PeerInfo → PeerInfo
noted_info peer_id addr none = record {
  peer_id = peer_id;
  name = take 8 peer_id;
  addrs = addr ∷ [];
}
noted_info peer_id addr (some info) =
    if contains info.addrs addr then info else record info { addrs = info.addrs ++ addr ∷ [] }

module _ {S : Type 0} (net : Swarm S) where
  unfoldable pub start_listening : Node S → Result (Unit {0}) × Node S
  start_listening n = let (result, s) = net.listen_on n.swarm in (result, record n { swarm = s })

  unfoldable pub get_peers : Node S → List PeerInfo
  get_peers n = map (λ e. e.1) n.discovered_peers

  unfoldable pub peer_count : Node S → ℕ
  peer_count n = length n.discovered_peers

  unfoldable pub listening_addrs : Node S → Option (List Multiaddr)
  listening_addrs n = let addrs = net.listeners n.swarm in if is_nil addrs then none else some addrs

  unfoldable pub remove_peer : PeerId → Node S → Node S
  remove_peer peer_id n = record n {
    discovered_peers = erase peer_id n.discovered_peers;
    swarm = net.disconnect_peer_id peer_id n.swarm;
  }

  unfoldable pub send_request : PeerId → FileRequest → Node S → RequestId × Node S
  send_request peer_id request n =
      let (request_id, s) = net.send_request peer_id request n.swarm in
      (
        request_id,
        record n { swarm = s; pending_requests = insert request_id peer_id n.pending_requests },
      )

  unfoldable pub send_response : Channel → FileResponse → Node S → Node S
  send_response channel response n = record n { swarm = net.send_response channel response n.swarm }

  unfoldable pub dial_peer : PeerId → Multiaddr → Node S → Node S
  dial_peer peer_id addr n =
      if has_key peer_id n.discovered_peers
      then n
      else record n { swarm = (net.dial peer_id (net.add_peer_address peer_id addr n.swarm)).1 }

  -- The loop of `probe_all_peers`.
  unfoldable pub probe_peers : List PeerId → Node S → Node S
  unfolding send_request
  probe_peers [] n = n
  probe_peers (peer_id ∷ peer_ids) n =
      probe_peers peer_ids (send_request peer_id FileRequest.get_peers n).1

  unfoldable pub probe_all_peers : Node S → ℕ × Node S
  unfolding probe_peers
  probe_all_peers n = (length n.discovered_peers, probe_peers (map (λ e. e.0) n.discovered_peers) n)

  unfoldable pub note_peer : PeerId → Multiaddr → Node S → PeerInfo × Node S
  unfolding noted_info
  note_peer peer_id addr n =
      let info = noted_info peer_id addr (lookup peer_id n.discovered_peers) in
      (info, record n { discovered_peers = insert peer_id info n.discovered_peers })

  -- The loop over what mDNS discovers: it ends with the first peer that is dialled.
  unfoldable pub discover : List (PeerId × Multiaddr) → Node S → Option NodeEvent × Node S
  unfolding note_peer
  discover [] n = (none, n)
  discover ((peer_id, addr) ∷ peers) n =
      let (dialled, s) = net.dial_addr addr n.swarm in
      let n' = record n { swarm = s } in
      let (info, noted) = note_peer peer_id addr n' in
      let is_self = str_eq peer_id net.local_peer_id in
      let next = discover peers (if is_self then n else n') in
      if is_self || not dialled then next else (some (NodeEvent.peer_discovered info), noted)

  -- The event that a peer's response becomes.
  unfoldable pub response_event : PeerId → RequestId → FileResponse → NodeEvent
  response_event peer id FileResponse.pong = NodeEvent.pong_received peer
  response_event peer id (FileResponse.zones zones) = NodeEvent.zones_received peer zones
  response_event peer id (FileResponse.files zone files) = NodeEvent.files_received peer zone files
  response_event peer id (FileResponse.file_data name content hash) =
      NodeEvent.file_received name content hash
  response_event peer id (FileResponse.file_meta meta) = NodeEvent.file_meta_received meta
  response_event peer id (FileResponse.file_chunk chunk) = NodeEvent.file_chunk_received chunk
  response_event peer id (FileResponse.rs_files files) = NodeEvent.rs_files_received peer files
  response_event peer id (FileResponse.rs_meta file) = NodeEvent.rs_meta_received file
  response_event peer id (FileResponse.rs_block block) = NodeEvent.rs_block_received block
  response_event peer id (FileResponse.rs_blocks blocks) = NodeEvent.rs_blocks_received id blocks
  response_event peer id (FileResponse.rs_has have) =
      NodeEvent.rs_have_received peer have.name have.hashes
  response_event peer id FileResponse.rs_ok = NodeEvent.rs_ok
  response_event peer id (FileResponse.peers peers) = NodeEvent.peers_received peer peers
  response_event peer id (FileResponse.error message) = NodeEvent.response_error id message
  response_event peer id (FileResponse.renew_version version) =
      NodeEvent.renew_version_received peer version
  response_event peer id (FileResponse.renew_binary_chunk offset content is_last) =
      NodeEvent.renew_chunk_received peer offset content is_last

  -- A turn of the loop of `next_event`; `none` goes on to the next report.
  unfoldable pub handle_swarm_event : SwarmEvent → Node S → Option NodeEvent × Node S
  unfolding discover response_event
  handle_swarm_event (discovered peers) n = discover peers n
  handle_swarm_event (expired []) n = (none, n)
  handle_swarm_event (expired ((peer_id, addr) ∷ peers)) n = (
    some (NodeEvent.peer_expired peer_id),
    record n { discovered_peers = erase peer_id n.discovered_peers },
  )
  handle_swarm_event (requested peer req channel) n =
      (some (NodeEvent.incoming_request peer req channel), n)
  handle_swarm_event (answered peer request_id resp) n = (
    some (response_event peer request_id resp),
    record n { pending_requests = erase request_id n.pending_requests },
  )
  handle_swarm_event (outbound_failure request_id reason) n = (
    some (NodeEvent.error (codes "Request failed: " ++ reason)),
    record n { pending_requests = erase request_id n.pending_requests },
  )
  handle_swarm_event inbound_failure n = (none, n)
  handle_swarm_event response_sent n = (none, n)
  handle_swarm_event (connection_established peer_id addr) n =
      let info : PeerInfo = record {
        peer_id = peer_id;
        name = take 12 peer_id;
        addrs = addr ∷ [];
      } in
      if has_key peer_id n.discovered_peers then (none, n) else (
        some (NodeEvent.peer_discovered info),
        record n { discovered_peers = insert peer_id info n.discovered_peers },
      )
  handle_swarm_event (connection_closed peer_id num_established) n =
      if (num_established == 0) && has_key peer_id n.discovered_peers
      then (
        some (NodeEvent.peer_expired peer_id),
        record n { discovered_peers = erase peer_id n.discovered_peers },
      )
      else (none, n)
  handle_swarm_event new_listen_addr n = (none, n)
  handle_swarm_event other n = (none, n)

  -- `next_event`, up to the end of the reports.
  unfoldable pub next_event : List SwarmEvent → Node S → Option NodeEvent × Node S
  unfolding handle_swarm_event
  next_event [] n = (none, n)
  next_event (e ∷ events) n =
      let (event, n') = handle_swarm_event e n in
      let rest = next_event events n' in elim event [ none ↦ rest | some x ↦ (some x, n') ]
