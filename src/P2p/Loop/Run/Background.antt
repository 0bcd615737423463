-- ===== src/P2p/Loop/Run/Background.antt =====
-- p2p/service.rs: the turns of the loop that have nothing to do with the waiting commands.
use rxiu.Base.{ℕ, ◌≡◌, refl, Str, List, [], ◌∷◌, arith}
use rxiu.External.{PeerId, Libp2p, Json}
use rxiu.P2p.Messages.{FileRequest, FileResponse}
use rxiu.P2p.Node
use rxiu.P2p.Node.{PeerInfo, Swarm, NodeEvent, Channel}
use rxiu.P2p.Peers.{PeerStore}
use rxiu.P2p.Loop.State.{Answer, LoopState}
use rxiu.P2p.Loop.Timer.{
  Clock, wake, dial_known, miss, miss_all, ping, ping_all, recover, heartbeat, reconnect,
}
use rxiu.P2p.Loop.Event.{
  handle_event, file_received, response_error, node_error, peer_discovered, incoming_request,
}
use rxiu.P2p.Loop.Run.{Turn, heartbeat_tick, reconnect_tick, command, event, turn}

-- The two timers, and the events of the node that answer no command: of the peers that come and go, of their requests, and of
-- their answers to pings, to `GetPeers` and to announcements.
abbrev pub IsBackground : Turn → Type 0
IsBackground (heartbeat_tick clock) = Unit
IsBackground (reconnect_tick unix) = Unit
IsBackground (command c) = ⊥
IsBackground (event unix e) = elim e [
  | NodeEvent.peer_discovered _ ↦ Unit
  | NodeEvent.peer_expired _ ↦ Unit
  | NodeEvent.pong_received _ ↦ Unit
  | NodeEvent.incoming_request _ _ _ ↦ Unit
  | NodeEvent.rs_ok ↦ Unit
  | NodeEvent.peers_received _ _ ↦ Unit
  | _ ↦ ⊥
]

-- The same commands wait, and the same answers are sent.
abbrev pub SameWaiting :
    {Text S World : Type 0} → LoopState Text S World → LoopState Text S World → Type 0
SameWaiting st st' = (st'.pending ≡ st.pending) × (st'.replies ≡ st.replies)

module _ {Text S World : Type 0} (net : Swarm S) (lib : Libp2p) (json : Json Text PeerStore)
    (handle : FileRequest → World → FileResponse × World) where
  wake-SameWaiting :
      (clock : Clock) (st : LoopState Text S World) → SameWaiting st (wake net lib json clock st)
  unfolding wake dial_known
  wake-SameWaiting clock st = ground arith

  miss_all-SameWaiting :
      (ps : List PeerId) (st : LoopState Text S World)
      → SameWaiting st (miss_all net lib json ps st)
  unfolding miss_all miss
  miss_all-SameWaiting [] st = (refl, refl)
  miss_all-SameWaiting (p ∷ ps) st =
      ground (arith, miss_all-SameWaiting ps (miss net lib json p st))

  ping_all-SameWaiting :
      (infos : List PeerInfo) (st : LoopState Text S World)
      → SameWaiting st (ping_all net lib json infos st)
  unfolding ping_all ping
  ping_all-SameWaiting [] st = (refl, refl)
  ping_all-SameWaiting (info ∷ infos) st = ping_all-SameWaiting infos (ping net lib json info st)

  heartbeat-SameWaiting :
      (clock : Clock) (st : LoopState Text S World)
      → SameWaiting st (heartbeat net lib json clock st)
  unfolding heartbeat recover
  heartbeat-SameWaiting clock st =
      let awake = wake net lib json clock st in
      let rested : LoopState Text S World = record awake { pings = [] } in
      let missed = miss_all net lib json awake.pings rested in
      ground (
        arith,
        wake-SameWaiting clock st,
        miss_all-SameWaiting awake.pings rested,
        ping_all-SameWaiting (Node.get_peers net missed.node) missed,
      )

  incoming_request-SameWaiting :
      (request : FileRequest) (channel : Channel) (st : LoopState Text S World)
      → SameWaiting st (incoming_request net lib json handle request channel st)
  unfolding incoming_request
  incoming_request-SameWaiting FileRequest.ping channel st = (refl, refl)
  incoming_request-SameWaiting FileRequest.list_zones channel st = (refl, refl)
  incoming_request-SameWaiting (FileRequest.list_files zone) channel st = (refl, refl)
  incoming_request-SameWaiting (FileRequest.get_file zone name) channel st = (refl, refl)
  incoming_request-SameWaiting (FileRequest.get_file_meta zone name) channel st = (refl, refl)
  incoming_request-SameWaiting (FileRequest.get_file_chunk zone name offset size) channel st =
      (refl, refl)
  incoming_request-SameWaiting FileRequest.rs_list channel st = (refl, refl)
  incoming_request-SameWaiting (FileRequest.rs_get_meta name) channel st = (refl, refl)
  incoming_request-SameWaiting (FileRequest.rs_announce file) channel st = (refl, refl)
  incoming_request-SameWaiting (FileRequest.rs_delete name) channel st = (refl, refl)
  incoming_request-SameWaiting (FileRequest.rs_get_block hash) channel st = (refl, refl)
  incoming_request-SameWaiting (FileRequest.rs_get_blocks hashes) channel st = (refl, refl)
  incoming_request-SameWaiting (FileRequest.rs_have name) channel st = (refl, refl)
  incoming_request-SameWaiting FileRequest.get_peers channel st = (refl, refl)
  incoming_request-SameWaiting FileRequest.renew_get_version channel st = (refl, refl)
  incoming_request-SameWaiting (FileRequest.renew_get_binary_chunk offset len) channel st =
      (refl, refl)

  file_received-agree :
      (name : Str) (a : Answer) (st st' : LoopState Text S World)
      → SameWaiting st st'
      → SameWaiting
          (file_received net lib json handle name a st)
          (file_received net lib json handle name a st')
  unfolding file_received
  file_received-agree name a st st' same = ground (arith, same)

  response_error-agree :
      (id message : Str) (st st' : LoopState Text S World)
      → SameWaiting st st'
      → SameWaiting
          (response_error net lib json handle id message st)
          (response_error net lib json handle id message st')
  unfolding response_error
  response_error-agree id message st st' same = ground (arith, same)

  node_error-agree :
      (msg : Str) (st st' : LoopState Text S World)
      → SameWaiting st st'
      → SameWaiting (node_error net lib json handle msg st) (node_error net lib json handle msg st')
  unfolding node_error
  node_error-agree msg st st' same = ground (arith, same)

  -- A background turn settles nothing.
  pub background-SameWaiting :
      (t : Turn) (st : LoopState Text S World)
      → IsBackground t
      → SameWaiting st (turn net lib json handle t st)
  unfolding turn reconnect handle_event peer_discovered
  background-SameWaiting (heartbeat_tick clock) st b = heartbeat-SameWaiting clock st
  background-SameWaiting (reconnect_tick unix) st b = (refl, refl)
  background-SameWaiting (command c) st b = absurd b
  background-SameWaiting (event unix (NodeEvent.peer_discovered info)) st b = (refl, refl)
  background-SameWaiting (event unix (NodeEvent.peer_expired p)) st b = (refl, refl)
  background-SameWaiting (event unix (NodeEvent.pong_received p)) st b = (refl, refl)
  background-SameWaiting (event unix NodeEvent.rs_ok) st b = (refl, refl)
  background-SameWaiting (event unix (NodeEvent.peers_received p peers)) st b = (refl, refl)
  background-SameWaiting (event unix (NodeEvent.incoming_request p request channel)) st b =
      incoming_request-SameWaiting request channel st
  background-SameWaiting (event unix (NodeEvent.zones_received p zones)) st b = absurd b
  background-SameWaiting (event unix (NodeEvent.files_received p zone files)) st b = absurd b
  background-SameWaiting (event unix (NodeEvent.file_received name content hash)) st b = absurd b
  background-SameWaiting (event unix (NodeEvent.file_meta_received meta)) st b = absurd b
  background-SameWaiting (event unix (NodeEvent.file_chunk_received chunk)) st b = absurd b
  background-SameWaiting (event unix (NodeEvent.rs_files_received p files)) st b = absurd b
  background-SameWaiting (event unix (NodeEvent.rs_meta_received file)) st b = absurd b
  background-SameWaiting (event unix (NodeEvent.rs_block_received block)) st b = absurd b
  background-SameWaiting (event unix (NodeEvent.rs_blocks_received id blocks)) st b = absurd b
  background-SameWaiting (event unix (NodeEvent.rs_have_received p name hashes)) st b = absurd b
  background-SameWaiting (event unix (NodeEvent.renew_version_received p info)) st b = absurd b
  background-SameWaiting (event unix (NodeEvent.renew_chunk_received p offset content is_last)) st
        b =
      absurd b
  background-SameWaiting (event unix (NodeEvent.response_error id message)) st b = absurd b
  background-SameWaiting (event unix (NodeEvent.error msg)) st b = absurd b

  -- What an event settles depends only on what waits.
  pub handle_event-agree :
      (unix : ℕ) (e : NodeEvent) (st st' : LoopState Text S World)
      → SameWaiting st st'
      → SameWaiting
          (handle_event net lib json handle unix e st)
          (handle_event net lib json handle unix e st')
  unfolding handle_event peer_discovered
  handle_event-agree unix (NodeEvent.peer_discovered info) st st' same = ground (arith, same)
  handle_event-agree unix (NodeEvent.peer_expired p) st st' same = ground (arith, same)
  handle_event-agree unix (NodeEvent.pong_received p) st st' same = ground (arith, same)
  handle_event-agree unix NodeEvent.rs_ok st st' same = ground (arith, same)
  handle_event-agree unix (NodeEvent.peers_received p peers) st st' same = ground (arith, same)
  handle_event-agree unix (NodeEvent.zones_received p zones) st st' same = ground (arith, same)
  handle_event-agree unix (NodeEvent.files_received p zone files) st st' same = ground (arith, same)
  handle_event-agree unix (NodeEvent.file_received name content hash) st st' same =
      file_received-agree name (Answer.file content hash) st st' same
  handle_event-agree unix (NodeEvent.file_meta_received meta) st st' same = ground (arith, same)
  handle_event-agree unix (NodeEvent.file_chunk_received chunk) st st' same = ground (arith, same)
  handle_event-agree unix (NodeEvent.rs_files_received p files) st st' same = ground (arith, same)
  handle_event-agree unix (NodeEvent.rs_meta_received file) st st' same = ground (arith, same)
  handle_event-agree unix (NodeEvent.rs_block_received block) st st' same = ground (arith, same)
  handle_event-agree unix (NodeEvent.rs_blocks_received id blocks) st st' same =
      ground (arith, same)
  handle_event-agree unix (NodeEvent.rs_have_received p name hashes) st st' same =
      ground (arith, same)
  handle_event-agree unix (NodeEvent.renew_version_received p info) st st' same =
      ground (arith, same)
  handle_event-agree unix (NodeEvent.renew_chunk_received p offset content is_last) st st' same =
      ground (arith, same)
  handle_event-agree unix (NodeEvent.response_error id message) st st' same =
      response_error-agree id message st st' same
  handle_event-agree unix (NodeEvent.error msg) st st' same = node_error-agree msg st st' same
  handle_event-agree unix (NodeEvent.incoming_request p request channel) st st' same = ground (
    arith,
    same,
    incoming_request-SameWaiting request channel st,
    incoming_request-SameWaiting request channel st',
  )
