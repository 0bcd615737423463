-- ===== src/P2p/Loop/Event.antt =====
-- p2p/service.rs: what the loop does with an event of the node. `unix` is the time in seconds at which the peer store
-- is written. `handle` is `handle_incoming_request` on its stores.
use rxiu.Base.{
  ℕ, Str, str_eq, codes, not, List, [], ◌∷◌, ◌++◌, Option, none, some, if◌then◌else◌, find, filter,
  map,
}
use rxiu.Base.Assoc.{lookup, erase}
use rxiu.Error.{io}
use rxiu.External.{PeerId, Libp2p, Json}
use rxiu.P2p.Messages.{FileRequest, FileResponse, PeerEntry}
use rxiu.P2p.Node
use rxiu.P2p.Node.{PeerInfo, Swarm, NodeEvent, Channel}
use rxiu.P2p.Peers.{PeerStore, save_peer}
use rxiu.P2p.Loop.State.{
  Answer, Senders, Pending, LoopState, pair_key, chunk_key, renew_key, ends_with, answer, fail_all,
  first_addr,
}

-- `HashSet::remove`
abbrev pub discard : PeerId → List PeerId → List PeerId
discard p = filter (λ q. not (str_eq q p))

-- The key that the answer to `GetFile` is matched with.
unfoldable pub file_key : Str → Senders → Option Str
unfolding ends_with
file_key name senders = elim (find (λ s. ends_with s.0 (codes ":" ++ name)) senders) [
  | none ↦ none
  | some s ↦ some s.0
]

module _ {Text S World : Type 0} (net : Swarm S) (lib : Libp2p) (json : Json Text PeerStore)
    (handle : FileRequest → World → FileResponse × World) where
  -- The list that `GetPeers` is answered with.
  unfoldable pub peer_entries : Node.Node S → List PeerEntry
  unfolding Node.get_peers Node.listening_addrs
  peer_entries n =
      let known : List PeerEntry =
        map (λ p. record { peer_id = p.peer_id; addrs = p.addrs }) (Node.get_peers net n) in
      elim (Node.listening_addrs net n) [
        | none ↦ known
        | some addrs ↦ known ++ record { peer_id = net.local_peer_id; addrs = addrs } ∷ []
      ]

  -- The loop over the peers that a peer knows.
  unfoldable pub dial_received : List PeerEntry → Node.Node S → Node.Node S
  unfolding first_addr Node.dial_peer
  dial_received [] n = n
  dial_received (entry ∷ entries) n =
      dial_received entries (elim (lib.parse_peer_id entry.peer_id) [
        | none ↦ n
        | some p ↦ elim (first_addr lib entry.addrs) [
          | none ↦ n
          | some addr ↦ if str_eq p net.local_peer_id then n else Node.dial_peer net p addr n
        ]
      ])

  -- The answer to the command that waits under a key, if there is one.
  abbrev pub settle :
      Str → Senders → Answer → Pending → LoopState Text S World → LoopState Text S World
  settle key senders a pending st = record st {
    pending = pending;
    replies = answer key senders a st.replies;
  }

  -- A response that is an error: only requests for blocks and for availability are looked up by the request's id.
  unfoldable pub response_error : Str → Str → LoopState Text S World → LoopState Text S World
  unfolding answer
  response_error id message st =
      let m = st.pending in
      let e = Answer.failed (io message) in
      elim (lookup id m.rs_block_ids) [
        | some hash ↦
            settle hash m.rs_block e
              (record m {
                rs_block_ids = erase id m.rs_block_ids;
                rs_block = erase hash m.rs_block;
              })
              st
        | none ↦ elim (lookup id m.rs_blocks) [
          | some command ↦
              settle id m.rs_blocks e (record m { rs_blocks = erase id m.rs_blocks }) st
          | none ↦ elim (lookup id m.rs_have_ids) [
            | some key ↦
                settle key m.rs_have e
                  (record m { rs_have_ids = erase id m.rs_have_ids; rs_have = erase key m.rs_have })
                  st
            | none ↦ st
          ]
        ]
      ]

  -- An error of the node: ten of the maps are drained.
  unfoldable pub node_error : Str → LoopState Text S World → LoopState Text S World
  node_error msg st =
      let m = st.pending in
      let e = io msg in
      record st {
        pending = record m {
          zone = [];
          file_list = [];
          file = [];
          file_meta = [];
          file_chunk = [];
          rs_list = [];
          rs_meta = [];
          rs_block = [];
          rs_blocks = [];
          rs_have = [];
          rs_block_ids = [];
          rs_have_ids = [];
        };
        replies = fail_all m.rs_have e (
            fail_all m.rs_blocks e (
              fail_all m.rs_block e (
                fail_all m.rs_meta e (
                  fail_all m.rs_list e (
                    fail_all m.file_chunk e (
                      fail_all m.file_meta e (
                        fail_all m.file e
                          (fail_all m.file_list e (fail_all m.zone e st.replies)))))))));
      }

  unfoldable pub file_received : Str → Answer → LoopState Text S World → LoopState Text S World
  unfolding file_key answer
  file_received name a st =
      let m = st.pending in
      elim (file_key name m.file) [
        | none ↦ st
        | some key ↦ settle key m.file a (record m { file = erase key m.file }) st
      ]

  unfoldable pub peer_discovered : ℕ → PeerInfo → LoopState Text S World → LoopState Text S World
  unfolding Node.send_request save_peer
  peer_discovered unix info st = record st {
    misses = erase info.peer_id st.misses;
    node = (Node.send_request net info.peer_id FileRequest.get_peers st.node).1;
    known = save_peer json unix info.peer_id info.addrs st.known;
  }

  -- A peer that is gone or has answered.
  abbrev pub forget_heartbeat : PeerId → LoopState Text S World → LoopState Text S World
  forget_heartbeat p st = record st { pings = discard p st.pings; misses = erase p st.misses }

  unfoldable pub incoming_request :
      FileRequest → Channel → LoopState Text S World → LoopState Text S World
  unfolding peer_entries Node.send_response
  incoming_request FileRequest.get_peers channel st = record st {
    node = Node.send_response net channel (FileResponse.peers (peer_entries st.node)) st.node;
  }
  incoming_request request channel st =
      let (response, w) = handle request st.world in
      record st { node = Node.send_response net channel response st.node; world = w }

  unfoldable pub handle_event : ℕ → NodeEvent → LoopState Text S World → LoopState Text S World
  unfolding answer chunk_key renew_key response_error node_error file_received peer_discovered
      incoming_request dial_received
  handle_event unix (NodeEvent.peer_discovered info) st = peer_discovered unix info st
  handle_event unix (NodeEvent.peer_expired p) st = forget_heartbeat p st
  handle_event unix (NodeEvent.pong_received p) st = forget_heartbeat p st
  handle_event unix (NodeEvent.incoming_request p request channel) st =
      incoming_request request channel st
  handle_event unix (NodeEvent.zones_received p zones) st =
      let m = st.pending in
      settle p m.zone (Answer.zones zones) (record m { zone = erase p m.zone }) st
  handle_event unix (NodeEvent.files_received p zone files) st =
      let m = st.pending in
      settle p m.file_list (Answer.files files) (record m { file_list = erase p m.file_list }) st
  handle_event unix (NodeEvent.file_received name content hash) st =
      file_received name (Answer.file content hash) st
  handle_event unix (NodeEvent.file_meta_received meta) st =
      let m = st.pending in
      let key = pair_key meta.zone meta.name in
      settle key m.file_meta (Answer.file_meta meta)
        (record m { file_meta = erase key m.file_meta }) st
  handle_event unix (NodeEvent.file_chunk_received chunk) st =
      let m = st.pending in
      let key = chunk_key chunk.zone chunk.name chunk.offset in
      settle key m.file_chunk (Answer.file_chunk chunk)
        (record m { file_chunk = erase key m.file_chunk }) st
  handle_event unix (NodeEvent.rs_files_received p files) st =
      let m = st.pending in
      settle p m.rs_list (Answer.rs_files files) (record m { rs_list = erase p m.rs_list }) st
  handle_event unix (NodeEvent.rs_meta_received file) st =
      let m = st.pending in
      settle file.name m.rs_meta (Answer.rs_meta file)
        (record m { rs_meta = erase file.name m.rs_meta }) st
  handle_event unix (NodeEvent.rs_block_received block) st =
      let m = st.pending in
      settle block.hash m.rs_block (Answer.rs_block block)
        (record m {
          rs_block = erase block.hash m.rs_block;
          rs_block_ids = filter (λ e. not (str_eq e.1 block.hash)) m.rs_block_ids;
        })
        st
  handle_event unix (NodeEvent.rs_blocks_received id blocks) st =
      let m = st.pending in
      settle id m.rs_blocks (Answer.rs_blocks blocks)
        (record m { rs_blocks = erase id m.rs_blocks }) st
  handle_event unix (NodeEvent.rs_have_received p name hashes) st =
      let m = st.pending in
      let key = pair_key p name in
      settle key m.rs_have (Answer.rs_has (record { name = name; hashes = hashes }))
        (record m { rs_have = erase key m.rs_have }) st
  handle_event unix NodeEvent.rs_ok st = st
  handle_event unix (NodeEvent.peers_received from peers) st = record st {
    node = dial_received peers st.node;
  }
  handle_event unix (NodeEvent.renew_version_received p info) st =
      let m = st.pending in
      settle p m.renew_version (Answer.version info)
        (record m { renew_version = erase p m.renew_version }) st
  handle_event unix (NodeEvent.renew_chunk_received p offset content is_last) st =
      let m = st.pending in
      let key = renew_key p offset in
      settle key m.renew_chunk (Answer.binary_chunk content is_last)
        (record m { renew_chunk = erase key m.renew_chunk }) st
  handle_event unix (NodeEvent.response_error id message) st = response_error id message st
  handle_event unix (NodeEvent.error msg) st = node_error msg st
