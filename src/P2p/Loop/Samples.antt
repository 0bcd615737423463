-- ===== src/P2p/Loop/Samples.antt =====
-- A node and its loop at small data: the swarm counts the requests sent, and every dial begins.
use rxiu.Base.{ℕ, ◌+◌, codes, true, [], ◌∷◌, none, some}
use rxiu.Error.{ok}
use rxiu.External.{PeerId, Libp2p, Json}
use rxiu.Recovery
use rxiu.P2p.Messages.{FileRequest, FileResponse}
use rxiu.P2p.Node.{PeerInfo, Swarm, Node}
use rxiu.P2p.Peers.{PeerStore}
use rxiu.P2p.Loop.State.{ServiceCommand, LoopState, no_pending}
use rxiu.P2p.Loop.Run.Answers.{IsKept}

abbrev pub swarm : Swarm ℕ
swarm = record {
  local_peer_id = codes "me";
  listen_on = λ s. (ok tt, s);
  listeners = λ s. codes "/ip4/1" ∷ [];
  disconnect_peer_id = λ p s. s;
  send_request = λ p r s. (s ∷ [], s + 1);
  send_response = λ c r s. s;
  add_peer_address = λ p a s. s;
  dial = λ p s. (true, s);
  dial_addr = λ a s. (true, s);
}

abbrev pub lib : Libp2p
lib = record { parse_peer_id = some; parse_addr = some }

abbrev pub json : Json PeerStore PeerStore
json = record { to_text = λ m. m; from_text = some }

abbrev pub handle : FileRequest → ℕ → FileResponse × ℕ
handle r w = (FileResponse.pong, w + 1)

abbrev pub alice : PeerId
alice = codes "alice"

abbrev pub empty_node : Node ℕ
empty_node = record { swarm = 0; discovered_peers = []; pending_requests = [] }

abbrev pub alice_info : PeerInfo
alice_info = record { peer_id = alice; name = alice; addrs = codes "/ip4/2" ∷ [] }

-- Alice is in the table.
abbrev pub start : LoopState PeerStore ℕ ℕ
start = record {
  node = record { swarm = 0; discovered_peers = (alice, alice_info) ∷ []; pending_requests = [] };
  pending = no_pending;
  misses = [];
  pings = [];
  recovery = Recovery.new 0 0;
  known = none;
  world = 0;
  replies = [];
}

-- No command waits, and none has been answered.
pub start-IsKept : (Q : ServiceCommand → Type 0) → IsKept Q start
start-IsKept Q = record {
  filed = record {
    zone = tt;
    file_list = tt;
    file = tt;
    file_meta = tt;
    file_chunk = tt;
    rs_list = tt;
    rs_meta = tt;
    rs_block = tt;
    rs_blocks = tt;
    rs_have = tt;
    renew_version = tt;
    renew_chunk = tt;
  };
  fit = tt;
}
