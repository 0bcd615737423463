-- ===== src/P2p/Handle/Start.antt =====
-- p2p/service.rs: how the service starts.
use rxiu.Base.{ℕ, List, [], Option}
use rxiu.Error.{Result, ok, ◌>>=◌}
use rxiu.External.{Libp2p, Json}
use rxiu.Recovery
use rxiu.P2p.Node
use rxiu.P2p.Node.{Swarm}
use rxiu.P2p.Peers.{PeerStore}
use rxiu.P2p.Loop.State.{Ticket, no_pending}
use rxiu.P2p.Loop.Timer.{dial_known}
use rxiu.P2p.Loop.Run.{Turn}
use rxiu.P2p.Handle.{Session}

module _ {Text S World : Type 0} (net : Swarm S) (lib : Libp2p) (json : Json Text PeerStore) where
  -- The session that is entered where the swarm listens: the persisted peers are dialled. `refresh` and `tick` are readings of the clock, and `ahead` is what will wake the loop.
  unfoldable pub entered :
      ℕ
      → ℕ
      → ℕ
      → Node.Node S
      → Option Text
      → World
      → List (ℕ × Turn)
      → Ticket
      → Session Text S World
  unfolding Recovery.new dial_known
  entered refresh tick unix node known world ahead ticket = record {
    state = dial_known net lib json unix (record {
      node = node;
      pending = no_pending;
      misses = [];
      pings = [];
      recovery = Recovery.new refresh tick;
      known = known;
      world = world;
      replies = [];
    });
    ahead = ahead;
    now = 0;
    ticket = ticket;
  }

  -- `start`, from the swarm that `P2PNode::new` builds.
  unfoldable pub start :
      ℕ → ℕ → ℕ → S → Option Text → World → List (ℕ × Turn) → Ticket → Result (Session Text S World)
  unfolding Node.start_listening entered
  start refresh tick unix swarm known world ahead ticket =
      let fresh : Node.Node S = record {
        swarm = swarm;
        discovered_peers = [];
        pending_requests = [];
      } in
      let (result, node) = Node.start_listening net fresh in
      result >>= λ _. ok (entered refresh tick unix node known world ahead ticket)
