-- ===== src/P2p/Loop/Run.antt =====
-- p2p/service.rs: runs of the loop.
pub mod Answers
pub mod Filed
pub mod Settled
pub mod Kept
pub mod Alive
pub mod Background
pub mod Heartbeat
pub mod Failure
use rxiu.Base.{ℕ, List, [], ◌∷◌}
use rxiu.External.{Libp2p, Json}
use rxiu.P2p.Messages.{FileRequest, FileResponse}
use rxiu.P2p.Node.{Swarm, NodeEvent}
use rxiu.P2p.Peers.{PeerStore}
use rxiu.P2p.Loop.State.{ServiceCommand, LoopState}
use rxiu.P2p.Loop.Command.{handle_command}
use rxiu.P2p.Loop.Event.{handle_event}
use rxiu.P2p.Loop.Timer.{Clock, heartbeat, reconnect}

-- What `select!` waits for.
pub data Turn : Type 0 where
  heartbeat_tick : Clock → Turn
  reconnect_tick : ℕ → Turn
  command : ServiceCommand → Turn
  event : ℕ → NodeEvent → Turn

module _ {Text S World : Type 0} (net : Swarm S) (lib : Libp2p) (json : Json Text PeerStore)
    (handle : FileRequest → World → FileResponse × World) where
  unfoldable pub turn : Turn → LoopState Text S World → LoopState Text S World
  unfolding heartbeat reconnect handle_command handle_event
  turn (heartbeat_tick clock) st = heartbeat net lib json clock st
  turn (reconnect_tick unix) st = reconnect net lib json unix st
  turn (command c) st = handle_command net c st
  turn (event unix e) st = handle_event net lib json handle unix e st

  unfoldable pub run : List Turn → LoopState Text S World → LoopState Text S World
  unfolding turn
  run [] st = st
  run (t ∷ turns) st = run turns (turn t st)
