-- ===== src/P2p/Loop/Run/Kept.antt =====
-- p2p/service.rs: what every turn of the loop keeps of the waiting commands and of the answers.
use rxiu.Base.{ℕ, ◌≡◌, refl, All, List, [], ◌∷◌, arith}
use rxiu.External.{PeerId, Libp2p, Json}
use rxiu.P2p.Messages.{FileRequest, FileResponse}
use rxiu.P2p.Node
use rxiu.P2p.Node.{PeerInfo, Swarm, NodeEvent}
use rxiu.P2p.Peers.{PeerStore}
use rxiu.P2p.Loop.State.{ServiceCommand, LoopState}
use rxiu.P2p.Loop.Timer.{
  Clock, wake, dial_known, miss, miss_all, ping, ping_all, recover, heartbeat, reconnect,
}
use rxiu.P2p.Loop.Run.{Turn, heartbeat_tick, reconnect_tick, command, event, turn, run}
use rxiu.P2p.Loop.Run.Answers.{IsKept}
use rxiu.P2p.Loop.Run.Filed.{handle_command-IsKept}
use rxiu.P2p.Loop.Run.Settled.{handle_event-IsKept}

-- A command that comes in is one of `Q`.
abbrev pub Brings : (ServiceCommand → Type 0) → Turn → Type 0
Brings Q t = (c : ServiceCommand) → t ≡ command c → Q c

module _ {Text S World : Type 0} (Q : ServiceCommand → Type 0) (net : Swarm S) (lib : Libp2p)
    (json : Json Text PeerStore) (handle : FileRequest → World → FileResponse × World) where
  wake-IsKept :
      (clock : Clock) (st : LoopState Text S World)
      → IsKept Q st
      → IsKept Q (wake net lib json clock st)
  unfolding wake dial_known
  wake-IsKept clock st k = ground (arith, k)

  miss-IsKept :
      (p : PeerId) (st : LoopState Text S World) → IsKept Q st → IsKept Q (miss net lib json p st)
  unfolding miss
  miss-IsKept p st k = ground (arith, k)

  miss_all-IsKept :
      (ps : List PeerId) (st : LoopState Text S World)
      → IsKept Q st
      → IsKept Q (miss_all net lib json ps st)
  unfolding miss_all
  miss_all-IsKept [] st k = k
  miss_all-IsKept (p ∷ ps) st k = miss_all-IsKept ps (miss net lib json p st) (miss-IsKept p st k)

  ping_all-IsKept :
      (infos : List PeerInfo) (st : LoopState Text S World)
      → IsKept Q st
      → IsKept Q (ping_all net lib json infos st)
  unfolding ping_all ping
  ping_all-IsKept [] st k = k
  ping_all-IsKept (info ∷ infos) st k =
      ping_all-IsKept infos (ping net lib json info st) (record { filed = k.filed; fit = k.fit })

  recover-IsKept :
      (now count : ℕ) (st : LoopState Text S World)
      → IsKept Q st
      → IsKept Q (recover net lib json now count st)
  unfolding recover
  recover-IsKept now count st k = ground (arith, k)

  heartbeat-IsKept :
      (clock : Clock) (st : LoopState Text S World)
      → IsKept Q st
      → IsKept Q (heartbeat net lib json clock st)
  unfolding heartbeat
  heartbeat-IsKept clock st k =
      let awake = wake net lib json clock st in
      let rested = record awake { pings = [] } in
      let k' = wake-IsKept clock st k in
      let missed = miss_all net lib json awake.pings rested in
      let k'' = miss_all-IsKept awake.pings rested (record { filed = k'.filed; fit = k'.fit }) in
      let infos = Node.get_peers net missed.node in
      recover-IsKept clock.recover_now (Node.peer_count net missed.node)
        (ping_all net lib json infos missed) (ping_all-IsKept infos missed k'')

  pub turn-IsKept :
      (t : Turn) (st : LoopState Text S World)
      → Brings Q t
      → IsKept Q st
      → IsKept Q (turn net lib json handle t st)
  unfolding turn reconnect
  turn-IsKept (heartbeat_tick clock) st b k = heartbeat-IsKept clock st k
  turn-IsKept (reconnect_tick unix) st b k = record { filed = k.filed; fit = k.fit }
  turn-IsKept (command c) st b k = handle_command-IsKept Q net c st k (b c refl)
  turn-IsKept (event unix e) st b k = handle_event-IsKept Q net lib json handle unix e st k

  -- In every run of the loop, of commands of some kind `Q`, each command waits in the map of its kind under the key that its answer
  -- is matched with, and every answer that is sent fits the command that it is sent to: it is of the command's kind, and for a file's
  -- description, a chunk, a description or a block of a shared file, and availability, it has the key asked for. No command waits
  -- or is answered that is not one of `Q`.
  pub run-IsKept :
      (turns : List Turn) (st : LoopState Text S World)
      → All (Brings Q) turns
      → IsKept Q st
      → IsKept Q (run net lib json handle turns st)
  unfolding run
  run-IsKept [] st b k = k
  run-IsKept (t ∷ turns) st b k =
      run-IsKept turns (turn net lib json handle t st) b.1 (turn-IsKept t st b.0 k)
