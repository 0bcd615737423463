-- ===== src/P2p/Loop/Examples.antt =====
-- Runs of a node and of its loop.
use rxiu.Base.{
  All, ◌⊎◌, inl, inr, arith, ℕ, ◌≡◌, refl, codes, str_eq, false, List, [], ◌∷◌, none, some,
}
use rxiu.Base.Assoc.{lookup, insert, erase, contains}
use rxiu.Error.{io}
use rxiu.External.{PeerId}
use rxiu.Recovery
use rxiu.P2p.Messages.{FileMeta}
use rxiu.P2p.Node.{NodeEvent, SwarmEvent, discovered, next_event}
use rxiu.P2p.Node.Table.{IsTable, Told, next_event-IsTable}
use rxiu.P2p.Loop.State.{ServiceCommand, Answer, pair_key}
use rxiu.P2p.Loop.Timer.{Clock, heartbeat}
use rxiu.P2p.Loop.Run.{Turn, heartbeat_tick, command, event, run}
use rxiu.P2p.Loop.Run.Answers.{IsKept}
use rxiu.P2p.Loop.Run.Kept.{Brings, run-IsKept}
use rxiu.P2p.Loop.Run.Alive.{is_known}
use rxiu.P2p.Loop.Run.Heartbeat.{IsWell, silent_removed}
use rxiu.P2p.Loop.Run.Failure.{overtaken}
use rxiu.P2p.Loop.Samples.{
  swarm, lib, json, handle, alice, empty_node, alice_info, start, start-IsKept,
}

abbrev bob : PeerId
bob = codes "bob"

abbrev reports : List SwarmEvent
reports =
    discovered ((codes "me", codes "/ip4/0") ∷ [])
    ∷ discovered ((alice, codes "/ip4/2") ∷ (bob, codes "/ip4/3") ∷ [])
    ∷ []

alice_found : (next_event swarm reports empty_node).0 ≡ some (NodeEvent.peer_discovered alice_info)
unfolding next_event str_eq lookup contains
alice_found = refl

next_event-IsTable_example :
    let (e, n) = next_event swarm reports empty_node in IsTable n × Told e n
next_event-IsTable_example =
    next_event-IsTable swarm reports empty_node (record { keyed = tt; unique = tt })

abbrev clock : ℕ → Clock
clock n = record { wake_now = n; wake_next = n; recover_now = n; unix = n }

abbrev meta : FileMeta
meta = record {
  zone = codes "z";
  name = codes "n";
  size = 1;
  hash = codes "h";
  chunk_size = 4;
  chunks = 1;
}

abbrev turns : List Turn
turns =
    command (ServiceCommand.list_remote_zones alice 1)
    ∷ command (ServiceCommand.get_file_meta alice (codes "z") (codes "n") 2)
    ∷ event 0 (NodeEvent.file_meta_received meta)
    ∷ heartbeat_tick (clock 5)
    ∷ event 0 (NodeEvent.error (codes "gone"))
    ∷ []

two_answers :
    (run swarm lib json handle turns start).replies
    ≡ (ServiceCommand.list_remote_zones alice 1, Answer.failed (io (codes "gone")))
      ∷ (ServiceCommand.get_file_meta alice (codes "z") (codes "n") 2, Answer.file_meta meta)
      ∷ []
unfolding run lookup insert erase str_eq Recovery.new
two_answers = refl

abbrev Either : ServiceCommand → Type 0
Either c =
    (c ≡ ServiceCommand.list_remote_zones alice 1)
    ⊎ (c ≡ ServiceCommand.get_file_meta alice (codes "z") (codes "n") 2)

turns-Bring : All (Brings Either) turns
turns-Bring = (
  λ c e. inl (ground (arith, e)),
  (
    λ c e. inr (ground (arith, e)),
    (
      λ c e. absurd (ground (arith, e)),
      (λ c e. absurd (ground (arith, e)), (λ c e. absurd (ground (arith, e)), tt)),
    ),
  ),
)

run-IsKept_example : IsKept Either (run swarm lib json handle turns start)
run-IsKept_example =
    run-IsKept Either swarm lib json handle turns start turns-Bring (start-IsKept Either)

start-IsWell : IsWell start
start-IsWell = record { distinct = tt; table = record { keyed = (refl, tt); unique = (tt, tt) } }

silent_removed_example :
    let beat = heartbeat swarm lib json in
    is_known alice
      (beat (clock 25) (beat (clock 20) (beat (clock 15) (beat (clock 10) (beat (clock 5) start)))))
    ≡ false
silent_removed_example =
    silent_removed swarm lib json (clock 5) (clock 10) (clock 15) (clock 20) (clock 25) start alice
      start-IsWell

overtaken_example :
    let second = ServiceCommand.get_file_meta bob (codes "z") (codes "n") 2 in
    let st =
      run swarm lib json handle
        (command (ServiceCommand.get_file_meta alice (codes "z") (codes "n") 1)
          ∷ command second
          ∷ event 0 (NodeEvent.file_meta_received meta)
          ∷ [])
        start in
    (st.replies ≡ (second, Answer.file_meta meta) ∷ [])
    × (lookup (pair_key (codes "z") (codes "n")) st.pending.file_meta ≡ none)
overtaken_example =
    overtaken swarm lib json handle alice bob (codes "z") (codes "n") 1 2 0 meta start refl refl
