-- ===== src/P2p/Loop/Timer.antt =====
-- p2p/service.rs: what the loop does at its two timers. Readings of the clock are arguments, in nanoseconds but for
-- `unix`, which is in seconds.
use rxiu.Base.{
  ℕ, ◌+◌, str_eq, Bool, List, [], ◌∷◌, ◌++◌, none, some, if◌then◌else◌, map, leb, unwrap_or, ◌||◌,
  is_some,
}
use rxiu.Base.Assoc.{lookup, insert, erase, contains}
use rxiu.External.{PeerId, Libp2p, Json}
use rxiu.Recovery.{detect_wake, should_recover}
use rxiu.P2p.Messages.{FileRequest}
use rxiu.P2p.Node
use rxiu.P2p.Node.{PeerInfo, Swarm}
use rxiu.P2p.Peers.{PersistedPeer, PeerStore, load_peers}
use rxiu.P2p.Loop.State.{LoopState, first_addr}

pub record Clock : Type 0 where
  pub wake_now : ℕ
  pub wake_next : ℕ
  pub recover_now : ℕ
  pub unix : ℕ

module _ {S : Type 0} (net : Swarm S) (lib : Libp2p) where
  -- A turn of the loops over the persisted peers; `skip` is their test of a peer.
  unfoldable pub dial_one : (PeerId → Bool) → PersistedPeer → Node.Node S → Node.Node S
  unfolding first_addr Node.dial_peer
  dial_one skip p n = elim (lib.parse_peer_id p.peer_id) [
    | none ↦ n
    | some peer_id ↦ if skip peer_id then n else elim (first_addr lib p.addrs) [
      | none ↦ n
      | some addr ↦ Node.dial_peer net peer_id addr n
    ]
  ]

  unfoldable pub dial_persisted : (PeerId → Bool) → List PersistedPeer → Node.Node S → Node.Node S
  unfolding dial_one
  dial_persisted skip [] n = n
  dial_persisted skip (p ∷ ps) n = dial_persisted skip ps (dial_one skip p n)

module _ {Text S World : Type 0} (net : Swarm S) (lib : Libp2p) (json : Json Text PeerStore) where
  -- What follows a wake from sleep, and the start of the loop where only the peers are dialled.
  unfoldable pub dial_known : ℕ → LoopState Text S World → LoopState Text S World
  unfolding dial_persisted load_peers
  dial_known unix st = record st {
    node =
        dial_persisted net lib (λ p. str_eq p net.local_peer_id) (load_peers json unix st.known)
          st.node;
  }

  unfoldable pub wake : Clock → LoopState Text S World → LoopState Text S World
  unfolding dial_known detect_wake Node.start_listening Node.probe_all_peers
  wake clock st =
      let (recovery, reason) = detect_wake clock.wake_now clock.wake_next st.recovery in
      let st' = record st { recovery = recovery } in
      let listening = (Node.start_listening net st.node).1 in
      if is_some reason
      then dial_known clock.unix (record st' { node = (Node.probe_all_peers net listening).1 })
      else st'

  -- A ping that was not answered: at the fourth in a row the peer is removed.
  unfoldable pub miss : PeerId → LoopState Text S World → LoopState Text S World
  unfolding Node.remove_peer
  miss p st =
      let misses = unwrap_or (lookup p st.misses) 0 + 1 in
      if leb 4 misses
      then record st { node = Node.remove_peer net p st.node; misses = erase p st.misses }
      else record st { misses = insert p misses st.misses }

  unfoldable pub miss_all : List PeerId → LoopState Text S World → LoopState Text S World
  unfolding miss
  miss_all [] st = st
  miss_all (p ∷ ps) st = miss_all ps (miss p st)

  unfoldable pub ping : PeerInfo → LoopState Text S World → LoopState Text S World
  unfolding Node.send_request contains
  ping info st = record st {
    node = (Node.send_request net info.peer_id FileRequest.ping st.node).1;
    pings = if contains st.pings info.peer_id then st.pings else st.pings ++ info.peer_id ∷ [];
  }

  unfoldable pub ping_all : List PeerInfo → LoopState Text S World → LoopState Text S World
  unfolding ping
  ping_all [] st = st
  ping_all (info ∷ infos) st = ping_all infos (ping info st)

  unfoldable pub recover : ℕ → ℕ → LoopState Text S World → LoopState Text S World
  unfolding should_recover Node.start_listening
  recover now count st =
      let (recovery, reason) = should_recover now count st.recovery in
      let st' = record st { recovery = recovery } in
      if is_some reason then record st' { node = (Node.start_listening net st.node).1 } else st'

  unfoldable pub heartbeat : Clock → LoopState Text S World → LoopState Text S World
  unfolding wake miss_all ping_all recover Node.peer_count Node.get_peers
  heartbeat clock st =
      let awake = wake clock st in
      let missed = miss_all awake.pings (record awake { pings = [] }) in
      let count = Node.peer_count net missed.node in
      recover clock.recover_now count (ping_all (Node.get_peers net missed.node) missed)

  unfoldable pub reconnect : ℕ → LoopState Text S World → LoopState Text S World
  unfolding dial_persisted load_peers Node.get_peers contains
  reconnect unix st =
      let known = map (λ p. p.peer_id) (Node.get_peers net st.node) in
      record st {
        node =
            dial_persisted net lib (λ p. str_eq p net.local_peer_id || contains known p)
              (load_peers json unix st.known) st.node;
      }
