-- ===== src/P2p/Loop/Exchange.antt =====
-- p2p/protocol/peer_exchange.rs: what is made of the peers that a peer knows.
use rxiu.Base.{
  ◌≡◌, refl, str_eq, Bool, List, [], ◌∷◌, none, some, if◌then◌else◌, map, arith, Option-cases, inl,
  inr,
}
use rxiu.Base.Assoc.{has_key}
use rxiu.External.{PeerId, Multiaddr, Libp2p, Json}
use rxiu.P2p.Messages.{PeerEntry, FileRequest, FileResponse}
use rxiu.P2p.Node
use rxiu.P2p.Node.{PeerInfo, Swarm}
use rxiu.P2p.Peers.{PeerStore}
use rxiu.P2p.Loop.State.{first_addr}
use rxiu.P2p.Loop.Event.{dial_received}

unfoldable pub from_peer_info : PeerInfo → PeerEntry
from_peer_info info = record { peer_id = info.peer_id; addrs = info.addrs }

unfoldable pub from_peer_list : List PeerInfo → List PeerEntry
unfolding from_peer_info
from_peer_list peers = map from_peer_info peers

-- The calls of `dial_peer`, in order.
unfoldable pub process_received_peers :
    Libp2p → PeerId → List PeerEntry → (PeerId → Bool) → List (PeerId × Multiaddr)
unfolding first_addr
process_received_peers lib local_peer_id [] is_known = []
process_received_peers lib local_peer_id (entry ∷ entries) is_known =
    let rest = process_received_peers lib local_peer_id entries is_known in
    elim (lib.parse_peer_id entry.peer_id) [
      | none ↦ rest
      | some peer_id ↦
          if str_eq peer_id local_peer_id
          then rest
          else if is_known peer_id
          then rest
          else elim (first_addr lib entry.addrs) [
            | none ↦ rest
            | some addr ↦ (peer_id, addr) ∷ rest
          ]
    ]

module _ {Text S World : Type 0} (net : Swarm S) (lib : Libp2p) (json : Json Text PeerStore)
    (handle : FileRequest → World → FileResponse × World) where
  abbrev dial_all : List (PeerId × Multiaddr) → Node.Node S → Node.Node S
  dial_all [] n = n
  dial_all ((p, addr) ∷ peers) n = dial_all peers (Node.dial_peer net p addr n)

  -- The loop's own copy dials the same peers as `process_received_peers`, where the known peers are those of the node's table.
  dial_received-process_received_peers :
      (entries : List PeerEntry) (known : List (PeerId × PeerInfo)) (n : Node.Node S)
      → n.discovered_peers ≡ known
      → dial_received net lib json handle entries n
        ≡ dial_all (process_received_peers lib net.local_peer_id entries (λ p. has_key p known)) n
  unfolding dial_received process_received_peers Node.dial_peer
  dial_received-process_received_peers [] known n same = refl
  dial_received-process_received_peers (entry ∷ entries) known n same =
      let here = dial_received-process_received_peers entries known in
      elim (Option-cases (lib.parse_peer_id entry.peer_id)) [
        | inl bad ↦ ground (arith, bad, here n same)
        | inr (p, parsed) ↦ elim (Option-cases (first_addr lib entry.addrs)) [
          | inl nowhere ↦ ground (arith, parsed, nowhere, here n same)
          | inr (addr, there) ↦ ground (
            arith,
            parsed,
            there,
            same,
            here n same,
            here (record n { swarm = (net.dial p (net.add_peer_address p addr n.swarm)).1 }) same,
          )
        ]
      ]
