-- ===== src/P2p/Node/Table.antt =====
-- p2p/node.rs: the table of peers over the swarm's reports.
use rxiu.Base.{
  ◌≡◌, refl, str_eq, str_eq_refl, true, false, List, [], ◌∷◌, Option, none, some, arith, All,
  Bool-cases, Option-cases, inl, inr, take,
}
use rxiu.Base.Assoc.{
  lookup, insert, erase, UniqueKeys, insert-UniqueKeys, erase-UniqueKeys, All-insert, All-erase,
  All-lookup, lookup-insert, lookup-erase,
}
use rxiu.External.{PeerId, Multiaddr}
use rxiu.P2p.Messages.{FileResponse}
use rxiu.P2p.Node.{
  requested, answered, outbound_failure, inbound_failure, response_sent, connection_established,
  new_listen_addr, other, RequestId, PeerInfo, NodeEvent, Swarm, SwarmEvent, discovered, expired,
  connection_closed, Node, noted_info, note_peer, discover, response_event, handle_swarm_event,
  next_event,
}

-- Every entry is filed under its peer, and no peer stands twice.
pub record IsTable {S : Type 0} (n : Node S) : Type 0 where
  pub keyed : All (λ e. e.1.peer_id ≡ e.0) n.discovered_peers
  pub unique : UniqueKeys n.discovered_peers

-- What an event says of the table that it leaves.
abbrev pub Told : {S : Type 0} → Option NodeEvent → Node S → Type 0
Told none n = Unit {0}
Told (some e) n = elim e [
  | NodeEvent.peer_discovered info ↦ lookup info.peer_id n.discovered_peers ≡ some info
  | NodeEvent.peer_expired p ↦ lookup p n.discovered_peers ≡ none
  | _ ↦ Unit {0}
]

module _ {S : Type 0} (net : Swarm S) where
  noted_info-peer_id :
      (p : PeerId) (addr : Multiaddr) (n : Node S)
      → IsTable n
      → (noted_info p addr (lookup p n.discovered_peers)).peer_id ≡ p
  unfolding noted_info
  noted_info-peer_id p addr n t = elim (Option-cases (lookup p n.discovered_peers)) [
    | inl missing ↦ rw missing
    | inr (info, found) ↦
        let keyed = All-lookup (λ e. e.1.peer_id ≡ e.0) p n.discovered_peers t.keyed found in
        ground (arith, found, keyed)
  ]

  insert-IsTable :
      (p : PeerId) (info : PeerInfo) (n : Node S)
      → info.peer_id ≡ p
      → IsTable n
      → IsTable (record n { discovered_peers = insert p info n.discovered_peers })
  insert-IsTable p info n e t = record {
    keyed = All-insert (λ e. e.1.peer_id ≡ e.0) p info n.discovered_peers e t.keyed;
    unique = insert-UniqueKeys p info n.discovered_peers t.unique;
  }

  pub erase-IsTable :
      (p : PeerId) (n : Node S)
      → IsTable n
      → IsTable (record n { discovered_peers = erase p n.discovered_peers })
  erase-IsTable p n t = record {
    keyed = All-erase (λ e. e.1.peer_id ≡ e.0) p n.discovered_peers t.keyed;
    unique = erase-UniqueKeys p n.discovered_peers t.unique;
  }

  note_peer-keeps :
      (p : PeerId) (addr : Multiaddr) (n : Node S)
      → IsTable n
      → let (info, n') = note_peer net p addr n in
        IsTable n' × (lookup info.peer_id n'.discovered_peers ≡ some info)
  unfolding note_peer
  note_peer-keeps p addr n t =
      let info = noted_info p addr (lookup p n.discovered_peers) in
      let own = noted_info-peer_id p addr n t in
      (
        insert-IsTable p info n own t,
        ground (arith, own, lookup-insert p info.peer_id info n.discovered_peers, str_eq_refl p),
      )

  discover-keeps :
      (peers : List (PeerId × Multiaddr)) (n : Node S)
      → IsTable n
      → IsTable (discover net peers n).1 × Told (discover net peers n).0 (discover net peers n).1
  unfolding discover
  discover-keeps [] n t = (t, tt)
  discover-keeps ((p, addr) ∷ peers) n t = elim (Bool-cases (str_eq p net.local_peer_id)) [
    | inl own ↦ rw own (discover-keeps peers n t)
    | inr else' ↦
        let n' = record n { swarm = (net.dial_addr addr n.swarm).1 } in
        let t' : IsTable n' = record { keyed = t.keyed; unique = t.unique } in
        elim (Bool-cases (net.dial_addr addr n.swarm).0) [
          | inl dialled ↦ rw (else', dialled) (note_peer-keeps p addr n' t')
          | inr failed ↦ rw (else', failed) (discover-keeps peers n' t')
        ]
  ]

  response_event-Told :
      (peer : PeerId) (id : RequestId) (resp : FileResponse) (n : Node S)
      → Told (some (response_event net peer id resp)) n
  unfolding response_event
  response_event-Told peer id FileResponse.pong n = tt
  response_event-Told peer id resp n = tt

  handle_swarm_event-keeps :
      (e : SwarmEvent) (n : Node S)
      → IsTable n
      → let (event, n') = handle_swarm_event net e n in IsTable n' × Told event n'
  unfolding handle_swarm_event
  handle_swarm_event-keeps (discovered peers) n t = discover-keeps peers n t
  handle_swarm_event-keeps (expired []) n t = (t, tt)
  handle_swarm_event-keeps (expired ((p, addr) ∷ peers)) n t =
      (erase-IsTable p n t, ground (arith, lookup-erase p p n.discovered_peers, str_eq_refl p))
  handle_swarm_event-keeps (requested peer req channel) n t = (t, tt)
  handle_swarm_event-keeps (answered peer id resp) n t = (
    record { keyed = t.keyed; unique = t.unique },
    response_event-Told peer id resp (handle_swarm_event net (answered peer id resp) n).1,
  )
  handle_swarm_event-keeps (outbound_failure id reason) n t =
      (record { keyed = t.keyed; unique = t.unique }, tt)
  handle_swarm_event-keeps inbound_failure n t = (t, tt)
  handle_swarm_event-keeps response_sent n t = (t, tt)
  handle_swarm_event-keeps (connection_established p addr) n t =
      let info : PeerInfo = record { peer_id = p; name = take 12 p; addrs = addr ∷ [] } in
      ground (
        arith,
        t,
        insert-IsTable p info n refl t,
        lookup-insert p p info n.discovered_peers,
        str_eq_refl p,
      )
  handle_swarm_event-keeps (connection_closed p k) n t =
      ground (arith, t, erase-IsTable p n t, lookup-erase p p n.discovered_peers, str_eq_refl p)
  handle_swarm_event-keeps new_listen_addr n t = (t, tt)
  handle_swarm_event-keeps other n t = (t, tt)

  -- Whatever the swarm reports, `next_event` leaves a table in which every entry is filed under its peer and no peer stands
  -- twice, if it was so before. If the one event that `next_event` gives says that a peer is discovered, that peer is in the table left
  -- behind with just that entry, and if it says that a peer is expired, that peer is not. Of several peers in one report of the
  -- swarm, this says nothing of the others.
  pub next_event-IsTable :
      (events : List SwarmEvent) (n : Node S)
      → IsTable n
      → let (event, n') = next_event net events n in IsTable n' × Told event n'
  unfolding next_event
  next_event-IsTable [] n t = (t, tt)
  next_event-IsTable (e ∷ events) n t =
      let next = handle_swarm_event-keeps e n t in
      elim (Option-cases (handle_swarm_event net e n).0) [
        | inl nothing ↦
            rw (nothing, next_event)
              (next_event-IsTable events (handle_swarm_event net e n).1 next.0)
        | inr (event, e') ↦ rw (e', next_event) (next.0, rw e' at next.1)
      ]

  -- Of what mDNS reports at once, only the first other peer that can be dialled is seen, and of what it reports as expired only
  -- the first: the rest makes no difference.
  handle_swarm_event-first :
      (p : PeerId) (addr : Multiaddr) (rest : List (PeerId × Multiaddr)) (n : Node S)
      → str_eq p net.local_peer_id ≡ false
      → (net.dial_addr addr n.swarm).0 ≡ true
      → (handle_swarm_event net (discovered ((p, addr) ∷ rest)) n
          ≡ handle_swarm_event net (discovered ((p, addr) ∷ [])) n)
        × (handle_swarm_event net (expired ((p, addr) ∷ rest)) n
            ≡ handle_swarm_event net (expired ((p, addr) ∷ [])) n)
  unfolding handle_swarm_event discover
  handle_swarm_event-first p addr rest n else' dialled = (rw (else', dialled) refl, refl)
