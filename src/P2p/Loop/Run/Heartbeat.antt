-- ===== src/P2p/Loop/Run/Heartbeat.antt =====
-- p2p/service.rs: which peers the heartbeat keeps.
use rxiu.Base.{
  ℕ, ◌+◌, ◌≡◌, ◌∙◌, refl, sym, subst, str_eq, str_eq_refl, false, not, List, [], ◌∷◌, if◌then◌else◌,
  map, any, leb, arith, All, All-filter, ◌&&◌,
}
use rxiu.Base.Assoc.{has_key, contains, lookup-erase, UniqueKeys}
use rxiu.External.{PeerId, Libp2p, Json}
use rxiu.P2p.Messages.{FileRequest, FileResponse}
use rxiu.P2p.Node
use rxiu.P2p.Node.{PeerInfo, Swarm, NodeEvent}
use rxiu.P2p.Node.Table.{IsTable}
use rxiu.P2p.Peers.{PeerStore}
use rxiu.P2p.Loop.State.{LoopState}
use rxiu.P2p.Loop.Event.{handle_event, discard}
use rxiu.P2p.Loop.Timer.{Clock, wake, miss_all, ping_all, recover, heartbeat}
use rxiu.P2p.Loop.Run.Alive.{
  misses_of, is_known, IsDistinct, miss_all-peer, ping_all-same, ping_all-pings,
  ping_all-IsDistinct, miss_all-IsTable, wake-same, recover-same, miss_all-pings,
}

any-known :
    (q : PeerId) (peers : List (PeerId × PeerInfo))
    → All (λ e. e.1.peer_id ≡ e.0) peers
    → any (λ i. str_eq i.peer_id q) (map (λ e. e.1) peers) ≡ has_key q peers
unfolding has_key
any-known q [] h = refl
any-known q ((p, info) ∷ peers) h = ground (arith, h.0, any-known q peers h.1)

IsTable-same :
    {S : Type 0} (n n' : Node.Node S)
    → n'.discovered_peers ≡ n.discovered_peers
    → IsTable n
    → IsTable n'
IsTable-same n n' e t = record {
  keyed = subst (All (λ e. e.1.peer_id ≡ e.0)) (sym e) t.keyed;
  unique = subst UniqueKeys (sym e) t.unique;
}

contains_nil : (q : PeerId) → contains [] q ≡ false
unfolding contains
contains_nil q = refl

-- The pings that wait are distinct, and the table is in order.
pub record IsWell {Text S World : Type 0} (st : LoopState Text S World) : Type 0 where
  pub distinct : IsDistinct st.pings
  pub table : IsTable st.node

module _ {Text S World : Type 0} (net : Swarm S) (lib : Libp2p) (json : Json Text PeerStore) where
  -- Where the waiting pings are distinct and the table is in order, a heartbeat removes just the peers that have a ping waiting and had missed three
  -- before; one more is counted for the others that have a ping waiting, and the count of a peer without one stays. After it a ping
  -- waits for just the peers in the table.
  pub heartbeat-peer :
      (clock : Clock) (st : LoopState Text S World) (q : PeerId)
      → IsWell st
      → let m = misses_of q st in
        let st' = heartbeat net lib json clock st in
        (is_known q st' ≡ (is_known q st && not (contains st.pings q && leb 3 m)))
        × (misses_of q st' ≡ (if contains st.pings q then (if leb 3 m then 0 else m + 1) else m))
        × (contains st'.pings q ≡ is_known q st')
        × IsWell st'
  unfolding heartbeat
  heartbeat-peer clock st q w =
      let awake = wake net lib json clock st in
      let rested = record awake { pings = [] } in
      let missed = miss_all net lib json awake.pings rested in
      let infos = Node.get_peers net missed.node in
      let count = Node.peer_count net missed.node in
      let pinged = ping_all net lib json infos missed in
      let last = recover net lib json clock.recover_now count pinged in
      let woken = wake-same net lib json clock st in
      let table = IsTable-same st.node awake.node woken.0 w.table in
      let once : IsDistinct awake.pings = subst IsDistinct (sym woken.2) w.distinct in
      let counted = miss_all-peer net lib json awake.pings q rested once in
      let table' =
        miss_all-IsTable net lib json awake.pings rested
          (record { keyed = table.keyed; unique = table.unique }) in
      let none_left = miss_all-pings net lib json awake.pings rested in
      let same = ping_all-same net lib json infos missed in
      let pings = ping_all-pings net lib json infos q missed in
      let apart =
        ping_all-IsDistinct net lib json infos missed (subst IsDistinct (sym none_left) tt) in
      let end = recover-same net lib json clock.recover_now count pinged in
      let listed = any-known q missed.node.discovered_peers table'.keyed in
      (
        ground (arith, woken, counted, same, end),
        ground (arith, woken, counted, same, end),
        ground (arith, none_left, pings, listed, same, end, contains_nil q),
        record {
          distinct = subst IsDistinct (sym end.2) apart;
          table = IsTable-same missed.node last.node (end.0 ∙ same.0) table';
        },
      )

  -- Where the waiting pings are distinct and the table is in order, five heartbeats in a row, with no other turn of any kind
  -- between them, leave no peer in the table, whatever peers were in it before the first.
  pub silent_removed :
      (c1 c2 c3 c4 c5 : Clock) (st : LoopState Text S World) (q : PeerId)
      → IsWell st
      → let beat = heartbeat net lib json in
        is_known q (beat c5 (beat c4 (beat c3 (beat c2 (beat c1 st))))) ≡ false
  silent_removed c1 c2 c3 c4 c5 st q w =
      let beat = λ (c : Clock) (s : LoopState Text S World). heartbeat net lib json c s in
      let s1 = beat c1 st in
      let s2 = beat c2 s1 in
      let s3 = beat c3 s2 in
      let s4 = beat c4 s3 in
      let h1 = heartbeat-peer c1 st q w in
      let h2 = heartbeat-peer c2 s1 q h1.3 in
      let h3 = heartbeat-peer c3 s2 q h2.3 in
      let h4 = heartbeat-peer c4 s3 q h3.3 in
      let h5 = heartbeat-peer c5 s4 q h4.3 in
      ground (arith, h1.0, h1.1, h1.2, h2.0, h2.1, h2.2, h3.0, h3.1, h3.2, h4.0, h4.1, h4.2, h5.0)

discard-contains : (q : PeerId) (ps : List PeerId) → contains (discard q ps) q ≡ false
unfolding contains
discard-contains q [] = refl
discard-contains q (p ∷ ps) = ground (arith, discard-contains q ps)

discard-IsDistinct : (q : PeerId) (ps : List PeerId) → IsDistinct ps → IsDistinct (discard q ps)
discard-IsDistinct q [] d = tt
discard-IsDistinct q (p ∷ ps) d = ground (
  arith,
  discard-IsDistinct q ps d.1,
  All-filter (λ b. str_eq p b ≡ false) (λ r. not (str_eq r q)) ps d.0,
)

module _ {Text S World : Type 0} (net : Swarm S) (lib : Libp2p) (json : Json Text PeerStore)
    (handle : FileRequest → World → FileResponse × World) where
  -- A peer that answers a ping before the next heartbeat is in the table after that heartbeat if it was there before, and its count of missed
  -- pings is back at zero.
  answered_kept :
      (unix : ℕ) (clock : Clock) (st : LoopState Text S World) (q : PeerId)
      → IsWell st
      → let st' =
          heartbeat net lib json clock
            (handle_event net lib json handle unix (NodeEvent.pong_received q) st) in
        (is_known q st' ≡ is_known q st) × (misses_of q st' ≡ 0)
  unfolding handle_event
  answered_kept unix clock st q w =
      let st0 = handle_event net lib json handle unix (NodeEvent.pong_received q) st in
      let w0 : IsWell st0 = record {
        distinct = discard-IsDistinct q st.pings w.distinct;
        table = w.table;
      } in
      let next = heartbeat-peer net lib json clock st0 q w0 in
      ground (
        arith,
        next.0,
        next.1,
        discard-contains q st.pings,
        lookup-erase q q st.misses,
        str_eq_refl q,
      )
