-- ===== src/P2p/Loop/Run/Alive.antt =====
-- p2p/service.rs: what each step of the heartbeat does to one peer.
use rxiu.Base.{
  ℕ, ◌+◌, ◌≡◌, ◌∙◌, refl, str_eq, str_eq_iff, Bool, true, false, not, List, [], ◌∷◌, ◌++◌,
  if◌then◌else◌, map, any, leb, unwrap_or, arith, All, All-append, Pairwise, Option-cases,
  Bool-cases, inl, inr, ◌&&◌, ◌||◌,
}
use rxiu.Base.Assoc.{
  lookup, has_key, contains, contains-append, lookup-insert, lookup-erase, has_key-erase,
}
use rxiu.External.{PeerId, Libp2p, Json}
use rxiu.P2p.Messages.{FileRequest}
use rxiu.P2p.Node
use rxiu.P2p.Node.{PeerInfo, Swarm, NodeEvent}
use rxiu.P2p.Node.Table.{IsTable, erase-IsTable}
use rxiu.P2p.Peers.{PeerStore, PersistedPeer, load_peers}
use rxiu.P2p.Loop.State.{LoopState, first_addr}
use rxiu.P2p.Loop.Timer.{
  Clock, dial_one, dial_persisted, ping, wake, dial_known, miss, miss_all, ping_all, recover,
}

abbrev pub misses_of : {Text S World : Type 0} → PeerId → LoopState Text S World → ℕ
misses_of q st = unwrap_or (lookup q st.misses) 0

abbrev pub is_known : {Text S World : Type 0} → PeerId → LoopState Text S World → Bool
is_known q st = has_key q st.node.discovered_peers

abbrev pub IsDistinct : List PeerId → Type 0
IsDistinct = Pairwise (λ a b. str_eq a b ≡ false)

not_contained :
    (p q : PeerId) (ps : List PeerId)
    → All (λ b. str_eq p b ≡ false) ps
    → str_eq p q ≡ true
    → contains ps q ≡ false
unfolding contains
not_contained p q [] h e = refl
not_contained p q (x ∷ ps) h e =
    ground
      (arith, h.0, e, str_eq_iff p q, str_eq_iff x q, str_eq_iff p x, not_contained p q ps h.1 e)

append-IsDistinct :
    (ps : List PeerId) (p : PeerId)
    → contains ps p ≡ false
    → IsDistinct ps
    → IsDistinct (ps ++ p ∷ [])
unfolding contains
append-IsDistinct [] p h d = (tt, tt)
append-IsDistinct (x ∷ ps) p h d = (
  All-append (λ b. str_eq x b ≡ false) ps (p ∷ []) d.0 (ground (arith, h), tt),
  append-IsDistinct ps p (ground (arith, h)) d.1,
)

contains_one : (p q : PeerId) → contains (p ∷ []) q ≡ str_eq p q
unfolding contains
contains_one p q = ground arith

module _ {S : Type 0} (net : Swarm S) (lib : Libp2p) where
  dial_one-peers :
      (skip : PeerId → Bool) (p : PersistedPeer) (n : Node.Node S)
      → (dial_one net lib skip p n).discovered_peers ≡ n.discovered_peers
  unfolding dial_one Node.dial_peer
  dial_one-peers skip p n = elim (Option-cases (lib.parse_peer_id p.peer_id)) [
    | inl bad ↦ ground arith
    | inr (id, parsed) ↦ elim (Option-cases (first_addr lib p.addrs)) [
      | inl no_addr ↦ ground arith
      | inr (addr, first) ↦ ground arith
    ]
  ]

  pub dial_persisted-peers :
      (skip : PeerId → Bool) (ps : List PersistedPeer) (n : Node.Node S)
      → (dial_persisted net lib skip ps n).discovered_peers ≡ n.discovered_peers
  unfolding dial_persisted
  dial_persisted-peers skip [] n = refl
  dial_persisted-peers skip (p ∷ ps) n =
      dial_persisted-peers skip ps (dial_one net lib skip p n) ∙ dial_one-peers skip p n

module _ {S : Type 0} (net : Swarm S) where
  probe_peers-peers :
      (ps : List PeerId) (n : Node.Node S)
      → (Node.probe_peers net ps n).discovered_peers ≡ n.discovered_peers
  unfolding Node.probe_peers
  probe_peers-peers [] n = refl
  probe_peers-peers (p ∷ ps) n =
      probe_peers-peers ps (Node.send_request net p FileRequest.get_peers n).1

module _ {Text S World : Type 0} (net : Swarm S) (lib : Libp2p) (json : Json Text PeerStore) where
  miss-peer :
      (p q : PeerId) (st : LoopState Text S World)
      → let m = misses_of q st in
        let st' = miss net lib json p st in
        (is_known q st' ≡ (is_known q st && not (str_eq p q && leb 3 m)))
        × (misses_of q st' ≡ (if str_eq p q then (if leb 3 m then 0 else m + 1) else m))
  unfolding miss Node.remove_peer
  miss-peer p q st = ground (
    arith,
    str_eq_iff p q,
    has_key-erase p q st.node.discovered_peers,
    lookup-erase p q st.misses,
    lookup-insert p q (misses_of p st + 1) st.misses,
  )

  pub miss_all-peer :
      (ps : List PeerId) (q : PeerId) (st : LoopState Text S World)
      → IsDistinct ps
      → let m = misses_of q st in
        let st' = miss_all net lib json ps st in
        (is_known q st' ≡ (is_known q st && not (contains ps q && leb 3 m)))
        × (misses_of q st' ≡ (if contains ps q then (if leb 3 m then 0 else m + 1) else m))
  unfolding miss_all contains
  miss_all-peer [] q st d = ground arith
  miss_all-peer (p ∷ ps) q st d =
      let next = miss_all-peer ps q (miss net lib json p st) d.1 in
      let first = miss-peer p q st in ground (arith, next, first, not_contained p q ps d.0)

  ping-pings :
      (info : PeerInfo) (q : PeerId) (st : LoopState Text S World)
      → contains (ping net lib json info st).pings q
        ≡ (contains st.pings q || str_eq info.peer_id q)
  unfolding ping
  ping-pings info q st = ground (
    arith,
    contains-append st.pings (info.peer_id ∷ []) q,
    contains_one info.peer_id q,
    str_eq_iff info.peer_id q,
  )

  ping-IsDistinct :
      (info : PeerInfo) (st : LoopState Text S World)
      → IsDistinct st.pings
      → IsDistinct (ping net lib json info st).pings
  unfolding ping
  ping-IsDistinct info st d = elim (Bool-cases (contains st.pings info.peer_id)) [
    | inl there ↦ rw (there, ping) d
    | inr new ↦ rw (new, ping) (append-IsDistinct st.pings info.peer_id new d)
  ]

  pub ping_all-same :
      (infos : List PeerInfo) (st : LoopState Text S World)
      → let st' = ping_all net lib json infos st in
        (st'.node.discovered_peers ≡ st.node.discovered_peers) × (st'.misses ≡ st.misses)
  unfolding ping_all
  ping_all-same [] st = (refl, refl)
  ping_all-same (info ∷ infos) st = ground (arith, ping_all-same infos (ping net lib json info st))

  pub ping_all-pings :
      (infos : List PeerInfo) (q : PeerId) (st : LoopState Text S World)
      → contains (ping_all net lib json infos st).pings q
        ≡ (contains st.pings q || any (λ i. str_eq i.peer_id q) infos)
  unfolding ping_all
  ping_all-pings [] q st = ground arith
  ping_all-pings (info ∷ infos) q st =
      ground (arith, ping_all-pings infos q (ping net lib json info st), ping-pings info q st)

  pub ping_all-IsDistinct :
      (infos : List PeerInfo) (st : LoopState Text S World)
      → IsDistinct st.pings
      → IsDistinct (ping_all net lib json infos st).pings
  unfolding ping_all
  ping_all-IsDistinct [] st d = d
  ping_all-IsDistinct (info ∷ infos) st d =
      ping_all-IsDistinct infos (ping net lib json info st) (ping-IsDistinct info st d)

  pub miss_all-pings :
      (ps : List PeerId) (st : LoopState Text S World)
      → (miss_all net lib json ps st).pings ≡ st.pings
  unfolding miss_all miss
  miss_all-pings [] st = refl
  miss_all-pings (p ∷ ps) st = ground (arith, miss_all-pings ps (miss net lib json p st))

  miss-IsTable :
      (p : PeerId) (st : LoopState Text S World)
      → IsTable st.node
      → IsTable (miss net lib json p st).node
  unfolding miss Node.remove_peer
  miss-IsTable p st t = ground (arith, t, erase-IsTable net p st.node t)

  pub miss_all-IsTable :
      (ps : List PeerId) (st : LoopState Text S World)
      → IsTable st.node
      → IsTable (miss_all net lib json ps st).node
  unfolding miss_all
  miss_all-IsTable [] st t = t
  miss_all-IsTable (p ∷ ps) st t =
      miss_all-IsTable ps (miss net lib json p st) (miss-IsTable p st t)

  pub wake-same :
      (clock : Clock) (st : LoopState Text S World)
      → let st' = wake net lib json clock st in
        (st'.node.discovered_peers ≡ st.node.discovered_peers)
        × (st'.misses ≡ st.misses)
        × (st'.pings ≡ st.pings)
  unfolding wake dial_known Node.probe_all_peers Node.start_listening
  wake-same clock st =
      let listening = (Node.start_listening net st.node).1 in
      let ids = map (λ (e : PeerId × PeerInfo). e.0) listening.discovered_peers in
      ground (
        arith,
        dial_persisted-peers net lib (λ p. str_eq p net.local_peer_id)
            (load_peers json clock.unix st.known) (Node.probe_peers net ids listening),
        probe_peers-peers net ids listening,
      )

  pub recover-same :
      (now count : ℕ) (st : LoopState Text S World)
      → let st' = recover net lib json now count st in
        (st'.node.discovered_peers ≡ st.node.discovered_peers)
        × (st'.misses ≡ st.misses)
        × (st'.pings ≡ st.pings)
  unfolding recover Node.start_listening
  recover-same now count st = ground arith
