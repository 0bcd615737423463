-- ===== src/Daemon/Proxy/Relay.antt =====
-- daemon/proxy.rs: the proxy of a daemon against the service of that daemon.
use rxiu.Base.{
  arith, ℕ, ◌+◌, ◌^◌, ◌≤◌, ◌<◌, ◌≡◌, ◌∙◌, ap, refl, Str, List, [], ◌∷◌, Option, none, some, length,
  All,
}
use rxiu.Error.{Result, ok, err, io, to_string, ◌>>=◌}
use rxiu.External.{Cbor, PeerId, Libp2p}
use rxiu.Rs.Types.{RsFileEntry}
use rxiu.Daemon.Protocol.{DaemonRequest, DaemonResponse}
use rxiu.Daemon.Server.{Service, SyncManager, max_request, handle_request, respond, with_peer}
use rxiu.Daemon.Proxy
use rxiu.Daemon.Proxy.{ask, expect, refuse, read_timeout}
use rxiu.Daemon.Proxy.Exchange.{Reads, daemon, request-daemon}

-- What the proxy makes of a result of the service: an error comes as an I/O error with its message.
abbrev pub relay {ℓ} : {A : Type ℓ} {World : Type 0} → Result A × World → Result A × World
relay r = elim r.0 [ ok a ↦ (ok a, r.1) | err e ↦ (err (io (to_string e)), r.1) ]

-- What the proxy expects, against what the daemon answers with.
expect-respond {ℓ} :
    {A : Type ℓ} {World : Type 0} (pick : DaemonResponse → Option A) (f : A → DaemonResponse)
    (r : Result A × World)
    → ((a : A) → pick (f a) ≡ some a)
    → ((e : Str) → pick (DaemonResponse.error e) ≡ none)
    → (expect pick (respond f r).0, (respond f r).1) ≡ relay r
unfolding expect
expect-respond pick f (ok a, v) hit miss = rw (hit a, expect) refl
expect-respond pick f (err e, v) hit miss = rw (miss (to_string e), expect) refl

module _ {World : Type 0} (net : Libp2p) (p2p : Service World) (sync_manager : SyncManager World)
    (req_cbor : Cbor DaemonRequest) (resp_cbor : Cbor DaemonResponse) (clock : World → ℕ) where
  -- What is written of the request and of its answer parses back, and is short enough for the length in front of it. The answer is
  -- there before the proxy's read times out.
  abbrev pub Fits : World → DaemonRequest → Type 0
  Fits w req =
      Reads req_cbor req
      × Reads resp_cbor (handle_request net p2p sync_manager req w).0
      × (length (req_cbor.to_vec req) ≤ max_request)
      × (length (resp_cbor.to_vec (handle_request net p2p sync_manager req w).0) < 2 ^ 32)
      × (clock (handle_request net p2p sync_manager req w).1 < clock w + read_timeout)

  -- The proxy as a service: its methods have the names and the arguments of the service's.
  abbrev pub proxy : Service World
  proxy =
      let connect = daemon net p2p sync_manager req_cbor resp_cbor clock in
      record {
        local_peer_id = p2p.local_peer_id;
        get_peers = Proxy.get_peers req_cbor resp_cbor connect;
        peer_count = Proxy.peer_count req_cbor resp_cbor connect;
        list_remote_zones = Proxy.list_remote_zones req_cbor resp_cbor connect;
        list_remote_files = Proxy.list_remote_files req_cbor resp_cbor connect;
        fetch_file = Proxy.fetch_file req_cbor resp_cbor connect;
        get_file_meta = Proxy.get_file_meta req_cbor resp_cbor connect;
        get_file_chunk = Proxy.get_file_chunk req_cbor resp_cbor connect;
        rs_list = Proxy.rs_list req_cbor resp_cbor connect;
        rs_announce = Proxy.rs_announce req_cbor resp_cbor connect;
        rs_get_meta = Proxy.rs_get_meta req_cbor resp_cbor connect;
        rs_get_block = Proxy.rs_get_block req_cbor resp_cbor connect;
        rs_get_blocks = Proxy.rs_get_blocks req_cbor resp_cbor connect;
        rs_have = Proxy.rs_have req_cbor resp_cbor connect;
        rs_delete = Proxy.rs_delete req_cbor resp_cbor connect;
        refresh_peers = Proxy.refresh_peers req_cbor resp_cbor connect;
      }

  -- What `ask` gives, from what the daemon answers.
  ask-daemon {ℓ} :
      {A : Type ℓ} (pick : DaemonResponse → Option A) (req : DaemonRequest) (w : World)
      → Fits w req
      → ask req_cbor resp_cbor (daemon net p2p sync_manager req_cbor resp_cbor clock) pick req w ≡ (
        expect pick (handle_request net p2p sync_manager req w).0,
        (handle_request net p2p sync_manager req w).1,
      )
  unfolding ask
  ask-daemon pick req w fits =
      let sent =
        request-daemon net p2p sync_manager req_cbor resp_cbor clock req w fits.0 fits.1 fits.2
          fits.3 fits.4 in
      ap (λ r. (r.0 >>= expect pick, r.1)) sent

  -- An arm of `handle_request` for a peer, at the other end.
  pub ask-with_peer {ℓ} :
      {A : Type ℓ} (pick : DaemonResponse → Option A) (f : A → DaemonResponse) (req : DaemonRequest)
      (p : PeerId) (w : World) (op : PeerId → World → Result A × World)
      → Fits w req
      → net.parse_peer_id p ≡ some p
      → ((a : A) → pick (f a) ≡ some a)
      → ((e : Str) → pick (DaemonResponse.error e) ≡ none)
      → handle_request net p2p sync_manager req w ≡ with_peer net p (λ q v. respond f (op q v)) w
      → ask req_cbor resp_cbor (daemon net p2p sync_manager req_cbor resp_cbor clock) pick req w
        ≡ relay (op p w)
  unfolding expect
  ask-with_peer pick f req p w op fits valid hit miss handled =
      let parsed : with_peer net p (λ q v. respond f (op q v)) w ≡ respond f (op p w) =
        rw (valid, with_peer) refl in
      ask-daemon pick req w fits
      ∙ ap (λ r. (expect pick r.0, r.1)) (handled ∙ parsed)
      ∙ expect-respond pick f (op p w) hit miss

  -- Where each of these requests and its answer parse back from their CBOR and are short enough for a length field, the service's call takes
  -- less than the 120 seconds of the proxy's read timeout, and the peer's id parses as itself, the proxy's methods on a peer's zones give what the service's own methods give
  -- and leave the world as they do, with an error turned into an I/O error that has its message.
  pub zones-relay :
      (p : PeerId) (zone name : Str) (offset size : ℕ) (w : World)
      → net.parse_peer_id p ≡ some p
      → All (Fits w) (
          DaemonRequest.list_remote_zones p
          ∷ DaemonRequest.list_remote_files p zone
          ∷ DaemonRequest.fetch_file p zone name
          ∷ DaemonRequest.get_file_meta p zone name
          ∷ DaemonRequest.get_file_chunk p zone name offset size
          ∷ [])
      → (proxy.list_remote_zones p w ≡ relay (p2p.list_remote_zones p w))
        × (proxy.list_remote_files p zone w ≡ relay (p2p.list_remote_files p zone w))
        × (proxy.fetch_file p zone name w ≡ relay (p2p.fetch_file p zone name w))
        × (proxy.get_file_meta p zone name w ≡ relay (p2p.get_file_meta p zone name w))
        × (proxy.get_file_chunk p zone name offset size w
            ≡ relay (p2p.get_file_chunk p zone name offset size w))
  unfolding handle_request Proxy.list_remote_zones Proxy.list_remote_files Proxy.fetch_file
      Proxy.get_file_meta Proxy.get_file_chunk
  zones-relay p zone name offset size w valid fits = (
    ask-with_peer (λ r. elim r [ DaemonResponse.zones a ↦ some a | _ ↦ none ]) DaemonResponse.zones
        (DaemonRequest.list_remote_zones p) p w (λ q v. p2p.list_remote_zones q v) fits.0 valid
        (λ a. refl) (λ e. refl) refl,
    ask-with_peer (λ r. elim r [ DaemonResponse.files a ↦ some a | _ ↦ none ]) DaemonResponse.files
        (DaemonRequest.list_remote_files p zone) p w (λ q v. p2p.list_remote_files q zone v)
        fits.1.0 valid (λ a. refl) (λ e. refl) refl,
    ask-with_peer (λ r. elim r [ DaemonResponse.file_data a h ↦ some (a, h) | _ ↦ none ])
        (λ f. DaemonResponse.file_data f.0 f.1) (DaemonRequest.fetch_file p zone name) p w
        (λ q v. p2p.fetch_file q zone name v) fits.1.1.0 valid (λ a. refl) (λ e. refl) refl,
    ask-with_peer (λ r. elim r [ DaemonResponse.file_meta a ↦ some a | _ ↦ none ])
        DaemonResponse.file_meta (DaemonRequest.get_file_meta p zone name) p w
        (λ q v. p2p.get_file_meta q zone name v) fits.1.1.1.0 valid (λ a. refl) (λ e. refl) refl,
    ask-with_peer (λ r. elim r [ DaemonResponse.file_chunk a ↦ some a | _ ↦ none ])
        DaemonResponse.file_chunk (DaemonRequest.get_file_chunk p zone name offset size) p w
        (λ q v. p2p.get_file_chunk q zone name offset size v) fits.1.1.1.1.0 valid (λ a. refl)
        (λ e. refl) refl,
  )

  -- Under the same conditions, so do the proxy's methods on a peer's shared files.
  pub rs-relay :
      (p : PeerId) (name hash : Str) (hashes : List Str) (file : RsFileEntry) (w : World)
      → net.parse_peer_id p ≡ some p
      → All (Fits w) (
          DaemonRequest.rs_list p
          ∷ DaemonRequest.rs_announce p file
          ∷ DaemonRequest.rs_get_meta p name
          ∷ DaemonRequest.rs_get_block p hash
          ∷ DaemonRequest.rs_get_blocks p hashes
          ∷ DaemonRequest.rs_have p name
          ∷ DaemonRequest.rs_delete p name
          ∷ [])
      → (proxy.rs_list p w ≡ relay (p2p.rs_list p w))
        × (proxy.rs_announce p file w ≡ relay (p2p.rs_announce p file w))
        × (proxy.rs_get_meta p name w ≡ relay (p2p.rs_get_meta p name w))
        × (proxy.rs_get_block p hash w ≡ relay (p2p.rs_get_block p hash w))
        × (proxy.rs_get_blocks p hashes w ≡ relay (p2p.rs_get_blocks p hashes w))
        × (proxy.rs_have p name w ≡ relay (p2p.rs_have p name w))
        × (proxy.rs_delete p name w ≡ relay (p2p.rs_delete p name w))
  unfolding handle_request Proxy.rs_list Proxy.rs_announce Proxy.rs_get_meta Proxy.rs_get_block
      Proxy.rs_get_blocks Proxy.rs_have Proxy.rs_delete
  rs-relay p name hash hashes file w valid fits = (
    ask-with_peer (λ r. elim r [ DaemonResponse.rs_files a ↦ some a | _ ↦ none ])
        DaemonResponse.rs_files (DaemonRequest.rs_list p) p w (λ q v. p2p.rs_list q v) fits.0 valid
        (λ a. refl) (λ e. refl) refl,
    ask-with_peer (λ r. elim r [ DaemonResponse.done ↦ some tt | _ ↦ none ])
        (λ _. DaemonResponse.done) (DaemonRequest.rs_announce p file) p w
        (λ q v. p2p.rs_announce q file v) fits.1.0 valid (λ a. refl) (λ e. refl) refl,
    ask-with_peer (λ r. elim r [ DaemonResponse.rs_meta a ↦ some a | _ ↦ none ])
        DaemonResponse.rs_meta (DaemonRequest.rs_get_meta p name) p w
        (λ q v. p2p.rs_get_meta q name v) fits.1.1.0 valid (λ a. refl) (λ e. refl) refl,
    ask-with_peer (λ r. elim r [ DaemonResponse.rs_block a ↦ some a | _ ↦ none ])
        DaemonResponse.rs_block (DaemonRequest.rs_get_block p hash) p w
        (λ q v. p2p.rs_get_block q hash v) fits.1.1.1.0 valid (λ a. refl) (λ e. refl) refl,
    ask-with_peer (λ r. elim r [ DaemonResponse.rs_blocks a ↦ some a | _ ↦ none ])
        DaemonResponse.rs_blocks (DaemonRequest.rs_get_blocks p hashes) p w
        (λ q v. p2p.rs_get_blocks q hashes v) fits.1.1.1.1.0 valid (λ a. refl) (λ e. refl) refl,
    ask-with_peer (λ r. elim r [ DaemonResponse.rs_has a ↦ some a | _ ↦ none ])
        DaemonResponse.rs_has (DaemonRequest.rs_have p name) p w (λ q v. p2p.rs_have q name v)
        fits.1.1.1.1.1.0 valid (λ a. refl) (λ e. refl) refl,
    ask-with_peer (λ r. elim r [ DaemonResponse.done ↦ some tt | _ ↦ none ])
        (λ _. DaemonResponse.done) (DaemonRequest.rs_delete p name) p w
        (λ q v. p2p.rs_delete q name v) fits.1.1.1.1.1.1.0 valid (λ a. refl) (λ e. refl) refl,
  )

  -- Under the same conditions, the proxy's id, its peers, their number and its refresh are the service's.
  peers-relay :
      (w : World)
      → net.parse_peer_id p2p.local_peer_id ≡ some p2p.local_peer_id
      → All (Fits w) (
          DaemonRequest.get_local_peer_id ∷ DaemonRequest.get_peers ∷ DaemonRequest.get_peer_count
          ∷ DaemonRequest.refresh_peers ∷ [])
      → (Proxy.local_peer_id req_cbor resp_cbor
            (daemon net p2p sync_manager req_cbor resp_cbor clock)
            net
            w
          ≡ (ok proxy.local_peer_id, w))
        × (proxy.get_peers w ≡ p2p.get_peers w)
        × (proxy.peer_count w ≡ p2p.peer_count w)
        × (proxy.refresh_peers w ≡ relay (p2p.refresh_peers w))
  unfolding handle_request Proxy.local_peer_id Proxy.get_peers Proxy.peer_count Proxy.refresh_peers
  peers-relay w valid fits =
      let connect = daemon net p2p sync_manager req_cbor resp_cbor clock in
      let sent = λ (req : DaemonRequest) (f : Fits w req).
        request-daemon net p2p sync_manager req_cbor resp_cbor clock req w f.0 f.1 f.2 f.3 f.4 in
      let id =
        ask-daemon (λ r. elim r [ DaemonResponse.local_peer_id a ↦ some a | _ ↦ none ])
          DaemonRequest.get_local_peer_id w fits.0 in
      let pick_count = λ (r : DaemonResponse).
        let o : Option ℕ = elim r [ DaemonResponse.peer_count a ↦ some a | _ ↦ none ] in o in
      let refreshed = ask-daemon pick_count DaemonRequest.refresh_peers w fits.1.1.1.0 in
      (
        ground (arith, id, valid),
        ground (arith, sent DaemonRequest.get_peers fits.1.0),
        ground (arith, sent DaemonRequest.get_peer_count fits.1.1.0),
        refreshed
            ∙ expect-respond pick_count DaemonResponse.peer_count (p2p.refresh_peers w) (λ a. refl)
                (λ e. refl),
      )
