-- ===== src/Daemon/Proxy/EndToEnd.antt =====
-- daemon/proxy.rs, daemon/server.rs and p2p/service.rs together: from the terminal interface over the daemon to a peer and back.
use rxiu.Base.{ℕ, ◌≡◌, ◌∙◌, ap, refl, Str, Bytes, codes, List, ◌++◌, Option, none, some}
use rxiu.Error.{Result, ok, err, io, to_string}
use rxiu.External.{Cbor, PeerId, Libp2p, Json, Sha256}
use rxiu.Rs.Types.{RsFileEntry, RsMetadata}
use rxiu.Rs.Metadata.{get_file}
use rxiu.Rs.Blocks.{read_block}
use rxiu.Storage.Local.{FileMetadata}
use rxiu.Renew.Version.{VersionInfo}
use rxiu.P2p.Messages.{RsBlock, FileRequest, FileResponse}
use rxiu.P2p.Node.{Swarm}
use rxiu.P2p.Peers.{PeerStore}
use rxiu.P2p.Service.{Shared}
use rxiu.P2p.Handle
use rxiu.P2p.Handle.{Session}
use rxiu.P2p.Handle.Methods
use rxiu.P2p.Handle.Peer.{Serves, rs_get_meta-served, rs_get_block-served}
use rxiu.Daemon.Protocol.{DaemonRequest, DaemonResponse}
use rxiu.Daemon.Server.{Service, SyncManager, handle_request}
use rxiu.Daemon.Proxy
use rxiu.Daemon.Proxy.Relay.{Fits, proxy, relay, ask-with_peer}

-- The result of `relay`.
unfoldable relayed {ℓ} : {A : Type ℓ} → Result A → Result A
relayed r = elim r [ ok a ↦ ok a | err e ↦ err (io (to_string e)) ]

relay-result {ℓ} : {A : Type ℓ} {World : Type 0} (r : Result A × World) → (relay r).0 ≡ relayed r.0
unfolding relayed
relay-result (ok a, w) = refl
relay-result (err e, w) = refl

relayed-meta :
    (o : Result (Option RsFileEntry))
    → relayed (elim o [ ok (some file) ↦ ok file | _ ↦ err (io (codes "RS meta timed out")) ])
      ≡ elim o [ ok (some file) ↦ ok file | _ ↦ err (io (codes "IO error: RS meta timed out")) ]
unfolding relayed to_string
relayed-meta (ok (some file)) = refl
relayed-meta (ok none) = refl
relayed-meta (err e) = refl

relayed-block :
    (hash : Str) (o : Result Bytes)
    → relayed {A = RsBlock} (elim o [
      | ok content ↦ ok (record { hash = hash; content = content })
      | err e ↦ err (io (codes "Failed to read RS block: " ++ to_string e))
    ])
      ≡ elim o [
        | ok content ↦ ok (record { hash = hash; content = content })
        | err e ↦ err (io (codes "IO error: Failed to read RS block: " ++ to_string e))
      ]
unfolding relayed to_string
relayed-block hash (ok content) = refl
relayed-block hash (err e) = refl

module _ {Text S World : Type 0} (net : Swarm S) (lib : Libp2p) (json : Json Text PeerStore)
    (handle : FileRequest → World → FileResponse × World) where
  -- The service that the daemon runs: its methods on the session of its loop.
  abbrev pub service : Service (Session Text S World)
  service = record {
    local_peer_id = net.local_peer_id;
    get_peers = Handle.get_peers net lib json handle;
    peer_count = Handle.peer_count net lib json handle;
    list_remote_zones = Methods.list_remote_zones net lib json handle;
    list_remote_files = Methods.list_remote_files net lib json handle;
    fetch_file = Methods.fetch_file net lib json handle;
    get_file_meta = Methods.get_file_meta net lib json handle;
    get_file_chunk = Methods.get_file_chunk net lib json handle;
    rs_list = Methods.rs_list net lib json handle;
    rs_announce = Methods.rs_announce net lib json handle;
    rs_get_meta = Methods.rs_get_meta net lib json handle;
    rs_get_block = Methods.rs_get_block net lib json handle;
    rs_get_blocks = Methods.rs_get_blocks net lib json handle;
    rs_have = Methods.rs_have net lib json handle;
    rs_delete = Methods.rs_delete net lib json handle;
    refresh_peers = Methods.refresh_peers net lib json handle;
  }

  module _ (sync_manager : SyncManager (Session Text S World)) (req_cbor : Cbor DaemonRequest)
      (resp_cbor : Cbor DaemonResponse) where
    -- The proxy of that daemon, and what a request and its answer need to come through, by the clock of the session.
    abbrev pub terminal : Service (Session Text S World)
    terminal = proxy lib service sync_manager req_cbor resp_cbor (λ s. s.now)

    abbrev pub Through : DaemonRequest → Session Text S World → Type 0
    Through request s = Fits lib service sync_manager req_cbor resp_cbor (λ s. s.now) s request

    module _ {File : Type 0} (sha : Sha256) (zone_json : Json File (List FileMetadata))
        (rs_json : Json File RsMetadata) (short : ℕ → ℕ) (version : Result VersionInfo)
        (exe : Result Bytes) where
      -- The terminal interface asks its daemon for a description or a block of a peer, whose response wakes the daemon's loop within the
      -- time limit. Until the limit has passed, only heartbeats, reconnections, and the peers' coming, going, requests, pongs
      -- and answers to `GetPeers` and announcements wake it besides. The ticket and the id are new.
      -- Where the messages between the two parse back and fit, the daemon takes less than the 120 seconds that the terminal's
      -- proxy reads for, and the peer's id parses as itself: a description is the peer's entry of the
      -- name, and a block the content that the peer reads. An error of the peer comes, for a block, with its message behind two
      -- prefixes, and for a description as the passing of the time limit.
      pub rs-end_to_end :
          (p : PeerId) (name hash : Str) (u : Shared File) (asking fetching : Session Text S World)
          → lib.parse_peer_id p ≡ some p
          → Through (DaemonRequest.rs_get_meta p name) asking
          → Through (DaemonRequest.rs_get_block p hash) fetching
          → Serves sha zone_json rs_json short version exe net lib json handle p
              (FileRequest.rs_get_meta name)
              10
              u
              asking
          → Serves sha zone_json rs_json short version exe net lib json handle p
              (FileRequest.rs_get_block hash)
              120
              u
              fetching
          → ((terminal.rs_get_meta p name asking).0 ≡ elim (get_file rs_json name u.rs) [
            | ok (some file) ↦ ok file
            | _ ↦ err (io (codes "IO error: RS meta timed out"))
          ])
            × ((terminal.rs_get_block p hash fetching).0 ≡ elim (read_block hash u.rs) [
              | ok content ↦ ok (record { hash = hash; content = content })
              | err e ↦ err (io (codes "IO error: Failed to read RS block: " ++ to_string e))
            ])
      unfolding handle_request Proxy.rs_get_meta Proxy.rs_get_block
      rs-end_to_end p name hash u asking fetching valid fits fits' served served' =
          let meta =
            ask-with_peer lib service sync_manager req_cbor resp_cbor (λ s. s.now)
              (λ r. elim r [ DaemonResponse.rs_meta a ↦ some a | _ ↦ none ]) DaemonResponse.rs_meta
              (DaemonRequest.rs_get_meta p name) p asking
              (λ q v. Methods.rs_get_meta net lib json handle q name v) fits valid (λ a. refl)
              (λ e. refl) refl in
          let block =
            ask-with_peer lib service sync_manager req_cbor resp_cbor (λ s. s.now)
              (λ r. elim r [ DaemonResponse.rs_block a ↦ some a | _ ↦ none ])
              DaemonResponse.rs_block (DaemonRequest.rs_get_block p hash) p fetching
              (λ q v. Methods.rs_get_block net lib json handle q hash v) fits' valid (λ a. refl)
              (λ e. refl) refl in
          (
            ap (λ r. r.0) meta
                ∙ relay-result (Methods.rs_get_meta net lib json handle p name asking)
                ∙ ap relayed (
                    rs_get_meta-served sha zone_json rs_json short version exe net lib json handle p
                      name u asking served)
                ∙ relayed-meta (get_file rs_json name u.rs),
            ap (λ r. r.0) block
                ∙ relay-result (Methods.rs_get_block net lib json handle p hash fetching)
                ∙ ap relayed (
                    rs_get_block-served sha zone_json rs_json short version exe net lib json handle
                      p hash u fetching served')
                ∙ relayed-block hash (read_block hash u.rs),
          )
