-- ===== src/Daemon/Proxy/Examples.antt =====
-- A description and a block on the way from Alice to the terminal interface.
use rxiu.Base.{
  zero, suc, ℕ, ◌≡◌, refl, str_eq, codes, false, [], ◌∷◌, ◌++◌, none, some, inl, inr, arith,
}
use rxiu.Base.Assoc.{lookup, insert}
use rxiu.Error.{ok, err, io, no_active_zone, to_string}
use rxiu.External.{Cbor}
use rxiu.Rs.Metadata.{get_file}
use rxiu.Rs.Blocks.{read_block}
use rxiu.P2p.Messages.{FileRequest, RsBlock}
use rxiu.P2p.Node
use rxiu.P2p.Node.{response_event}
use rxiu.P2p.Peers.{PeerStore}
use rxiu.P2p.Service.{handle_incoming_request}
use rxiu.P2p.Loop.Run.{turn}
use rxiu.P2p.Loop.Samples.{swarm, lib, json, handle, alice}
use rxiu.P2p.Handle.{Session}
use rxiu.P2p.Handle.Methods
use rxiu.P2p.Handle.Samples.{peer, session, answered_in_time}
use rxiu.Daemon.Protocol.{DaemonRequest, DaemonResponse}
use rxiu.Daemon.Server.{SyncManager, handle_request}
use rxiu.Daemon.Proxy.EndToEnd.{Through, terminal, rs-end_to_end}
use rxiu.Samples.{identity_sha, files_json, rs_json, full_disk, file_b}

abbrev manager : SyncManager (Session PeerStore ℕ ℕ)
manager = record {
  trigger = λ v. v;
  status = λ v. record {
    in_progress = false;
    last_updated_files = 0;
    last_error = none;
    global_sync = false;
    download_concurrency = 1;
    sync_concurrency = 1;
    block_size_mb = 1;
  };
}

abbrev piece : RsBlock
piece = record { hash = (1 ∷ 2 ∷ []); content = (1 ∷ 2 ∷ []) }

abbrev req_cbor : Cbor DaemonRequest
req_cbor = record {
  to_vec = λ r. elim r [
    | DaemonRequest.rs_get_meta _ _ ↦ 0 ∷ []
    | DaemonRequest.rs_get_block _ _ ↦ 1 ∷ []
    | _ ↦ []
  ];
  from_slice = λ b. elim b [
    | zero ∷ [] ↦ inr (DaemonRequest.rs_get_meta alice (codes "b"))
    | suc zero ∷ [] ↦ inr (DaemonRequest.rs_get_block alice (1 ∷ 2 ∷ []))
    | _ ↦ inl []
  ];
}

abbrev resp_cbor : Cbor DaemonResponse
resp_cbor = record {
  to_vec = λ r. elim r [
    | DaemonResponse.rs_meta _ ↦ 0 ∷ []
    | DaemonResponse.rs_block _ ↦ 1 ∷ []
    | _ ↦ []
  ];
  from_slice = λ b. elim b [
    | zero ∷ [] ↦ inr (DaemonResponse.rs_meta file_b)
    | suc zero ∷ [] ↦ inr (DaemonResponse.rs_block piece)
    | _ ↦ inl []
  ];
}

abbrev asking : Session PeerStore ℕ ℕ
asking = session (FileRequest.rs_get_meta (codes "b"))

abbrev fetching : Session PeerStore ℕ ℕ
fetching = session (FileRequest.rs_get_block (1 ∷ 2 ∷ []))

meta-Through :
    Through swarm lib json handle manager req_cbor resp_cbor
      (DaemonRequest.rs_get_meta alice (codes "b"))
      asking
unfolding handle_request Methods.rs_get_meta turn handle_incoming_request Node.send_request
    response_event get_file str_eq lookup insert rxiu.Recovery.new
meta-Through = (refl, refl, omega arith, omega arith, omega arith)

block-Through :
    Through swarm lib json handle manager req_cbor resp_cbor
      (DaemonRequest.rs_get_block alice (1 ∷ 2 ∷ []))
      fetching
unfolding handle_request Methods.rs_get_block turn handle_incoming_request Node.send_request
    response_event read_block str_eq lookup insert rxiu.Recovery.new
block-Through = (refl, refl, omega arith, omega arith, omega arith)

rs-end_to_end_example :
    let t = terminal swarm lib json handle manager req_cbor resp_cbor in
    ((t.rs_get_meta alice (codes "b") asking).0 ≡ elim (get_file rs_json (codes "b") full_disk) [
      | ok (some file) ↦ ok file
      | _ ↦ err (io (codes "IO error: RS meta timed out"))
    ])
    × ((t.rs_get_block alice (1 ∷ 2 ∷ []) fetching).0 ≡ elim (read_block (1 ∷ 2 ∷ []) full_disk) [
      | ok content ↦ ok (record { hash = (1 ∷ 2 ∷ []); content = content })
      | err e ↦ err (io (codes "IO error: Failed to read RS block: " ++ to_string e))
    ])
rs-end_to_end_example =
    rs-end_to_end swarm lib json handle manager req_cbor resp_cbor identity_sha files_json rs_json
      (λ n. 1) (err no_active_zone) (ok (7 ∷ [])) alice (codes "b") (1 ∷ 2 ∷ []) peer asking
      fetching refl meta-Through block-Through
      (answered_in_time (FileRequest.rs_get_meta (codes "b")) 10 (omega arith))
      (answered_in_time (FileRequest.rs_get_block (1 ∷ 2 ∷ [])) 120 (omega arith))
