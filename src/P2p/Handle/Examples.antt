-- ===== src/P2p/Handle/Examples.antt =====
-- The methods of the service at small data: Alice answers.
use rxiu.Base.{str_eq, ℕ, ◌≡◌, refl, codes, List, [], ◌∷◌, ◌++◌, none, some, arith}
use rxiu.Base.Assoc.{erase, lookup, insert}
use rxiu.Error.{ok, err, io, no_active_zone, to_string}
use rxiu.Rs.Types.{RsFileEntry}
use rxiu.Rs.Metadata.{list_files, get_file}
use rxiu.Rs.Blocks.{read_block, file_block_hashes}
use rxiu.P2p.Messages.{FileMeta, FileChunk, RsBlock, FileRequest}
use rxiu.P2p.Node
use rxiu.P2p.Node.{response_event}
use rxiu.P2p.Peers.{PeerStore}
use rxiu.P2p.Service.{handle_incoming_request}
use rxiu.P2p.Loop.State.{ServiceCommand, pair_key, chunk_key}
use rxiu.P2p.Loop.Run.{Turn, event, turn}
use rxiu.P2p.Loop.Samples.{empty_node, swarm, lib, json, handle, alice}
use rxiu.P2p.Handle.{Session, call, resp}
use rxiu.P2p.Handle.Methods
use rxiu.P2p.Handle.Asked.{Gives, asked}
use rxiu.P2p.Handle.Peer.{rs-served}
use rxiu.Samples.{identity_sha, files_json, rs_json, full_disk, file_b}
use rxiu.P2p.Handle.Start.{entered, start}
use rxiu.P2p.Handle.Reached.{Reached, started, called}
use rxiu.P2p.Handle.Samples.{answers, peer, session, answered_in_time}

found :
    (Methods.rs_get_meta swarm lib json handle alice
      (codes "b")
      (session (FileRequest.rs_get_meta (codes "b")))).0
    ≡ ok file_b
unfolding Methods.rs_get_meta Node.send_request response_event get_file str_eq lookup insert turn
    handle_incoming_request rxiu.Recovery.new
found = refl

-- The peer has no file of that name, and the time limit passes.
not_found :
    let (result, s) =
      Methods.rs_get_meta swarm lib json handle alice
        (codes "c")
        (session (FileRequest.rs_get_meta (codes "c"))) in
    (result ≡ err (io (codes "RS meta timed out"))) × (s.now ≡ 10000)
unfolding Methods.rs_get_meta Node.send_request response_event get_file str_eq lookup insert turn
    handle_incoming_request rxiu.Recovery.new
not_found = (refl, refl)

rs-served_example :
    ((Methods.rs_list swarm lib json handle alice (session FileRequest.rs_list)).0
      ≡ elim (list_files rs_json full_disk) [
        | ok files ↦ ok files
        | err e ↦ err (io (codes "RS list timed out"))
      ])
    × ((Methods.rs_get_meta swarm lib json handle alice
          (codes "b")
          (session (FileRequest.rs_get_meta (codes "b")))).0
        ≡ elim (get_file rs_json (codes "b") full_disk) [
          | ok (some file) ↦ ok file
          | _ ↦ err (io (codes "RS meta timed out"))
        ])
    × ((Methods.rs_get_block swarm lib json handle alice
          (1 ∷ 2 ∷ [])
          (session (FileRequest.rs_get_block (1 ∷ 2 ∷ [])))).0
        ≡ elim (read_block (1 ∷ 2 ∷ []) full_disk) [
          | ok content ↦ ok (record { hash = (1 ∷ 2 ∷ []); content = content })
          | err e ↦ err (io (codes "Failed to read RS block: " ++ to_string e))
        ])
    × ((Methods.rs_have swarm lib json handle alice
          (codes "b")
          (session (FileRequest.rs_have (codes "b")))).0
        ≡ elim (file_block_hashes rs_json (codes "b") full_disk) [
          | ok hashes ↦ ok (record { name = (codes "b"); hashes = hashes })
          | err e ↦ err (io (codes "Failed to read RS block availability: " ++ to_string e))
        ])
rs-served_example =
    rs-served identity_sha files_json rs_json (λ n. 1) (err no_active_zone) (ok (7 ∷ [])) swarm lib
      json handle alice (codes "b") (1 ∷ 2 ∷ []) peer (session FileRequest.rs_list)
      (session (FileRequest.rs_get_meta (codes "b")))
      (session (FileRequest.rs_get_block (1 ∷ 2 ∷ []))) (session (FileRequest.rs_have (codes "b")))
      (answered_in_time FileRequest.rs_list 10 (omega arith))
      (answered_in_time (FileRequest.rs_get_meta (codes "b")) 10 (omega arith))
      (answered_in_time (FileRequest.rs_get_block (1 ∷ 2 ∷ [])) 120 (omega arith))
      (answered_in_time (FileRequest.rs_have (codes "b")) 10 (omega arith))

-- A service that has started, without known peers, and Alice's two responses.
abbrev coming : List (ℕ × Turn)
coming =
    (1, event 0 (response_event swarm alice (0 ∷ []) (answers FileRequest.rs_list)))
    ∷ (
      2,
      event 0 (response_event swarm alice (1 ∷ []) (answers (FileRequest.rs_get_meta (codes "b")))),
    )
    ∷ []

abbrev begun : Session PeerStore ℕ ℕ
begun = entered swarm lib json 0 0 0 empty_node none 0 coming 3

begun-Reached : Reached swarm lib json handle begun
unfolding start Node.start_listening
begun-Reached =
    started 0 0 0 0 none 0 coming 3 begun refl
      (λ c e. absurd (ground (arith, e)), (λ c e. absurd (ground (arith, e)), tt))

abbrev listed : Session PeerStore ℕ ℕ
listed = (Methods.rs_list swarm lib json handle alice begun).1

listed-Reached : Reached swarm lib json handle listed
unfolding Methods.rs_list call resp
listed-Reached = called 10 (ServiceCommand.rs_list alice) begun (λ t. refl) begun-Reached

-- The second response answers the second call.
then_found : (Methods.rs_get_meta swarm lib json handle alice (codes "b") listed).0 ≡ ok file_b
unfolding Methods.rs_list Methods.rs_get_meta entered turn handle_incoming_request Node.send_request
    response_event get_file list_files str_eq lookup insert erase
then_found = refl

asked_example :
    Gives
      (λ (file : RsFileEntry). file.name ≡ (codes "b"))
      (Methods.rs_get_meta swarm lib json handle alice (codes "b") listed).0
    × Gives
        (λ (block : RsBlock). block.hash ≡ (1 ∷ 2 ∷ []))
        (Methods.rs_get_block swarm lib json handle alice (1 ∷ 2 ∷ []) listed).0
    × Gives
        (λ (meta : FileMeta). pair_key meta.zone meta.name ≡ pair_key (codes "z") (codes "b"))
        (Methods.get_file_meta swarm lib json handle alice (codes "z") (codes "b") listed).0
    × Gives
        (λ (chunk : FileChunk).
          chunk_key chunk.zone chunk.name chunk.offset ≡ chunk_key (codes "z") (codes "b") 0)
        (Methods.get_file_chunk swarm lib json handle alice (codes "z") (codes "b") 0 4 listed).0
asked_example =
    asked swarm lib json handle alice (codes "z") (codes "b") (1 ∷ 2 ∷ []) 0 4 listed listed-Reached
