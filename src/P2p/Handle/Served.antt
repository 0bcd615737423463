-- ===== src/P2p/Handle/Served.antt =====
-- p2p/service.rs: a method of `P2PService` against the peer that answers it within the time limit, from the command to the result.
use rxiu.Base.{◌≡◌, refl, Str, str_eq_refl, codes, List, arith}
use rxiu.Base.Assoc.{lookup-insert}
use rxiu.Error.{ok, err, io}
use rxiu.External.{PeerId, Libp2p, Json}
use rxiu.Rs.Types.{RsFileEntry}
use rxiu.P2p.Messages.{RsBlock, RsHave, FileRequest, FileResponse}
use rxiu.P2p.Node
use rxiu.P2p.Node.{Swarm, NodeEvent, RequestId, response_event}
use rxiu.P2p.Peers.{PeerStore}
use rxiu.P2p.Loop.State.{ServiceCommand, Answer, pair_key, answer}
use rxiu.P2p.Loop.Command.{handle_command}
use rxiu.P2p.Loop.Event.{handle_event, response_error}
use rxiu.P2p.Loop.Run.{turn}
use rxiu.P2p.Handle.Responds.{Responds, served, stranded, holds-insert}
use rxiu.P2p.Handle.{Session, has_resp, waits, conclude}
use rxiu.P2p.Handle.Methods

module _ {Text S World : Type 0} (net : Swarm S) (lib : Libp2p) (json : Json Text PeerStore)
    (handle : FileRequest → World → FileResponse × World) where
  pub rs_list-ok :
      (p : PeerId) (files : List RsFileEntry) (s : Session Text S World)
      → Responds net lib json handle p FileRequest.rs_list (FileResponse.rs_files files) 10 s
      → (Methods.rs_list net lib json handle p s).0 ≡ ok files
  unfolding Methods.rs_list turn handle_command handle_event answer waits has_resp response_event
      conclude
  rs_list-ok p files s r =
      let own = ServiceCommand.rs_list p s.ticket in
      served net lib json handle 10 _ _ (ServiceCommand.rs_list p) p FileRequest.rs_list
        (FileResponse.rs_files files) s (Answer.rs_files files) r (ground arith) refl
        (ground (arith, holds-insert s.ticket p own s.state.pending.rs_list))
        (ground (arith, lookup-insert p p own s.state.pending.rs_list, str_eq_refl p))

  pub rs_list-error :
      (p : PeerId) (message : Str) (s : Session Text S World)
      → Responds net lib json handle p FileRequest.rs_list (FileResponse.error message) 10 s
      → (Methods.rs_list net lib json handle p s).0 ≡ err (io (codes "RS list timed out"))
  unfolding Methods.rs_list turn handle_command waits has_resp
  rs_list-error p message s r =
      let own = ServiceCommand.rs_list p s.ticket in
      stranded net lib json handle 10 _ _ (ServiceCommand.rs_list p) p FileRequest.rs_list message s
        r r.new refl (ground (arith, holds-insert s.ticket p own s.state.pending.rs_list))

  pub rs_get_meta-ok :
      (p : PeerId) (name : Str) (file : RsFileEntry) (s : Session Text S World)
      → file.name ≡ name
      → Responds net lib json handle p
          (FileRequest.rs_get_meta name)
          (FileResponse.rs_meta file)
          10
          s
      → (Methods.rs_get_meta net lib json handle p name s).0 ≡ ok file
  unfolding Methods.rs_get_meta turn handle_command handle_event answer waits has_resp
      response_event conclude
  rs_get_meta-ok p name file s named r =
      let own = ServiceCommand.rs_get_meta p name s.ticket in
      served net lib json handle 10 _ _ (ServiceCommand.rs_get_meta p name) p
        (FileRequest.rs_get_meta name) (FileResponse.rs_meta file) s (Answer.rs_meta file) r
        (ground arith) refl (ground (arith, holds-insert s.ticket name own s.state.pending.rs_meta))
        (ground
          (arith, named, lookup-insert name name own s.state.pending.rs_meta, str_eq_refl name))

  pub rs_get_meta-error :
      (p : PeerId) (name message : Str) (s : Session Text S World)
      → Responds net lib json handle p
          (FileRequest.rs_get_meta name)
          (FileResponse.error message)
          10
          s
      → (Methods.rs_get_meta net lib json handle p name s).0 ≡ err (io (codes "RS meta timed out"))
  unfolding Methods.rs_get_meta turn handle_command waits has_resp
  rs_get_meta-error p name message s r =
      let own = ServiceCommand.rs_get_meta p name s.ticket in
      stranded net lib json handle 10 _ _ (ServiceCommand.rs_get_meta p name) p
        (FileRequest.rs_get_meta name) message s r r.new refl
        (ground (arith, holds-insert s.ticket name own s.state.pending.rs_meta))

  pub rs_get_block-ok :
      (p : PeerId) (block : RsBlock) (s : Session Text S World)
      → Responds net lib json handle p
          (FileRequest.rs_get_block block.hash)
          (FileResponse.rs_block block)
          120
          s
      → (Methods.rs_get_block net lib json handle p block.hash s).0 ≡ ok block
  unfolding Methods.rs_get_block turn handle_command handle_event answer waits has_resp
      response_event conclude
  rs_get_block-ok p block s r =
      let hash = block.hash in
      let own = ServiceCommand.rs_get_block p hash s.ticket in
      served net lib json handle 120 _ _ (ServiceCommand.rs_get_block p hash) p
        (FileRequest.rs_get_block hash) (FileResponse.rs_block block) s (Answer.rs_block block) r
        (ground arith) refl
        (ground (arith, holds-insert s.ticket hash own s.state.pending.rs_block))
        (ground (arith, lookup-insert hash hash own s.state.pending.rs_block, str_eq_refl hash))

  pub rs_get_block-error :
      (p : PeerId) (hash message : Str) (s : Session Text S World)
      → Responds net lib json handle p
          (FileRequest.rs_get_block hash)
          (FileResponse.error message)
          120
          s
      → (Methods.rs_get_block net lib json handle p hash s).0 ≡ err (io message)
  unfolding Methods.rs_get_block turn handle_command handle_event response_error answer waits
      has_resp response_event conclude
  rs_get_block-error p hash message s r =
      let id = (Node.send_request net p (FileRequest.rs_get_block hash) s.state.node).0 in
      let own = ServiceCommand.rs_get_block p hash s.ticket in
      served net lib json handle 120 _ _ (ServiceCommand.rs_get_block p hash) p
        (FileRequest.rs_get_block hash) (FileResponse.error message) s (Answer.failed (io message))
        r (ground arith) refl
        (ground (arith, holds-insert s.ticket hash own s.state.pending.rs_block))
        (ground (
          arith,
          lookup-insert id id hash s.state.pending.rs_block_ids,
          str_eq_refl id,
          lookup-insert hash hash own s.state.pending.rs_block,
          str_eq_refl hash,
        ))

  pub rs_have-ok :
      (p : PeerId) (have : RsHave) (s : Session Text S World)
      → Responds net lib json handle p
          (FileRequest.rs_have have.name)
          (FileResponse.rs_has have)
          10
          s
      → (Methods.rs_have net lib json handle p have.name s).0 ≡ ok have
  unfolding Methods.rs_have turn handle_command handle_event answer waits has_resp response_event
      conclude
  rs_have-ok p have s r =
      let key = pair_key p have.name in
      let own = ServiceCommand.rs_have p have.name s.ticket in
      served net lib json handle 10 _ _ (ServiceCommand.rs_have p have.name) p
        (FileRequest.rs_have have.name) (FileResponse.rs_has have) s (Answer.rs_has have) r
        (ground arith) refl (ground (arith, holds-insert s.ticket key own s.state.pending.rs_have))
        (ground (arith, lookup-insert key key own s.state.pending.rs_have, str_eq_refl key))

  pub rs_have-error :
      (p : PeerId) (name message : Str) (s : Session Text S World)
      → Responds net lib json handle p (FileRequest.rs_have name) (FileResponse.error message) 10 s
      → (Methods.rs_have net lib json handle p name s).0 ≡ err (io message)
  unfolding Methods.rs_have turn handle_command handle_event response_error answer waits has_resp
      response_event conclude
  rs_have-error p name message s r =
      let id = (Node.send_request net p (FileRequest.rs_have name) s.state.node).0 in
      let key = pair_key p name in
      let own = ServiceCommand.rs_have p name s.ticket in
      served net lib json handle 10 _ _ (ServiceCommand.rs_have p name) p (FileRequest.rs_have name)
        (FileResponse.error message) s (Answer.failed (io message)) r (ground arith) refl
        (ground (arith, holds-insert s.ticket key own s.state.pending.rs_have))
        (ground (
          arith,
          r.new,
          lookup-insert id id key s.state.pending.rs_have_ids,
          str_eq_refl id,
          lookup-insert key key own s.state.pending.rs_have,
          str_eq_refl key,
        ))
