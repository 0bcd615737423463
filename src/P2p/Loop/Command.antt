-- ===== src/P2p/Loop/Command.antt =====
-- p2p/service.rs: what the loop does with a command.
use rxiu.Base.{◌∷◌}
use rxiu.Base.Assoc.{insert}
use rxiu.P2p.Messages.{FileRequest}
use rxiu.P2p.Node
use rxiu.External.{PeerId}
use rxiu.P2p.Node.{Swarm, RequestId}
use rxiu.P2p.Loop.State.{ServiceCommand, Answer, Pending, LoopState, pair_key, chunk_key, renew_key}

module _ {Text S World : Type 0} (net : Swarm S) where
  abbrev pub reply : ServiceCommand → Answer → LoopState Text S World → LoopState Text S World
  reply command a st = record st { replies = (command, a) ∷ st.replies }

  -- `node.send_request` and a change of the maps, which may use the request's id.
  abbrev pub send :
      PeerId
      → FileRequest
      → (RequestId → Pending → Pending)
      → LoopState Text S World
      → LoopState Text S World
  send peer_id request keep st =
      let (id, node) = Node.send_request net peer_id request st.node in
      record st { node = node; pending = keep id st.pending }

  unfoldable pub handle_command : ServiceCommand → LoopState Text S World → LoopState Text S World
  unfolding Node.get_peers Node.peer_count Node.send_request Node.start_listening
      Node.probe_all_peers chunk_key renew_key
  handle_command (ServiceCommand.get_peers t) st =
      reply (ServiceCommand.get_peers t) (Answer.peers (Node.get_peers net st.node)) st
  handle_command (ServiceCommand.get_peer_count t) st =
      reply (ServiceCommand.get_peer_count t) (Answer.peer_count (Node.peer_count net st.node)) st
  handle_command (ServiceCommand.list_remote_zones p t) st =
      send p FileRequest.list_zones
        (λ _ m. record m { zone = insert p (ServiceCommand.list_remote_zones p t) m.zone }) st
  handle_command (ServiceCommand.list_remote_files p zone t) st =
      send p (FileRequest.list_files zone)
        (λ _ m. record m {
          file_list = insert p (ServiceCommand.list_remote_files p zone t) m.file_list;
        })
        st
  handle_command (ServiceCommand.fetch_file p zone name t) st =
      send p (FileRequest.get_file zone name)
        (λ _ m. record m {
          file = insert (pair_key zone name) (ServiceCommand.fetch_file p zone name t) m.file;
        })
        st
  handle_command (ServiceCommand.get_file_meta p zone name t) st =
      send p (FileRequest.get_file_meta zone name)
        (λ _ m. record m {
          file_meta =
              insert (pair_key zone name) (ServiceCommand.get_file_meta p zone name t) m.file_meta;
        })
        st
  handle_command (ServiceCommand.get_file_chunk p zone name offset size t) st =
      send p (FileRequest.get_file_chunk zone name offset size)
        (λ _ m. record m {
          file_chunk =
              insert (chunk_key zone name offset)
                (ServiceCommand.get_file_chunk p zone name offset size t) m.file_chunk;
        })
        st
  handle_command (ServiceCommand.rs_list p t) st =
      send p FileRequest.rs_list
        (λ _ m. record m { rs_list = insert p (ServiceCommand.rs_list p t) m.rs_list }) st
  handle_command (ServiceCommand.rs_announce p file) st =
      send p (FileRequest.rs_announce file) (λ _ m. m) st
  handle_command (ServiceCommand.rs_get_meta p name t) st =
      send p (FileRequest.rs_get_meta name)
        (λ _ m. record m { rs_meta = insert name (ServiceCommand.rs_get_meta p name t) m.rs_meta })
        st
  handle_command (ServiceCommand.rs_get_block p hash t) st =
      send p (FileRequest.rs_get_block hash)
        (λ id m. record m {
          rs_block_ids = insert id hash m.rs_block_ids;
          rs_block = insert hash (ServiceCommand.rs_get_block p hash t) m.rs_block;
        })
        st
  handle_command (ServiceCommand.rs_get_blocks p hashes t) st =
      send p (FileRequest.rs_get_blocks hashes)
        (λ id m. record m {
          rs_blocks = insert id (ServiceCommand.rs_get_blocks p hashes t) m.rs_blocks;
        })
        st
  handle_command (ServiceCommand.rs_have p name t) st =
      send p (FileRequest.rs_have name)
        (λ id m. record m {
          rs_have_ids = insert id (pair_key p name) m.rs_have_ids;
          rs_have = insert (pair_key p name) (ServiceCommand.rs_have p name t) m.rs_have;
        })
        st
  handle_command (ServiceCommand.rs_delete p name) st =
      send p (FileRequest.rs_delete name) (λ _ m. m) st
  handle_command (ServiceCommand.refresh_peers t) st =
      let (_, probed) = Node.probe_all_peers net (Node.start_listening net st.node).1 in
      reply (ServiceCommand.refresh_peers t) (Answer.refreshed (Node.peer_count net probed))
        (record st { node = probed })
  handle_command (ServiceCommand.renew_get_version p t) st =
      send p FileRequest.renew_get_version
        (λ _ m. record m {
          renew_version = insert p (ServiceCommand.renew_get_version p t) m.renew_version;
        })
        st
  handle_command (ServiceCommand.renew_get_binary_chunk p offset len t) st =
      send p (FileRequest.renew_get_binary_chunk offset len)
        (λ _ m. record m {
          renew_chunk =
              insert (renew_key p offset) (ServiceCommand.renew_get_binary_chunk p offset len t)
                m.renew_chunk;
        })
        st
