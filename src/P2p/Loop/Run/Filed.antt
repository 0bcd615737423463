-- ===== src/P2p/Loop/Run/Filed.antt =====
-- p2p/service.rs: a command is filed under the key of its answer.
use rxiu.Base.{refl, arith}
use rxiu.Base.Assoc.{All-insert}
use rxiu.P2p.Messages.{FileRequest}
use rxiu.P2p.Node
use rxiu.P2p.Node.{PeerInfo, Swarm, NodeEvent}
use rxiu.P2p.Loop.State.{ServiceCommand, LoopState, pair_key, chunk_key, renew_key}
use rxiu.P2p.Loop.Command.{handle_command}
use rxiu.P2p.Loop.Run.Answers.{
  ForZones, ForFiles, ForFile, ForMeta, ForChunk, ForRsList, ForRsMeta, ForBlock, ForBlocks,
  ForHave, ForVersion, ForRenewChunk, Known, IsKept,
}

module _ {Text S World : Type 0} (Q : ServiceCommand → Type 0) (net : Swarm S) where
  pub handle_command-IsKept :
      (c : ServiceCommand) (st : LoopState Text S World)
      → IsKept Q st
      → Q c
      → IsKept Q (handle_command net c st)
  unfolding handle_command
  handle_command-IsKept (ServiceCommand.get_peers t) st k q = record {
    filed = k.filed;
    fit = (((t, refl), q), k.fit);
  }
  handle_command-IsKept (ServiceCommand.get_peer_count t) st k q = record {
    filed = k.filed;
    fit = (((t, refl), q), k.fit);
  }
  handle_command-IsKept (ServiceCommand.rs_announce p file) st k q = record {
    filed = k.filed;
    fit = k.fit;
  }
  handle_command-IsKept (ServiceCommand.rs_delete p name) st k q = record {
    filed = k.filed;
    fit = k.fit;
  }
  handle_command-IsKept (ServiceCommand.refresh_peers t) st k q = record {
    filed = k.filed;
    fit = (((t, refl), q), k.fit);
  }
  handle_command-IsKept (ServiceCommand.list_remote_zones p t) st k q =
      let m = st.pending in
      ground (
        arith,
        k,
        All-insert (Known Q ForZones) p (ServiceCommand.list_remote_zones p t) m.zone ((t, refl), q)
            k.filed.zone,
      )
  handle_command-IsKept (ServiceCommand.list_remote_files p zone t) st k q =
      let m = st.pending in
      ground (
        arith,
        k,
        All-insert (Known Q ForFiles) p (ServiceCommand.list_remote_files p zone t) m.file_list
            ((zone, t, refl), q) k.filed.file_list,
      )
  handle_command-IsKept (ServiceCommand.fetch_file p zone name t) st k q =
      let m = st.pending in
      ground (
        arith,
        k,
        All-insert (Known Q ForFile) (pair_key zone name) (ServiceCommand.fetch_file p zone name t)
            m.file ((p, zone, name, t, refl, refl), q) k.filed.file,
      )
  handle_command-IsKept (ServiceCommand.get_file_meta p zone name t) st k q =
      let m = st.pending in
      ground (
        arith,
        k,
        All-insert (Known Q ForMeta) (pair_key zone name)
            (ServiceCommand.get_file_meta p zone name t) m.file_meta
            ((p, zone, name, t, refl, refl), q) k.filed.file_meta,
      )
  handle_command-IsKept (ServiceCommand.get_file_chunk p zone name offset size t) st k q =
      let m = st.pending in
      ground (
        arith,
        k,
        All-insert (Known Q ForChunk) (chunk_key zone name offset)
            (ServiceCommand.get_file_chunk p zone name offset size t) m.file_chunk
            ((p, zone, name, offset, size, t, refl, refl), q) k.filed.file_chunk,
      )
  handle_command-IsKept (ServiceCommand.rs_list p t) st k q =
      let m = st.pending in
      ground (
        arith,
        k,
        All-insert (Known Q ForRsList) p (ServiceCommand.rs_list p t) m.rs_list ((t, refl), q)
            k.filed.rs_list,
      )
  handle_command-IsKept (ServiceCommand.rs_get_meta p name t) st k q =
      let m = st.pending in
      ground (
        arith,
        k,
        All-insert (Known Q ForRsMeta) name (ServiceCommand.rs_get_meta p name t) m.rs_meta
            ((p, t, refl), q) k.filed.rs_meta,
      )
  handle_command-IsKept (ServiceCommand.rs_get_block p hash t) st k q =
      let m = st.pending in
      ground (
        arith,
        k,
        All-insert (Known Q ForBlock) hash (ServiceCommand.rs_get_block p hash t) m.rs_block
            ((p, t, refl), q) k.filed.rs_block,
      )
  handle_command-IsKept (ServiceCommand.rs_get_blocks p hashes t) st k q =
      let m = st.pending in
      ground (
        arith,
        k,
        All-insert (Known Q ForBlocks)
            (Node.send_request net p (FileRequest.rs_get_blocks hashes) st.node).0
            (ServiceCommand.rs_get_blocks p hashes t) m.rs_blocks ((p, hashes, t, refl), q)
            k.filed.rs_blocks,
      )
  handle_command-IsKept (ServiceCommand.rs_have p name t) st k q =
      let m = st.pending in
      ground (
        arith,
        k,
        All-insert (Known Q ForHave) (pair_key p name) (ServiceCommand.rs_have p name t) m.rs_have
            ((p, name, t, refl, refl), q) k.filed.rs_have,
      )
  handle_command-IsKept (ServiceCommand.renew_get_version p t) st k q =
      let m = st.pending in
      ground (
        arith,
        k,
        All-insert (Known Q ForVersion) p (ServiceCommand.renew_get_version p t) m.renew_version
            ((t, refl), q) k.filed.renew_version,
      )
  handle_command-IsKept (ServiceCommand.renew_get_binary_chunk p offset len t) st k q =
      let m = st.pending in
      ground (
        arith,
        k,
        All-insert (Known Q ForRenewChunk) (renew_key p offset)
            (ServiceCommand.renew_get_binary_chunk p offset len t) m.renew_chunk
            ((p, offset, len, t, refl, refl), q) k.filed.renew_chunk,
      )
