-- ===== src/P2p/Loop/Run/Settled.antt =====
-- p2p/service.rs: what an event settles fits the command that it is given to.
use rxiu.Base.{ℕ, sym, Str, List, arith, Option-cases, inl, inr}
use rxiu.Base.Assoc.{lookup, All-erase}
use rxiu.Error.{io}
use rxiu.External.{Libp2p, Json}
use rxiu.P2p.Messages.{FileRequest, FileResponse}
use rxiu.P2p.Node.{Swarm, NodeEvent}
use rxiu.P2p.Peers.{PeerStore}
use rxiu.P2p.Loop.State.{ServiceCommand, Answer, LoopState, pair_key, chunk_key, renew_key}
use rxiu.P2p.Loop.Event.{
  handle_event, file_key, file_received, response_error, node_error, peer_discovered,
  incoming_request,
}
use rxiu.P2p.Loop.Run.Answers.{
  ForZones, ForFiles, ForFile, ForMeta, ForChunk, ForRsList, ForRsMeta, ForBlock, ForBlocks,
  ForHave, ForVersion, ForRenewChunk, Known, IsKept, answer-AllFit, fail_all-AllFit,
}

module _ {Text S World : Type 0} (Q : ServiceCommand → Type 0) (net : Swarm S) (lib : Libp2p)
    (json : Json Text PeerStore) (handle : FileRequest → World → FileResponse × World) where
  file_received-IsKept :
      (name : Str) (content : List ℕ) (hash : Str) (st : LoopState Text S World)
      → IsKept Q st
      → IsKept Q (file_received net lib json handle name (Answer.file content hash) st)
  unfolding file_received
  file_received-IsKept name content hash st k =
      elim (Option-cases (file_key name st.pending.file)) [
        | inl nothing ↦ ground (arith, k)
        | inr (key, found) ↦
            let m = st.pending in
            ground (
              arith,
              k,
              All-erase (Known Q ForFile) key m.file k.filed.file,
              answer-AllFit Q ForFile key m.file (Answer.file content hash) st.replies k.filed.file
                  (λ c h. (h.0, h.1, h.2, h.3, h.4)) k.fit,
            )
      ]

  response_error-IsKept :
      (id message : Str) (st : LoopState Text S World)
      → IsKept Q st
      → IsKept Q (response_error net lib json handle id message st)
  unfolding response_error
  response_error-IsKept id message st k =
      let m = st.pending in
      let e = Answer.failed (io message) in
      elim (Option-cases (lookup id m.rs_block_ids)) [
        | inr (hash, found) ↦ ground (
          arith,
          k,
          All-erase (Known Q ForBlock) hash m.rs_block k.filed.rs_block,
          answer-AllFit Q ForBlock hash m.rs_block e st.replies k.filed.rs_block (λ c h. tt) k.fit,
        )
        | inl no_block ↦ elim (Option-cases (lookup id m.rs_blocks)) [
          | inr (c, found) ↦ ground (
            arith,
            k,
            All-erase (Known Q ForBlocks) id m.rs_blocks k.filed.rs_blocks,
            answer-AllFit Q ForBlocks id m.rs_blocks e st.replies k.filed.rs_blocks (λ c' h. tt)
                k.fit,
          )
          | inl no_blocks ↦ elim (Option-cases (lookup id m.rs_have_ids)) [
            | inr (key, found) ↦ ground (
              arith,
              k,
              All-erase (Known Q ForHave) key m.rs_have k.filed.rs_have,
              answer-AllFit Q ForHave key m.rs_have e st.replies k.filed.rs_have (λ c h. tt) k.fit,
            )
            | inl nothing ↦ ground (arith, k)
          ]
        ]
      ]

  pub handle_event-IsKept :
      (unix : ℕ) (e : NodeEvent) (st : LoopState Text S World)
      → IsKept Q st
      → IsKept Q (handle_event net lib json handle unix e st)
  unfolding handle_event peer_discovered incoming_request node_error
  handle_event-IsKept unix (NodeEvent.peer_discovered info) st k = record {
    filed = k.filed;
    fit = k.fit;
  }
  handle_event-IsKept unix (NodeEvent.peer_expired p) st k = record { filed = k.filed; fit = k.fit }
  handle_event-IsKept unix (NodeEvent.pong_received p) st k = record {
    filed = k.filed;
    fit = k.fit;
  }
  handle_event-IsKept unix (NodeEvent.incoming_request p request channel) st k = ground (arith, k)
  handle_event-IsKept unix (NodeEvent.file_received name content hash) st k =
      file_received-IsKept name content hash st k
  handle_event-IsKept unix NodeEvent.rs_ok st k = k
  handle_event-IsKept unix (NodeEvent.peers_received from peers) st k = record {
    filed = k.filed;
    fit = k.fit;
  }
  handle_event-IsKept unix (NodeEvent.response_error id message) st k =
      response_error-IsKept id message st k
  handle_event-IsKept unix (NodeEvent.error msg) st k =
      let m = st.pending in
      let e = io msg in
      record {
        filed = record {
          zone = tt;
          file_list = tt;
          file = tt;
          file_meta = tt;
          file_chunk = tt;
          rs_list = tt;
          rs_meta = tt;
          rs_block = tt;
          rs_blocks = tt;
          rs_have = tt;
          renew_version = k.filed.renew_version;
          renew_chunk = k.filed.renew_chunk;
        };
        fit = fail_all-AllFit Q ForHave m.rs_have e _ k.filed.rs_have (
            fail_all-AllFit Q ForBlocks m.rs_blocks e _ k.filed.rs_blocks (
              fail_all-AllFit Q ForBlock m.rs_block e _ k.filed.rs_block (
                fail_all-AllFit Q ForRsMeta m.rs_meta e _ k.filed.rs_meta (
                  fail_all-AllFit Q ForRsList m.rs_list e _ k.filed.rs_list (
                    fail_all-AllFit Q ForChunk m.file_chunk e _ k.filed.file_chunk (
                      fail_all-AllFit Q ForMeta m.file_meta e _ k.filed.file_meta (
                        fail_all-AllFit Q ForFile m.file e _ k.filed.file (
                          fail_all-AllFit Q ForFiles m.file_list e _ k.filed.file_list
                            (fail_all-AllFit Q ForZones m.zone e _ k.filed.zone k.fit)))))))));
      }
  handle_event-IsKept unix (NodeEvent.zones_received p zones) st k =
      let m = st.pending in
      ground (
        arith,
        k,
        All-erase (Known Q ForZones) p m.zone k.filed.zone,
        answer-AllFit Q ForZones p m.zone (Answer.zones zones) st.replies k.filed.zone
            (λ c h. (p, h.0, h.1)) k.fit,
      )
  handle_event-IsKept unix (NodeEvent.files_received p zone files) st k =
      let m = st.pending in
      ground (
        arith,
        k,
        All-erase (Known Q ForFiles) p m.file_list k.filed.file_list,
        answer-AllFit Q ForFiles p m.file_list (Answer.files files) st.replies k.filed.file_list
            (λ c h. (p, h.0, h.1, h.2)) k.fit,
      )
  handle_event-IsKept unix (NodeEvent.file_meta_received meta) st k =
      let m = st.pending in
      ground (
        arith,
        k,
        All-erase (Known Q ForMeta) (pair_key meta.zone meta.name) m.file_meta k.filed.file_meta,
        answer-AllFit Q ForMeta (pair_key meta.zone meta.name) m.file_meta (Answer.file_meta meta)
            st.replies k.filed.file_meta (λ c h. (h.0, h.1, h.2, h.3, h.4, sym h.5)) k.fit,
      )
  handle_event-IsKept unix (NodeEvent.file_chunk_received chunk) st k =
      let m = st.pending in
      ground (
        arith,
        k,
        All-erase (Known Q ForChunk) (chunk_key chunk.zone chunk.name chunk.offset) m.file_chunk
            k.filed.file_chunk,
        answer-AllFit Q ForChunk (chunk_key chunk.zone chunk.name chunk.offset) m.file_chunk
            (Answer.file_chunk chunk) st.replies k.filed.file_chunk
            (λ c h. (h.0, h.1, h.2, h.3, h.4, h.5, h.6, sym h.7)) k.fit,
      )
  handle_event-IsKept unix (NodeEvent.rs_files_received p files) st k =
      let m = st.pending in
      ground (
        arith,
        k,
        All-erase (Known Q ForRsList) p m.rs_list k.filed.rs_list,
        answer-AllFit Q ForRsList p m.rs_list (Answer.rs_files files) st.replies k.filed.rs_list
            (λ c h. (p, h.0, h.1)) k.fit,
      )
  handle_event-IsKept unix (NodeEvent.rs_meta_received file) st k =
      let m = st.pending in
      ground (
        arith,
        k,
        All-erase (Known Q ForRsMeta) file.name m.rs_meta k.filed.rs_meta,
        answer-AllFit Q ForRsMeta file.name m.rs_meta (Answer.rs_meta file) st.replies
            k.filed.rs_meta (λ c h. h) k.fit,
      )
  handle_event-IsKept unix (NodeEvent.rs_block_received block) st k =
      let m = st.pending in
      ground (
        arith,
        k,
        All-erase (Known Q ForBlock) block.hash m.rs_block k.filed.rs_block,
        answer-AllFit Q ForBlock block.hash m.rs_block (Answer.rs_block block) st.replies
            k.filed.rs_block (λ c h. h) k.fit,
      )
  handle_event-IsKept unix (NodeEvent.rs_blocks_received id blocks) st k =
      let m = st.pending in
      ground (
        arith,
        k,
        All-erase (Known Q ForBlocks) id m.rs_blocks k.filed.rs_blocks,
        answer-AllFit Q ForBlocks id m.rs_blocks (Answer.rs_blocks blocks) st.replies
            k.filed.rs_blocks (λ c h. h) k.fit,
      )
  handle_event-IsKept unix (NodeEvent.rs_have_received p name hashes) st k =
      let m = st.pending in
      ground (
        arith,
        k,
        All-erase (Known Q ForHave) (pair_key p name) m.rs_have k.filed.rs_have,
        answer-AllFit Q ForHave (pair_key p name) m.rs_have
            (Answer.rs_has (record { name = name; hashes = hashes })) st.replies k.filed.rs_have
            (λ c h. (h.0, h.1, h.2, h.3, (p, sym h.4))) k.fit,
      )
  handle_event-IsKept unix (NodeEvent.renew_version_received p info) st k =
      let m = st.pending in
      ground (
        arith,
        k,
        All-erase (Known Q ForVersion) p m.renew_version k.filed.renew_version,
        answer-AllFit Q ForVersion p m.renew_version (Answer.version info) st.replies
            k.filed.renew_version (λ c h. (p, h.0, h.1)) k.fit,
      )
  handle_event-IsKept unix (NodeEvent.renew_chunk_received p offset content is_last) st k =
      let m = st.pending in
      ground (
        arith,
        k,
        All-erase (Known Q ForRenewChunk) (renew_key p offset) m.renew_chunk k.filed.renew_chunk,
        answer-AllFit Q ForRenewChunk (renew_key p offset) m.renew_chunk
            (Answer.binary_chunk content is_last) st.replies k.filed.renew_chunk
            (λ c h. (h.0, h.1, h.2, h.3, h.4)) k.fit,
      )
