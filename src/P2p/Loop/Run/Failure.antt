-- ===== src/P2p/Loop/Run/Failure.antt =====
-- p2p/service.rs: commands that are not answered, or with what was sent for another.
use rxiu.Base.{
  ℕ, ◌≡◌, refl, Str, str_eq, str_eq_refl, List, [], ◌∷◌, none, some, arith, Any, Bool-cases, inl,
  inr,
}
use rxiu.Base.Assoc.{lookup, insert, lookup-insert, lookup-erase}
use rxiu.Error.{AppError, io}
use rxiu.External.{PeerId, Libp2p, Json}
use rxiu.P2p.Messages.{FileMeta, FileRequest, FileResponse}
use rxiu.P2p.Node.{Swarm, NodeEvent}
use rxiu.P2p.Peers.{PeerStore}
use rxiu.P2p.Loop.State.{
  Ticket, ServiceCommand, Answer, LoopState, pair_key, renew_key, answer, fail_all, Senders,
}
use rxiu.P2p.Loop.Command.{handle_command}
use rxiu.P2p.Loop.Event.{handle_event, response_error, node_error}
use rxiu.P2p.Loop.Run.{command, event, run}

-- Those that `fail_all` answers, among others.
Any-fail_all :
    (P : ServiceCommand × Answer → Type 0) (senders : Senders) (e : AppError)
    (replies : List (ServiceCommand × Answer))
    → Any P replies
    → Any P (fail_all senders e replies)
Any-fail_all P [] e replies h = h
Any-fail_all P (s ∷ senders) e replies h = inr (Any-fail_all P senders e replies h)

fail_all-insert :
    (p : Str) (c : ServiceCommand) (senders : Senders) (e : AppError)
    (replies : List (ServiceCommand × Answer))
    → Any (λ r. r ≡ (c, Answer.failed e)) (fail_all (insert p c senders) e replies)
unfolding insert
fail_all-insert p c [] e replies = inl refl
fail_all-insert p c ((k, d) ∷ senders) e replies = elim (Bool-cases (str_eq k p)) [
  | inl hit ↦ rw hit (inl refl)
  | inr other ↦ rw other (inr (fail_all-insert p c senders e replies))
]

module _ {Text S World : Type 0} (net : Swarm S) (lib : Libp2p) (json : Json Text PeerStore)
    (handle : FileRequest → World → FileResponse × World) where
  -- Two peers are asked for the description of a file, the second before the first has answered. The first
  -- description that comes, from whichever peer, is given to the second command, and the first command waits no more and is not answered.
  pub overtaken :
      (p q : PeerId) (zone name : Str) (t u : Ticket) (unix : ℕ) (meta : FileMeta)
      (st : LoopState Text S World)
      → meta.zone ≡ zone
      → meta.name ≡ name
      → let first = ServiceCommand.get_file_meta p zone name t in
        let second = ServiceCommand.get_file_meta q zone name u in
        let st' =
          run net lib json handle
            (command first ∷ command second ∷ event unix (NodeEvent.file_meta_received meta) ∷ [])
            st in
        (st'.replies ≡ (second, Answer.file_meta meta) ∷ st.replies)
        × (lookup (pair_key zone name) st'.pending.file_meta ≡ none)
  unfolding run handle_command handle_event answer
  overtaken p q zone name t u unix meta st z n =
      let key = pair_key zone name in
      let same : pair_key meta.zone meta.name ≡ key = ground (arith, z, n) in
      let one = insert key (ServiceCommand.get_file_meta p zone name t) st.pending.file_meta in
      ground (
        arith,
        same,
        lookup-insert key key (ServiceCommand.get_file_meta q zone name u) one,
        lookup-erase key key (insert key (ServiceCommand.get_file_meta q zone name u) one),
        str_eq_refl key,
      )

  failed_zone :
      (p : PeerId) (zones : ServiceCommand) (message : Str) (st : LoopState Text S World)
      → let m = st.pending in
        let st' = record st { pending = record m { zone = insert p zones m.zone } } in
        Any
          (λ r. r ≡ (zones, Answer.failed (io message)))
          (node_error net lib json handle message st').replies
  unfolding node_error
  failed_zone p zones message st =
      let m = st.pending in
      let e = io message in
      let P = λ (r : ServiceCommand × Answer). r ≡ (zones, Answer.failed e) in
      let more =
        λ (senders : Senders) (replies : List (ServiceCommand × Answer)) (h : Any P replies).
          Any-fail_all P senders e replies h in
      more m.rs_have _ (
        more m.rs_blocks _ (
          more m.rs_block _ (
            more m.rs_meta _ (
              more m.rs_list _ (
                more m.file_chunk _ (
                  more m.file_meta _ (
                    more m.file _
                      (more m.file_list _ (fail_all-insert p zones m.zone e st.replies)))))))))

  -- A peer is asked for its zones and answers with an error, under an id that is none of a request for blocks or for availability:
  -- the command is not answered, and waits as before. An error of the node, which a failed request of any peer
  -- is, fails it.
  error_stranded :
      (p : PeerId) (t : Ticket) (id message : Str) (unix : ℕ) (st : LoopState Text S World)
      → lookup id st.pending.rs_block_ids ≡ none
      → lookup id st.pending.rs_blocks ≡ none
      → lookup id st.pending.rs_have_ids ≡ none
      → let zones = ServiceCommand.list_remote_zones p t in
        let after =
          λ (e : NodeEvent). run net lib json handle (command zones ∷ event unix e ∷ []) st in
        let answered = after (NodeEvent.response_error id message) in
        let failed = after (NodeEvent.error message) in
        (answered.replies ≡ st.replies)
        × (lookup p answered.pending.zone ≡ some zones)
        × Any (λ r. r ≡ (zones, Answer.failed (io message))) failed.replies
        × (failed.pending.zone ≡ [])
  unfolding run handle_command handle_event response_error node_error
  error_stranded p t id message unix st a b c =
      let zones = ServiceCommand.list_remote_zones p t in
      let stays = lookup-insert p p zones st.pending.zone in
      (
        ground (arith, a, b, c),
        ground (arith, a, b, c, stays, str_eq_refl p),
        failed_zone p zones message st,
        refl,
      )

  -- A peer is asked for its version, or for a part of its binary: an error of the node leaves the command waiting and unanswered.
  error_skips_renew :
      (p : PeerId) (offset len : ℕ) (t : Ticket) (message : Str) (unix : ℕ)
      (st : LoopState Text S World)
      → let version = ServiceCommand.renew_get_version p t in
        let part = ServiceCommand.renew_get_binary_chunk p offset len t in
        let after = λ (c : ServiceCommand).
          (run net lib json handle
            (command c ∷ event unix (NodeEvent.error message) ∷ [])
            st).pending in
        (lookup p (after version).renew_version ≡ some version)
        × (lookup (renew_key p offset) (after part).renew_chunk ≡ some part)
  unfolding run handle_command handle_event node_error
  error_skips_renew p offset len t message unix st =
      let key = renew_key p offset in
      let version = ServiceCommand.renew_get_version p t in
      let part = ServiceCommand.renew_get_binary_chunk p offset len t in
      (
        ground (arith, lookup-insert p p version st.pending.renew_version, str_eq_refl p),
        ground (arith, lookup-insert key key part st.pending.renew_chunk, str_eq_refl key),
      )
