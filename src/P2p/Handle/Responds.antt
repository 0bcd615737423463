-- ===== src/P2p/Handle/Responds.antt =====
-- p2p/service.rs: what a method of `P2PService` makes of a response that comes within its time limit.
use rxiu.Base.{
  max, List, All, ◌<◌, ℕ, ◌+◌, ◌*◌, ◌≤◌, ◌≡◌, Str, true, [], ◌∷◌, ◌++◌, ◌∙◌, Option, none, some,
  arith, ap, refl, inl, inr, ◌⊎◌,
}
use rxiu.Base.Assoc.{lookup, insert}
use rxiu.Error.{err, io}
use rxiu.External.{PeerId, Libp2p, Json}
use rxiu.P2p.Messages.{FileRequest, FileResponse}
use rxiu.P2p.Node
use rxiu.P2p.Node.{Swarm, NodeEvent, RequestId, response_event}
use rxiu.P2p.Peers.{PeerStore}
use rxiu.P2p.Loop.State.{Ticket, ServiceCommand, Answer, Senders, Pending, LoopState}
use rxiu.P2p.Loop.Event.{handle_event, response_error}
use rxiu.P2p.Loop.Run.{Turn, command, event, turn}
use rxiu.P2p.Loop.Run.Background.{
  IsBackground, SameWaiting, background-SameWaiting, handle_event-agree,
}
use rxiu.P2p.Handle.{
  elapsed, Outcome, Session, sent, has_resp, holds, waits, sent_on, await, conclude, call,
}

pub holds-insert :
    (t : Ticket) (key : Str) (c : ServiceCommand) (senders : Senders)
    → has_resp t c ≡ true
    → holds t (insert key c senders) ≡ true
unfolding insert
holds-insert t key c [] h = ground (arith, h)
holds-insert t key c ((k, d) ∷ senders) h = ground (arith, h, holds-insert t key c senders h)

module _ {Text S World : Type 0} (net : Swarm S) (lib : Libp2p) (json : Json Text PeerStore)
    (handle : FileRequest → World → FileResponse × World) where
  -- The state with the command in it.
  abbrev pub asking : (Ticket → ServiceCommand) → Session Text S World → LoopState Text S World
  asking make s = turn net lib json handle (command (make s.ticket)) s.state

  await-sent :
      (t : Ticket) (deadline now : ℕ) (ahead : List (ℕ × Turn)) (st : LoopState Text S World)
      (a : Answer)
      → sent_on t st.replies ≡ some a
      → (await net lib json handle t deadline now ahead st).0 ≡ sent a
  unfolding await
  await-sent t deadline now [] st a found = ground (arith, found)
  await-sent t deadline now ((at, next) ∷ ahead) st a found = ground (arith, found)

  -- A turn that cannot disturb a wait: it comes after the deadline, or it settles nothing.
  abbrev pub IsHarmless : ℕ → ℕ × Turn → Type 0
  IsHarmless deadline n = (deadline < n.0) ⊎ IsBackground n.1

  -- A turn within the deadline that settles nothing.
  abbrev pub IsBefore : ℕ → ℕ × Turn → Type 0
  IsBefore deadline n = (n.0 ≤ deadline) × IsBackground n.1

  await-elapsed :
      (t : Ticket) (deadline now : ℕ) (ahead : List (ℕ × Turn)) (st : LoopState Text S World)
      → All (IsHarmless deadline) ahead
      → sent_on t st.replies ≡ none
      → waits t st.pending ≡ true
      → (await net lib json handle t deadline now ahead st).0 ≡ elapsed
  unfolding await
  await-elapsed t deadline now [] st after unsent waiting = ground (arith, unsent, waiting)
  await-elapsed t deadline now ((at, next) ∷ ahead) st (inl late, after) unsent waiting =
      ground (arith, unsent, waiting, late)
  await-elapsed t deadline now ((at, next) ∷ ahead) st (inr idle, after) unsent waiting =
      let same = background-SameWaiting net lib json handle next st idle in
      let rest =
        await-elapsed t deadline (max now at) ahead (turn net lib json handle next st) after
          (rw (same.1) unsent) (rw (same.0) waiting) in
      ground (arith, unsent, waiting, rest)

  -- What background turns within the deadline leave of a wait.
  await-before :
      (t : Ticket) (deadline now : ℕ) (before rest : List (ℕ × Turn)) (st : LoopState Text S World)
      (o : Outcome)
      → All (IsBefore deadline) before
      → sent_on t st.replies ≡ none
      → waits t st.pending ≡ true
      → ((now' : ℕ) (st' : LoopState Text S World)
          → SameWaiting st st'
          → (await net lib json handle t deadline now' rest st').0 ≡ o)
      → (await net lib json handle t deadline now (before ++ rest) st).0 ≡ o
  unfolding await
  await-before t deadline now [] rest st o idle unsent waiting ends = ends now st (refl, refl)
  await-before t deadline now ((at, next) ∷ before) rest st o (idle, more) unsent waiting ends =
      let st' = turn net lib json handle next st in
      let same = background-SameWaiting net lib json handle next st idle.1 in
      let there =
        await-before t deadline (max now at) before rest st' o more (rw (same.1) unsent)
          (rw (same.0) waiting)
          (λ now'' st'' same'. ends now'' st'' (same'.0 ∙ same.0, same'.1 ∙ same.1)) in
      ground (arith, unsent, waiting, there, idle.0)

  -- An event within the time limit, after background turns, settles the command.
  call-settled {ℓ} :
      {A : Type ℓ} (secs : ℕ) (late : Str) (pick : Answer → Option A)
      (make : Ticket → ServiceCommand) (s : Session Text S World) (before : List (ℕ × Turn))
      (at unix : ℕ) (next : NodeEvent) (later : List (ℕ × Turn)) (a : Answer)
      → s.ahead ≡ before ++ (at, event unix next) ∷ later
      → All (IsBefore (s.now + secs * 1000)) before
      → at ≤ s.now + secs * 1000
      → sent_on s.ticket (asking make s).replies ≡ none
      → waits s.ticket (asking make s).pending ≡ true
      → sent_on s.ticket (turn net lib json handle (event unix next) (asking make s)).replies
        ≡ some a
      → (call net lib json handle secs late pick make s).0 ≡ conclude late pick (sent a)
  unfolding call await turn
  call-settled secs late pick make s before at unix next later a ahead idle soon unsent waiting
        settled =
      let deadline = s.now + secs * 1000 in
      let whole =
        await-before s.ticket deadline s.now before ((at, event unix next) ∷ later) (asking make s)
          (sent a) idle unsent waiting
          (λ now' st' same.
            let agree = handle_event-agree net lib json handle unix next (asking make s) st' same in
            let rest =
              await-sent s.ticket deadline (max now' at) later
                (turn net lib json handle (event unix next) st') a (rw (agree.1) settled) in
            ground (arith, same, unsent, waiting, rest, soon)) in
      ground (arith, ahead, whole)

  -- It leaves the command waiting, and so does what follows until the time limit has passed.
  call-stranded {ℓ} :
      {A : Type ℓ} (secs : ℕ) (late : Str) (pick : Answer → Option A)
      (make : Ticket → ServiceCommand) (s : Session Text S World) (before : List (ℕ × Turn))
      (at unix : ℕ) (next : NodeEvent) (later : List (ℕ × Turn))
      → s.ahead ≡ before ++ (at, event unix next) ∷ later
      → All (IsBefore (s.now + secs * 1000)) before
      → at ≤ s.now + secs * 1000
      → All (IsHarmless (s.now + secs * 1000)) later
      → sent_on s.ticket (asking make s).replies ≡ none
      → waits s.ticket (asking make s).pending ≡ true
      → SameWaiting (asking make s) (turn net lib json handle (event unix next) (asking make s))
      → (call net lib json handle secs late pick make s).0 ≡ err (io late)
  unfolding call await conclude turn
  call-stranded secs late pick make s before at unix next later ahead idle soon after unsent waiting
        stays =
      let deadline = s.now + secs * 1000 in
      let whole =
        await-before s.ticket deadline s.now before ((at, event unix next) ∷ later) (asking make s)
          elapsed idle unsent waiting
          (λ now' st' same.
            let agree = handle_event-agree net lib json handle unix next (asking make s) st' same in
            let rest =
              await-elapsed s.ticket deadline (max now' at) later
                (turn net lib json handle (event unix next) st') after
                (rw (agree.1 ∙ stays.1) unsent) (rw (agree.0 ∙ stays.0) waiting) in
            ground (arith, same, unsent, waiting, rest, soon)) in
      ground (arith, ahead, whole)

  -- The request's id, which is new: no request for blocks or for availability that is under way has it.
  abbrev pub IsNew : RequestId → Pending → Type 0
  IsNew id m =
      (lookup id m.rs_block_ids ≡ none)
      × (lookup id m.rs_blocks ≡ none)
      × (lookup id m.rs_have_ids ≡ none)

  -- The peer's response to the request wakes the loop within the time limit, after turns that have nothing to do with the waiting
  -- commands (heartbeats, reconnections, peers that come and go, their requests and pongs), and only such turns follow until the
  -- time limit has passed. No answer has the session's next ticket.
  pub record Responds (p : PeerId) (request : FileRequest) (response : FileResponse) (secs : ℕ)
      (s : Session Text S World) : Type 0 where
    pub before : List (ℕ × Turn)
    pub at : ℕ
    pub unix : ℕ
    pub later : List (ℕ × Turn)
    pub ahead :
        s.ahead
        ≡ before
          ++ (
            at,
            event unix
                (response_event net p (Node.send_request net p request s.state.node).0 response),
          )
            ∷ later
    pub idle : All (IsBefore (s.now + secs * 1000)) before
    pub soon : at ≤ s.now + secs * 1000
    pub quiet : All (IsHarmless (s.now + secs * 1000)) later
    pub unsent : sent_on s.ticket s.state.replies ≡ none
    pub new : IsNew (Node.send_request net p request s.state.node).0 s.state.pending

  -- A response that gives the command an answer.
  pub served {ℓ} :
      {A : Type ℓ} (secs : ℕ) (late : Str) (pick : Answer → Option A)
      (make : Ticket → ServiceCommand) (p : PeerId) (request : FileRequest)
      (response : FileResponse) (s : Session Text S World) (a : Answer)
      (r : Responds p request response secs s)
      → has_resp s.ticket (make s.ticket) ≡ true
      → (asking make s).replies ≡ s.state.replies
      → waits s.ticket (asking make s).pending ≡ true
      → (turn net lib json handle
          (event r.unix
            (response_event net p (Node.send_request net p request s.state.node).0 response))
          (asking make s)).replies
        ≡ (make s.ticket, a) ∷ s.state.replies
      → (call net lib json handle secs late pick make s).0 ≡ conclude late pick (sent a)
  unfolding sent_on
  served secs late pick make p request response s a r own same waiting settled =
      let id = (Node.send_request net p request s.state.node).0 in
      call-settled secs late pick make s r.before r.at r.unix (response_event net p id response)
        r.later a r.ahead r.idle r.soon (ground (arith, same, r.unsent)) waiting
        (ground (arith, settled, own))

  -- An error, to a command other than one for blocks or for availability.
  pub stranded {ℓ} :
      {A : Type ℓ} (secs : ℕ) (late : Str) (pick : Answer → Option A)
      (make : Ticket → ServiceCommand) (p : PeerId) (request : FileRequest) (message : Str)
      (s : Session Text S World)
      → Responds p request (FileResponse.error message) secs s
      → IsNew (Node.send_request net p request s.state.node).0 (asking make s).pending
      → (asking make s).replies ≡ s.state.replies
      → waits s.ticket (asking make s).pending ≡ true
      → (call net lib json handle secs late pick make s).0 ≡ err (io late)
  unfolding turn response_event handle_event response_error
  stranded secs late pick make p request message s r (a, b, c) same waiting =
      let id = (Node.send_request net p request s.state.node).0 in
      let st = asking make s in
      let unsent : sent_on s.ticket st.replies ≡ none = ground (arith, same, r.unsent) in
      let stays : response_error net lib json handle id message st ≡ st = ground (arith, a, b, c) in
      call-stranded secs late pick make s r.before r.at r.unix (NodeEvent.response_error id message)
        r.later r.ahead r.idle r.soon r.quiet unsent waiting
        (ap (λ x. x.pending) stays, ap (λ x. x.replies) stays)
