-- ===== src/P2p/Handle.antt =====
-- p2p/service.rs: the methods of `P2PService`, which send a command to the loop and wait for what is sent on its `resp`. The loop
-- goes on as long as there is a handle, so that sending succeeds.
pub mod Methods
pub mod Start
pub mod Reached
pub mod Asked
pub mod Responds
pub mod Served
pub mod Peer
pub mod Samples
mod Examples
use rxiu.Base.{
  max, ℕ, ◌+◌, ◌*◌, Str, Bytes, codes, Bool, true, false, not, List, [], ◌∷◌, Option, none, some,
  if◌then◌else◌, any, find, leb, ◌==◌, ◌||◌,
}
use rxiu.Error.{AppError, Result, ok, err, io}
use rxiu.External.{Libp2p, Json}
use rxiu.P2p.Messages.{FileRequest, FileResponse}
use rxiu.P2p.Node.{PeerInfo, Swarm}
use rxiu.P2p.Peers.{PeerStore}
use rxiu.P2p.Loop.State.{Ticket, ServiceCommand, Answer, Senders, Pending, LoopState}
use rxiu.P2p.Loop.Run.{Turn, command, turn}

-- The `resp` of a command.
unfoldable pub resp : ServiceCommand → Option Ticket
resp (ServiceCommand.get_peers t) = some t
resp (ServiceCommand.get_peer_count t) = some t
resp (ServiceCommand.list_remote_zones p t) = some t
resp (ServiceCommand.list_remote_files p zone t) = some t
resp (ServiceCommand.fetch_file p zone name t) = some t
resp (ServiceCommand.get_file_meta p zone name t) = some t
resp (ServiceCommand.get_file_chunk p zone name offset size t) = some t
resp (ServiceCommand.rs_list p t) = some t
resp (ServiceCommand.rs_announce p file) = none
resp (ServiceCommand.rs_get_meta p name t) = some t
resp (ServiceCommand.rs_get_block p hash t) = some t
resp (ServiceCommand.rs_get_blocks p hashes t) = some t
resp (ServiceCommand.rs_have p name t) = some t
resp (ServiceCommand.rs_delete p name) = none
resp (ServiceCommand.refresh_peers t) = some t
resp (ServiceCommand.renew_get_version p t) = some t
resp (ServiceCommand.renew_get_binary_chunk p offset len t) = some t

unfoldable pub has_resp : Ticket → ServiceCommand → Bool
unfolding resp
has_resp t c = elim (resp c) [ none ↦ false | some u ↦ u == t ]

-- Whether a map holds the sender. A command that is taken out, or replaced by another under its key, drops it.
abbrev pub holds : Ticket → Senders → Bool
holds t = any (λ s. has_resp t s.1)

unfoldable pub waits : Ticket → Pending → Bool
unfolding has_resp
waits t m =
    holds t m.zone
    || holds t m.file_list
    || holds t m.file
    || holds t m.file_meta
    || holds t m.file_chunk
    || holds t m.rs_list
    || holds t m.rs_meta
    || holds t m.rs_block
    || holds t m.rs_blocks
    || holds t m.rs_have
    || holds t m.renew_version
    || holds t m.renew_chunk

unfoldable pub sent_on : Ticket → List (ServiceCommand × Answer) → Option Answer
unfolding has_resp
sent_on t replies = elim (find (λ r. has_resp t r.0) replies) [ none ↦ none | some r ↦ some r.1 ]

-- What a `timeout` on the receiver gives.
pub data Outcome : Type 0 where
  sent : Answer → Outcome
  dropped elapsed : Outcome

-- The running service. `ahead` is what its loop will be woken by, each with its time in milliseconds; a command is taken from
-- the channel as soon as it is sent. `ticket` is the next command's.
pub record Session (Text S World : Type 0) : Type 0 where
  pub state : LoopState Text S World
  pub ahead : List (ℕ × Turn)
  pub now : ℕ
  pub ticket : Ticket

abbrev pub closed : Str
closed = codes "Response channel closed"

-- The `Err` that an answer is.
unfoldable pub failure : Answer → Option AppError
failure a = elim a [ Answer.failed e ↦ some e | _ ↦ none ]

-- What a method makes of the outcome, whose message for the time limit is `late`. An answer of another kind cannot be sent on
-- the channel.
unfoldable pub conclude {ℓ} : {A : Type ℓ} → Str → (Answer → Option A) → Outcome → Result A
unfolding failure
conclude late pick (sent a) = elim (failure a) [
  | some e ↦ err e
  | none ↦ elim (pick a) [ some x ↦ ok x | none ↦ err (io closed) ]
]
conclude late pick dropped = err (io closed)
conclude late pick elapsed = err (io late)

module _ {Text S World : Type 0} (net : Swarm S) (lib : Libp2p) (json : Json Text PeerStore)
    (handle : FileRequest → World → FileResponse × World) where
  -- The turns of the loop up to the one that settles the command, within the time limit.
  unfoldable pub await :
      Ticket
      → ℕ
      → ℕ
      → List (ℕ × Turn)
      → LoopState Text S World
      → Outcome × ℕ × List (ℕ × Turn) × LoopState Text S World
  unfolding sent_on waits
  await t deadline now [] st = elim (sent_on t st.replies) [
    | some a ↦ (sent a, now, [], st)
    | none ↦ if waits t st.pending then (elapsed, deadline, [], st) else (dropped, now, [], st)
  ]
  await t deadline now ((at, next) ∷ ahead) st =
      let rest = await t deadline (max now at) ahead (turn net lib json handle next st) in
      elim (sent_on t st.replies) [
        | some a ↦ (sent a, now, (at, next) ∷ ahead, st)
        | none ↦
            if not (waits t st.pending)
            then (dropped, now, (at, next) ∷ ahead, st)
            else if leb at deadline
            then rest
            else (elapsed, deadline, (at, next) ∷ ahead, st)
      ]

  -- A method that sends a command with a `resp` and waits for so many seconds.
  unfoldable pub call {ℓ} :
      {A : Type ℓ}
      → ℕ
      → Str
      → (Answer → Option A)
      → (Ticket → ServiceCommand)
      → Session Text S World
      → Result A × Session Text S World
  unfolding await conclude
  call secs late pick make s =
      let st = turn net lib json handle (command (make s.ticket)) s.state in
      let (outcome, now, ahead, st') = await s.ticket (s.now + secs * 1000) s.now s.ahead st in
      (
        conclude late pick outcome,
        record { state = st'; ahead = ahead; now = now; ticket = s.ticket + 1 },
      )

  -- A method that sends a command without a `resp`.
  unfoldable pub tell :
      ServiceCommand → Session Text S World → Result (Unit {0}) × Session Text S World
  tell c s = (ok tt, record s { state = turn net lib json handle (command c) s.state })

  -- A method without a time limit, whose command the loop answers in its turn.
  unfoldable pub query {ℓ} :
      {A : Type ℓ}
      → A
      → (Answer → Option A)
      → (Ticket → ServiceCommand)
      → Session Text S World
      → A × Session Text S World
  unfolding sent_on
  query default pick make s =
      let st = turn net lib json handle (command (make s.ticket)) s.state in
      (
        elim (sent_on s.ticket st.replies) [
          | none ↦ default
          | some a ↦ elim (pick a) [ none ↦ default | some x ↦ x ]
        ],
        record s { state = st; ticket = s.ticket + 1 },
      )

  unfoldable pub get_peers : Session Text S World → List PeerInfo × Session Text S World
  unfolding query
  get_peers =
      query [] (λ a. elim a [ Answer.peers peers ↦ some peers | _ ↦ none ]) ServiceCommand.get_peers

  unfoldable pub peer_count : Session Text S World → ℕ × Session Text S World
  unfolding query
  peer_count =
      query 0 (λ a. elim a [ Answer.peer_count n ↦ some n | _ ↦ none ])
        ServiceCommand.get_peer_count
