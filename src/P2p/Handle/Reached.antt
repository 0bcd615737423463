-- ===== src/P2p/Handle/Reached.antt =====
-- p2p/service.rs: the sessions that a start and calls of the methods lead to.
use rxiu.Base.{
  max, subst, ℕ, ◌+◌, ◌*◌, ◌<◌, ◌≡◌, false, List, [], ◌∷◌, Option, none, some, All, All-imp, arith,
  Option-cases, inl, inr,
}
use rxiu.Error.{ok, Result-cases}
use rxiu.External.{Libp2p, Json}
use rxiu.P2p.Messages.{FileRequest, FileResponse}
use rxiu.P2p.Node
use rxiu.P2p.Node.{Swarm}
use rxiu.P2p.Peers.{PeerStore}
use rxiu.P2p.Loop.State.{Ticket, ServiceCommand, LoopState}
use rxiu.P2p.Loop.Timer.{dial_known}
use rxiu.P2p.Loop.Run.{Turn, command, turn}
use rxiu.P2p.Loop.Run.Answers.{IsKept, IsKept-imp}
use rxiu.P2p.Loop.Run.Kept.{Brings, turn-IsKept}
use rxiu.P2p.Handle.Start.{entered, start}
use rxiu.P2p.Handle.{Session, resp, has_resp, sent_on, await, call, tell, query}

-- A command's ticket is before `t`.
abbrev pub Older : Ticket → ServiceCommand → Type 0
Older t c = elim (resp c) [ none ↦ Unit {0} | some u ↦ u < t ]

Older-suc : (t : Ticket) (c : ServiceCommand) → Older t c → Older (t + 1) c
Older-suc t c h = elim (Option-cases (resp c)) [
  | inl nothing ↦ ground (arith, nothing)
  | inr (u, e) ↦ ground (arith, e)
]

Older-own : (t : Ticket) (c : ServiceCommand) → resp c ≡ some t → Older (t + 1) c
Older-own t c e = ground (arith, e)

pub Older-unused : (t : Ticket) (c : ServiceCommand) → Older t c → has_resp t c ≡ false
unfolding has_resp
Older-unused t c h = elim (Option-cases (resp c)) [
  | inl nothing ↦ ground (arith, nothing)
  | inr (u, e) ↦ ground (arith, e)
]

module _ {Text S World : Type 0} (net : Swarm S) (lib : Libp2p) (json : Json Text PeerStore)
    (handle : FileRequest → World → FileResponse × World) where
  -- The sessions that a start and calls lead to, in which all other callers have older tickets. The methods are `call`, `tell` and `query` of some command.
  pub data Reached : Session Text S World → Type 0 where
    started :
        (refresh tick unix : ℕ) (swarm : S) (known : Option Text) (world : World)
        (ahead : List (ℕ × Turn)) (ticket : Ticket) (s : Session Text S World)
        → start net lib json refresh tick unix swarm known world ahead ticket ≡ ok s
        → All (λ n. Brings (Older ticket) n.1) ahead
        → Reached s
    called :
        (secs : ℕ) (make : Ticket → ServiceCommand) (s : Session Text S World)
        → ((t : Ticket) → resp (make t) ≡ some t)
        → Reached s
        → Reached (call net lib json handle {A = Unit {0}} secs [] (λ a. none) make s).1
    told :
        (c : ServiceCommand) (s : Session Text S World)
        → resp c ≡ none
        → Reached s
        → Reached (tell net lib json handle c s).1
    queried :
        (make : Ticket → ServiceCommand) (s : Session Text S World)
        → ((t : Ticket) → resp (make t) ≡ some t)
        → Reached s
        → Reached (query net lib json handle {A = Unit {0}} tt (λ a. none) make s).1

  -- Every command has an older ticket than the session's next.
  abbrev pub IsFresh : Session Text S World → Type 0
  IsFresh s = IsKept (Older s.ticket) s.state × All (λ n. Brings (Older s.ticket) n.1) s.ahead

  await-IsKept :
      (Q : ServiceCommand → Type 0) (t : Ticket) (deadline now : ℕ) (ahead : List (ℕ × Turn))
      (st : LoopState Text S World)
      → All (λ n. Brings Q n.1) ahead
      → IsKept Q st
      → let after = await net lib json handle t deadline now ahead st in
        IsKept Q after.3 × All (λ n. Brings Q n.1) after.2
  unfolding await
  await-IsKept Q t deadline now [] st b k = elim (Option-cases (sent_on t st.replies)) [
    | inr (a, found) ↦ ground (arith, found, k)
    | inl nothing ↦ ground (arith, nothing, k)
  ]
  await-IsKept Q t deadline now ((at, next) ∷ ahead) st b k =
      let rest =
        await-IsKept Q t deadline (max now at) ahead (turn net lib json handle next st) b.1
          (turn-IsKept Q net lib json handle next st b.0 k) in
      elim (Option-cases (sent_on t st.replies)) [
        | inr (a, found) ↦ ground (arith, found, k, b)
        | inl nothing ↦ ground (arith, nothing, k, b, rest)
      ]

  -- A command of the session's ticket.
  asking-IsKept :
      (make : Ticket → ServiceCommand) (s : Session Text S World)
      → resp (make s.ticket) ≡ some s.ticket
      → IsFresh s
      → IsKept (Older (s.ticket + 1)) (turn net lib json handle (command (make s.ticket)) s.state)
  asking-IsKept make s own (k, b) =
      turn-IsKept (Older (s.ticket + 1)) net lib json handle (command (make s.ticket)) s.state
        (λ c e. Older-own s.ticket c (ground (arith, e, own)))
        (IsKept-imp (Older s.ticket) (Older (s.ticket + 1)) s.state (Older-suc s.ticket) k)

  coming :
      (s : Session Text S World)
      → All (λ n. Brings (Older s.ticket) n.1) s.ahead
      → All (λ n. Brings (Older (s.ticket + 1)) n.1) s.ahead
  coming s b = All-imp (λ n h c e. Older-suc s.ticket c (h c e)) s.ahead b

  entered-IsFresh :
      (refresh tick unix : ℕ) (node : Node.Node S) (known : Option Text) (world : World)
      (ahead : List (ℕ × Turn)) (ticket : Ticket)
      → All (λ n. Brings (Older ticket) n.1) ahead
      → IsFresh (entered net lib json refresh tick unix node known world ahead ticket)
  unfolding entered dial_known
  entered-IsFresh refresh tick unix node known world ahead ticket b = (
    record {
      filed = record {
        zone = tt;
        file_list = tt;
        file = tt;
        file_meta = tt;
        file_chunk = tt;
        rs_list = tt;
        rs_meta = tt;
        rs_block = tt;
        rs_blocks = tt;
        rs_have = tt;
        renew_version = tt;
        renew_chunk = tt;
      };
      fit = tt;
    },
    b,
  )

  start-IsFresh :
      (refresh tick unix : ℕ) (swarm : S) (known : Option Text) (world : World)
      (ahead : List (ℕ × Turn)) (ticket : Ticket) (s : Session Text S World)
      → start net lib json refresh tick unix swarm known world ahead ticket ≡ ok s
      → All (λ n. Brings (Older ticket) n.1) ahead
      → IsFresh s
  unfolding start
  start-IsFresh refresh tick unix swarm known world ahead ticket s e b =
      let (result, node) =
        Node.start_listening net
          (record { swarm = swarm; discovered_peers = []; pending_requests = [] }) in
      elim (Result-cases result) [
        | inr (bad, failed) ↦ absurd (ground (arith, failed, e))
        | inl (u, listens) ↦
            let same : entered net lib json refresh tick unix node known world ahead ticket ≡ s =
              ground (arith, listens, e) in
            subst IsFresh same (entered-IsFresh refresh tick unix node known world ahead ticket b)
      ]

  pub Reached-IsFresh : (s : Session Text S World) → Reached s → IsFresh s
  unfolding call tell query turn
  Reached-IsFresh s (started refresh tick unix swarm known world ahead ticket s' e b) =
      start-IsFresh refresh tick unix swarm known world ahead ticket s e b
  Reached-IsFresh s (called secs make before own r) =
      let fresh = Reached-IsFresh before r in
      let t = before.ticket in
      let (k, b) =
        await-IsKept (Older (t + 1)) t (before.now + secs * 1000) before.now before.ahead
          (turn net lib json handle (command (make t)) before.state) (coming before fresh.1)
          (asking-IsKept make before (own t) fresh) in
      (k, b)
  Reached-IsFresh s (told c before silent r) =
      let fresh = Reached-IsFresh before r in
      (
        turn-IsKept (Older before.ticket) net lib json handle (command c) before.state
            (λ d e. ground (arith, silent, e)) fresh.0,
        fresh.1,
      )
  Reached-IsFresh s (queried make before own r) =
      let fresh = Reached-IsFresh before r in
      (asking-IsKept make before (own before.ticket) fresh, coming before fresh.1)
