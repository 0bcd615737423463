-- ===== src/P2p/Handle/Asked.antt =====
-- p2p/service.rs: what the methods of `P2PService` give is what was asked for.
use rxiu.Base.{
  max, ◌+◌, ◌*◌, All-imp, ℕ, ◌≡◌, refl, subst, Str, true, List, [], ◌∷◌, Option, none, some, All,
  arith, Bool-cases, Option-cases, inl, inr,
}
use rxiu.Error.{ok, err, Result}
use rxiu.External.{PeerId, Libp2p, Json}
use rxiu.Rs.Types.{RsFileEntry}
use rxiu.P2p.Messages.{FileMeta, FileChunk, RsBlock, FileRequest, FileResponse}
use rxiu.P2p.Node.{Swarm}
use rxiu.P2p.Peers.{PeerStore}
use rxiu.P2p.Loop.State.{Ticket, ServiceCommand, Answer, LoopState, pair_key, chunk_key}
use rxiu.P2p.Loop.Run.{Turn, command, turn}
use rxiu.P2p.Loop.Run.Answers.{Fits, AllFit, IsKept, IsKept-imp}
use rxiu.P2p.Loop.Run.Kept.{Brings, turn-IsKept}
use rxiu.P2p.Handle.{
  Session, Outcome, sent, dropped, elapsed, has_resp, sent_on, failure, await, conclude, call,
}
use rxiu.P2p.Handle.Reached.{Older, Older-unused, IsFresh, Reached, Reached-IsFresh}
use rxiu.P2p.Handle.Methods

-- The only command with a ticket.
abbrev pub Only : Ticket → ServiceCommand → ServiceCommand → Type 0
Only t own c = has_resp t c ≡ true → c ≡ own

sent_on-Fits :
    (t : Ticket) (own : ServiceCommand) (replies : List (ServiceCommand × Answer)) {a : Answer}
    → AllFit (Only t own) replies
    → sent_on t replies ≡ some a
    → Fits own a
unfolding sent_on
sent_on-Fits t own [] fit e = cc
sent_on-Fits t own ((c, b) ∷ replies) {a} fit e = elim (Bool-cases (has_resp t c)) [
  | inl hit ↦
      let own_c : c ≡ own = fit.0.1 hit in
      let same : b ≡ a = ground (arith, hit, e) in
      subst (λ d. Fits d a) own_c (subst (Fits c) same fit.0.0)
  | inr miss ↦ sent_on-Fits t own replies {a = a} fit.1 (ground (arith, miss, e))
]

conclude-ok {ℓ} :
    {A : Type ℓ} (late : Str) (pick : Answer → Option A) (o : Outcome) {x : A}
    → conclude late pick o ≡ ok x
    → (a : Answer) × (o ≡ sent a) × (pick a ≡ some x)
unfolding conclude
conclude-ok late pick dropped h = cc
conclude-ok late pick elapsed h = cc
conclude-ok late pick (sent a) {x} h = elim (Option-cases (failure a)) [
  | inr (e, found) ↦ absurd (ground (arith, found, h))
  | inl fine ↦ elim (Option-cases (pick a)) [
    | inl nothing ↦ absurd (ground (arith, fine, nothing, h))
    | inr (y, picked) ↦ (a, refl, ground (arith, fine, picked, h))
  ]
]

meta-name :
    (p : PeerId) (name : Str) (t : Ticket) (a : Answer) {file : RsFileEntry}
    → elim a [ Answer.rs_meta x ↦ some x | _ ↦ none ] ≡ some file
    → Fits (ServiceCommand.rs_get_meta p name t) a
    → file.name ≡ name
meta-name p name t (Answer.rs_meta x) same fits = ground (arith, same, fits)
meta-name p name t _ same fits = cc same

block-hash :
    (p : PeerId) (hash : Str) (t : Ticket) (a : Answer) {block : RsBlock}
    → elim a [ Answer.rs_block x ↦ some x | _ ↦ none ] ≡ some block
    → Fits (ServiceCommand.rs_get_block p hash t) a
    → block.hash ≡ hash
block-hash p hash t (Answer.rs_block x) same fits = ground (arith, same, fits)
block-hash p hash t _ same fits = cc same

meta-key :
    (p : PeerId) (zone name : Str) (t : Ticket) (a : Answer) {meta : FileMeta}
    → elim a [ Answer.file_meta x ↦ some x | _ ↦ none ] ≡ some meta
    → Fits (ServiceCommand.get_file_meta p zone name t) a
    → pair_key meta.zone meta.name ≡ pair_key zone name
meta-key p zone name t (Answer.file_meta x) same fits = ground (arith, same, fits)
meta-key p zone name t _ same fits = cc same

chunk-key :
    (p : PeerId) (zone name : Str) (offset size : ℕ) (t : Ticket) (a : Answer) {chunk : FileChunk}
    → elim a [ Answer.file_chunk x ↦ some x | _ ↦ none ] ≡ some chunk
    → Fits (ServiceCommand.get_file_chunk p zone name offset size t) a
    → chunk_key chunk.zone chunk.name chunk.offset ≡ chunk_key zone name offset
chunk-key p zone name offset size t (Answer.file_chunk x) same fits = ground (arith, same, fits)
chunk-key p zone name offset size t _ same fits = cc same

-- A result is an error or is something of `P`.
abbrev pub Gives : {A : Type 0} → (A → Type 0) → Result A → Type 0
Gives P r = elim r [ ok a ↦ P a | err e ↦ Unit {0} ]

gives : {A : Type 0} (P : A → Type 0) (r : Result A) → ((a : A) → r ≡ ok a → P a) → Gives P r
gives P (ok a) h = h a refl
gives P (err e) h = tt

module _ {Text S World : Type 0} (net : Swarm S) (lib : Libp2p) (json : Json Text PeerStore)
    (handle : FileRequest → World → FileResponse × World) where
  await-Fits :
      (t : Ticket) (own : ServiceCommand) (deadline now : ℕ) (ahead : List (ℕ × Turn))
      (st : LoopState Text S World) {a : Answer}
      → All (λ n. Brings (Only t own) n.1) ahead
      → IsKept (Only t own) st
      → (await net lib json handle t deadline now ahead st).0 ≡ sent a
      → Fits own a
  unfolding await
  await-Fits t own deadline now [] st {a} b k e = elim (Option-cases (sent_on t st.replies)) [
    | inl nothing ↦ absurd (ground (arith, nothing, e))
    | inr (a', found) ↦ sent_on-Fits t own st.replies {a = a} k.fit (ground (arith, found, e))
  ]
  await-Fits t own deadline now ((at, next) ∷ ahead) st {a} b k e =
      elim (Option-cases (sent_on t st.replies)) [
        | inr (a', found) ↦ sent_on-Fits t own st.replies {a = a} k.fit (ground (arith, found, e))
        | inl nothing ↦
            await-Fits t own deadline (max now at) ahead (turn net lib json handle next st) {a = a}
              b.1 (turn-IsKept (Only t own) net lib json handle next st b.0 k)
              (ground (arith, nothing, e))
      ]

  call-Fits {ℓ} :
      {A : Type ℓ} (secs : ℕ) (late : Str) (pick : Answer → Option A)
      (make : Ticket → ServiceCommand) (s : Session Text S World) {x : A}
      → IsFresh net lib json handle s
      → (call net lib json handle secs late pick make s).0 ≡ ok x
      → (a : Answer) × (pick a ≡ some x) × Fits (make s.ticket) a
  unfolding call
  call-Fits secs late pick make s {x} (kept, coming) e =
      let own = make s.ticket in
      let weaker : (c : ServiceCommand) → Older s.ticket c → Only s.ticket own c =
        λ c older used. absurd (ground (arith, Older-unused s.ticket c older, used)) in
      let k = IsKept-imp (Older s.ticket) (Only s.ticket own) s.state weaker kept in
      let st = turn net lib json handle (command own) s.state in
      let k' =
        turn-IsKept (Only s.ticket own) net lib json handle (command own) s.state
          (λ c same h. let own_c : c ≡ own = cc same in own_c) k in
      let b : All (λ n. Brings (Only s.ticket own) n.1) s.ahead =
        All-imp (λ n h c same. weaker c (h c same)) s.ahead coming in
      let (a, settled, picked) =
        conclude-ok late pick
          (await net lib json handle s.ticket (s.now + secs * 1000) s.now s.ahead st).0 {x = x} e in
      (
        a,
        picked,
        await-Fits s.ticket own (s.now + secs * 1000) s.now s.ahead st {a = a} b k' settled,
      )

  -- In every session that a start and calls lead to, whatever the peers send and whatever else the loop does: a description that `rs_get_meta` gives
  -- has the name asked for, a block of `rs_get_block` the hash, and a description of `get_file_meta` and a chunk of
  -- `get_file_chunk` the key of the request.
  pub asked :
      (p : PeerId) (zone name hash : Str) (offset size : ℕ) (s : Session Text S World)
      → Reached net lib json handle s
      → Gives
          (λ (file : RsFileEntry). file.name ≡ name)
          (Methods.rs_get_meta net lib json handle p name s).0
        × Gives
            (λ (block : RsBlock). block.hash ≡ hash)
            (Methods.rs_get_block net lib json handle p hash s).0
        × Gives
            (λ (meta : FileMeta). pair_key meta.zone meta.name ≡ pair_key zone name)
            (Methods.get_file_meta net lib json handle p zone name s).0
        × Gives
            (λ (chunk : FileChunk).
              chunk_key chunk.zone chunk.name chunk.offset ≡ chunk_key zone name offset)
            (Methods.get_file_chunk net lib json handle p zone name offset size s).0
  unfolding Methods.rs_get_meta Methods.rs_get_block Methods.get_file_meta Methods.get_file_chunk
  asked p zone name hash offset size s r =
      let t = s.ticket in
      let u = Reached-IsFresh net lib json handle s r in
      (
        gives _ _ (λ file e.
            let (a, picked, fits) =
              call-Fits 10 _ _ (ServiceCommand.rs_get_meta p name) s {x = file} u e in
            meta-name p name t a {file = file} picked fits),
        gives _ _ (λ block e.
            let (a, picked, fits) =
              call-Fits 120 _ _ (ServiceCommand.rs_get_block p hash) s {x = block} u e in
            block-hash p hash t a {block = block} picked fits),
        gives _ _ (λ meta e.
            let (a, picked, fits) =
              call-Fits 10 _ _ (ServiceCommand.get_file_meta p zone name) s {x = meta} u e in
            meta-key p zone name t a {meta = meta} picked fits),
        gives _ _ (λ chunk e.
            let (a, picked, fits) =
              call-Fits 60 _ _ (ServiceCommand.get_file_chunk p zone name offset size) s {x = chunk}
                u e in
            chunk-key p zone name offset size t a {chunk = chunk} picked fits),
      )
