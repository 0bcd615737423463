-- ===== src/P2p/Loop/Run/Answers.antt =====
-- p2p/service.rs: an answer fits the command that it is given to.
use rxiu.Base.{ℕ, ◌≡◌, Str, List, [], ◌∷◌, All, All-imp, Option-cases, inl, inr}
use rxiu.Base.Assoc.{lookup, All-lookup}
use rxiu.Error.{AppError}
use rxiu.External.{PeerId}
use rxiu.P2p.Loop.State.{
  Ticket, ServiceCommand, Answer, Senders, Pending, LoopState, pair_key, chunk_key, renew_key,
  answer, fail_all,
}

-- The commands that wait in each map, and the key that each waits under.
abbrev pub ForZones : Str × ServiceCommand → Type 0
ForZones e = (t : Ticket) × (e.1 ≡ ServiceCommand.list_remote_zones e.0 t)

abbrev pub ForFiles : Str × ServiceCommand → Type 0
ForFiles e = (zone : Str) × (t : Ticket) × (e.1 ≡ ServiceCommand.list_remote_files e.0 zone t)

abbrev pub ForFile : Str × ServiceCommand → Type 0
ForFile e =
    (p : PeerId) × (zone : Str) × (name : Str) × (t : Ticket) × (e.1
      ≡ ServiceCommand.fetch_file p zone name t)
    × (e.0 ≡ pair_key zone name)

abbrev pub ForMeta : Str × ServiceCommand → Type 0
ForMeta e =
    (p : PeerId) × (zone : Str) × (name : Str) × (t : Ticket) × (e.1
      ≡ ServiceCommand.get_file_meta p zone name t)
    × (e.0 ≡ pair_key zone name)

abbrev pub ForChunk : Str × ServiceCommand → Type 0
ForChunk e =
    (p : PeerId) × (zone : Str) × (name : Str) × (offset : ℕ) × (size : ℕ) × (t : Ticket) × (e.1
      ≡ ServiceCommand.get_file_chunk p zone name offset size t)
    × (e.0 ≡ chunk_key zone name offset)

abbrev pub ForRsList : Str × ServiceCommand → Type 0
ForRsList e = (t : Ticket) × (e.1 ≡ ServiceCommand.rs_list e.0 t)

abbrev pub ForRsMeta : Str × ServiceCommand → Type 0
ForRsMeta e = (p : PeerId) × (t : Ticket) × (e.1 ≡ ServiceCommand.rs_get_meta p e.0 t)

abbrev pub ForBlock : Str × ServiceCommand → Type 0
ForBlock e = (p : PeerId) × (t : Ticket) × (e.1 ≡ ServiceCommand.rs_get_block p e.0 t)

abbrev pub ForBlocks : Str × ServiceCommand → Type 0
ForBlocks e =
    (p : PeerId) × (hashes : List Str) × (t : Ticket) × (e.1
      ≡ ServiceCommand.rs_get_blocks p hashes t)

abbrev pub ForHave : Str × ServiceCommand → Type 0
ForHave e =
    (p : PeerId) × (name : Str) × (t : Ticket) × (e.1 ≡ ServiceCommand.rs_have p name t)
    × (e.0 ≡ pair_key p name)

abbrev pub ForVersion : Str × ServiceCommand → Type 0
ForVersion e = (t : Ticket) × (e.1 ≡ ServiceCommand.renew_get_version e.0 t)

abbrev pub ForRenewChunk : Str × ServiceCommand → Type 0
ForRenewChunk e =
    (p : PeerId) × (offset : ℕ) × (len : ℕ) × (t : Ticket) × (e.1
      ≡ ServiceCommand.renew_get_binary_chunk p offset len t)
    × (e.0 ≡ renew_key p offset)

-- A waiting command of a map that is one of `Q`.
abbrev pub Known :
    (ServiceCommand → Type 0) → (Str × ServiceCommand → Type 0) → Str × ServiceCommand → Type 0
Known Q P e = P e × Q e.1

-- Every command waits in the map of its kind, under the key that its answer is matched with, and is one of `Q`.
pub record IsFiled (Q : ServiceCommand → Type 0) (m : Pending) : Type 0 where
  pub zone : All (Known Q ForZones) m.zone
  pub file_list : All (Known Q ForFiles) m.file_list
  pub file : All (Known Q ForFile) m.file
  pub file_meta : All (Known Q ForMeta) m.file_meta
  pub file_chunk : All (Known Q ForChunk) m.file_chunk
  pub rs_list : All (Known Q ForRsList) m.rs_list
  pub rs_meta : All (Known Q ForRsMeta) m.rs_meta
  pub rs_block : All (Known Q ForBlock) m.rs_block
  pub rs_blocks : All (Known Q ForBlocks) m.rs_blocks
  pub rs_have : All (Known Q ForHave) m.rs_have
  pub renew_version : All (Known Q ForVersion) m.renew_version
  pub renew_chunk : All (Known Q ForRenewChunk) m.renew_chunk

-- The answer is of the kind that the command asks for, and of the thing that it asks for as far as
-- the answer names it; `failed` fits every command.
abbrev pub Fits : ServiceCommand → Answer → Type 0
Fits c a = elim a [
  | Answer.peers _ ↦ (t : Ticket) × (c ≡ ServiceCommand.get_peers t)
  | Answer.peer_count _ ↦ (t : Ticket) × (c ≡ ServiceCommand.get_peer_count t)
  | Answer.refreshed _ ↦ (t : Ticket) × (c ≡ ServiceCommand.refresh_peers t)
  | Answer.zones _ ↦ (p : PeerId) × (t : Ticket) × (c ≡ ServiceCommand.list_remote_zones p t)
  | Answer.files _ ↦
      (p : PeerId) × (zone : Str) × (t : Ticket) × (c ≡ ServiceCommand.list_remote_files p zone t)
  | Answer.file _ _ ↦
      (p : PeerId) × (zone : Str) × (name : Str) × (t : Ticket) × (c
        ≡ ServiceCommand.fetch_file p zone name t)
  | Answer.file_meta meta ↦
      (p : PeerId) × (zone : Str) × (name : Str) × (t : Ticket) × (c
        ≡ ServiceCommand.get_file_meta p zone name t)
      × (pair_key zone name ≡ pair_key meta.zone meta.name)
  | Answer.file_chunk chunk ↦
      (p : PeerId) × (zone : Str) × (name : Str) × (offset : ℕ) × (size : ℕ) × (t : Ticket) × (c
        ≡ ServiceCommand.get_file_chunk p zone name offset size t)
      × (chunk_key zone name offset ≡ chunk_key chunk.zone chunk.name chunk.offset)
  | Answer.rs_files _ ↦ (p : PeerId) × (t : Ticket) × (c ≡ ServiceCommand.rs_list p t)
  | Answer.rs_meta file ↦
      (p : PeerId) × (t : Ticket) × (c ≡ ServiceCommand.rs_get_meta p file.name t)
  | Answer.rs_block block ↦
      (p : PeerId) × (t : Ticket) × (c ≡ ServiceCommand.rs_get_block p block.hash t)
  | Answer.rs_blocks _ ↦
      (p : PeerId) × (hashes : List Str) × (t : Ticket) × (c
        ≡ ServiceCommand.rs_get_blocks p hashes t)
  | Answer.rs_has have ↦
      (p : PeerId) × (name : Str) × (t : Ticket) × (c ≡ ServiceCommand.rs_have p name t)
      × ((q : PeerId) × (pair_key p name ≡ pair_key q have.name))
  | Answer.version _ ↦ (p : PeerId) × (t : Ticket) × (c ≡ ServiceCommand.renew_get_version p t)
  | Answer.binary_chunk _ _ ↦
      (p : PeerId) × (offset : ℕ) × (len : ℕ) × (t : Ticket) × (c
        ≡ ServiceCommand.renew_get_binary_chunk p offset len t)
  | Answer.failed _ ↦ Unit {0}
]

abbrev pub AllFit : (ServiceCommand → Type 0) → List (ServiceCommand × Answer) → Type 0
AllFit Q = All (λ r. Fits r.0 r.1 × Q r.0)

-- An answer under a key whose waiting command it fits.
pub answer-AllFit :
    (Q : ServiceCommand → Type 0) (P : Str × ServiceCommand → Type 0) (key : Str)
    (senders : Senders) (a : Answer) (replies : List (ServiceCommand × Answer))
    → All (Known Q P) senders
    → ((c : ServiceCommand) → P (key, c) → Fits c a)
    → AllFit Q replies
    → AllFit Q (answer key senders a replies)
unfolding answer
answer-AllFit Q P key senders a replies filed fits all = elim (Option-cases (lookup key senders)) [
  | inl nothing ↦ rw (nothing, answer) all
  | inr (c, found) ↦
      let h = All-lookup (Known Q P) key senders filed found in
      rw (found, answer) ((fits c h.0, h.1), all)
]

pub fail_all-AllFit :
    (Q : ServiceCommand → Type 0) (P : Str × ServiceCommand → Type 0) (senders : Senders)
    (e : AppError) (replies : List (ServiceCommand × Answer))
    → All (Known Q P) senders
    → AllFit Q replies
    → AllFit Q (fail_all senders e replies)
fail_all-AllFit Q P [] e replies filed all = all
fail_all-AllFit Q P (s ∷ senders) e replies filed all =
    ((tt, filed.0.1), fail_all-AllFit Q P senders e replies filed.1 all)

-- What every turn keeps.
pub record IsKept (Q : ServiceCommand → Type 0) {Text S World : Type 0}
    (st : LoopState Text S World) : Type 0 where
  pub filed : IsFiled Q st.pending
  pub fit : AllFit Q st.replies

-- A weaker `Q`.
pub IsKept-imp :
    (Q R : ServiceCommand → Type 0) {Text S World : Type 0} (st : LoopState Text S World)
    → ((c : ServiceCommand) → Q c → R c)
    → IsKept Q st
    → IsKept R st
IsKept-imp Q R st weaker k =
    let m = st.pending in
    let known =
      λ (P : Str × ServiceCommand → Type 0) (senders : Senders) (h : All (Known Q P) senders).
        let h' : All (Known R P) senders = All-imp (λ e g. (g.0, weaker e.1 g.1)) senders h in h' in
    record {
      filed = record {
        zone = known ForZones m.zone k.filed.zone;
        file_list = known ForFiles m.file_list k.filed.file_list;
        file = known ForFile m.file k.filed.file;
        file_meta = known ForMeta m.file_meta k.filed.file_meta;
        file_chunk = known ForChunk m.file_chunk k.filed.file_chunk;
        rs_list = known ForRsList m.rs_list k.filed.rs_list;
        rs_meta = known ForRsMeta m.rs_meta k.filed.rs_meta;
        rs_block = known ForBlock m.rs_block k.filed.rs_block;
        rs_blocks = known ForBlocks m.rs_blocks k.filed.rs_blocks;
        rs_have = known ForHave m.rs_have k.filed.rs_have;
        renew_version = known ForVersion m.renew_version k.filed.renew_version;
        renew_chunk = known ForRenewChunk m.renew_chunk k.filed.renew_chunk;
      };
      fit = All-imp (λ r g. (g.0, weaker r.0 g.1)) st.replies k.fit;
    }
