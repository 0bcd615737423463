-- ===== src/P2p/Service/Answers.antt =====
-- p2p/service.rs: what requests from peers can change.
use rxiu.Base.{
  ℕ, ◌≡◌, refl, sym, subst, ◌∙◌, Bytes, List, [], ◌∷◌, none, some, arith, inl, inr, All,
}
use rxiu.Error.{Result, Result-cases}
use rxiu.External.{Json, Sha256}
use rxiu.Rs.Types.{RsMetadata, HasPlainBlocks}
use rxiu.Rs.Metadata.{get_file, list_files}
use rxiu.Rs.Blocks.{apply_remote_meta, remove_file, read_block, file_block_hashes}
use rxiu.Rs.History.{RsCall, applies, removes, run, step}
use rxiu.Rs.History.Addressed.{IsAddressed, IsVerified, run-IsAddressed}
use rxiu.Rs.History.Names.{catalog}
use rxiu.Storage.Local.{FileMetadata}
use rxiu.Renew.Version.{VersionInfo}
use rxiu.P2p.Messages.{FileRequest}
use rxiu.P2p.Service.{Shared, handle_incoming_request, read_blocks}

-- The call of the block store that a request comes to.
unfoldable pub store_calls : FileRequest → List RsCall
store_calls (FileRequest.rs_announce file) = applies file ∷ []
store_calls (FileRequest.rs_delete name) = removes name ∷ []
store_calls FileRequest.ping = []
store_calls FileRequest.list_zones = []
store_calls (FileRequest.list_files zone) = []
store_calls (FileRequest.get_file zone name) = []
store_calls (FileRequest.get_file_meta zone name) = []
store_calls (FileRequest.get_file_chunk zone name offset size) = []
store_calls FileRequest.rs_list = []
store_calls (FileRequest.rs_get_meta name) = []
store_calls (FileRequest.rs_get_block hash) = []
store_calls (FileRequest.rs_get_blocks hashes) = []
store_calls (FileRequest.rs_have name) = []
store_calls FileRequest.get_peers = []
store_calls FileRequest.renew_get_version = []
store_calls (FileRequest.renew_get_binary_chunk offset len) = []

-- An entry that is announced lists its blocks by plain names.
abbrev pub IsPlainRequest : FileRequest → Type 0
IsPlainRequest request = elim request [
  | FileRequest.rs_announce file ↦ HasPlainBlocks file
  | _ ↦ Unit
]

module _ {Text : Type 0} (sha : Sha256) (json : Json Text (List FileMetadata))
    (rs_json : Json Text RsMetadata) (short : ℕ → ℕ) (version : Result VersionInfo)
    (exe : Result Bytes) where
  -- The state after a sequence of requests.
  unfoldable pub serve : List FileRequest → Shared Text → Shared Text
  serve [] s = s
  serve (request ∷ requests) s =
      serve requests (handle_incoming_request sha json rs_json short version exe request s).1

  -- What a request leaves: the zones as they are, and the store as its calls leave it.
  abbrev Leaves : FileRequest → Shared Text → Shared Text → Type 0
  Leaves request s t =
      (t.manager ≡ s.manager)
      × (t.home ≡ s.home)
      × (t.rs ≡ run sha rs_json s.rs (store_calls request))

  handle_incoming_request-Leaves :
      (request : FileRequest) (s : Shared Text)
      → Leaves request s (handle_incoming_request sha json rs_json short version exe request s).1
  unfolding handle_incoming_request store_calls run step
  handle_incoming_request-Leaves (FileRequest.rs_announce file) s =
      elim (Result-cases (apply_remote_meta rs_json file s.rs).0) [
        | inl (_, done) ↦ ground (arith, done)
        | inr (e, failed) ↦ ground (arith, failed)
      ]
  handle_incoming_request-Leaves (FileRequest.rs_delete name) s =
      elim (Result-cases (remove_file rs_json name s.rs).0) [
        | inl (_, done) ↦ ground (arith, done)
        | inr (e, failed) ↦ ground (arith, failed)
      ]
  handle_incoming_request-Leaves FileRequest.ping s = (refl, refl, refl)
  handle_incoming_request-Leaves FileRequest.list_zones s = (refl, refl, refl)
  handle_incoming_request-Leaves (FileRequest.list_files zone) s = (refl, refl, refl)
  handle_incoming_request-Leaves (FileRequest.get_file zone name) s = (refl, refl, refl)
  handle_incoming_request-Leaves (FileRequest.get_file_meta zone name) s = (refl, refl, refl)
  handle_incoming_request-Leaves (FileRequest.get_file_chunk zone name offset size) s =
      (refl, refl, refl)
  handle_incoming_request-Leaves FileRequest.rs_list s =
      elim (Result-cases (list_files rs_json s.rs)) [
        | inl (_, e) ↦ ground (arith, e)
        | inr (bad, e) ↦ ground (arith, e)
      ]
  handle_incoming_request-Leaves (FileRequest.rs_get_meta name) s =
      elim (Result-cases (get_file rs_json name s.rs)) [
        | inl (none, e) ↦ ground (arith, e)
        | inl (some f, e) ↦ ground (arith, e)
        | inr (bad, e) ↦ ground (arith, e)
      ]
  handle_incoming_request-Leaves (FileRequest.rs_get_block hash) s =
      elim (Result-cases (read_block hash s.rs)) [
        | inl (_, e) ↦ ground (arith, e)
        | inr (bad, e) ↦ ground (arith, e)
      ]
  handle_incoming_request-Leaves (FileRequest.rs_get_blocks hashes) s =
      elim (Result-cases (read_blocks hashes s.rs)) [
        | inl (_, e) ↦ ground (arith, e)
        | inr (bad, e) ↦ ground (arith, e)
      ]
  handle_incoming_request-Leaves (FileRequest.rs_have name) s =
      elim (Result-cases (file_block_hashes rs_json name s.rs)) [
        | inl (_, e) ↦ ground (arith, e)
        | inr (bad, e) ↦ ground (arith, e)
      ]
  handle_incoming_request-Leaves FileRequest.get_peers s = (refl, refl, refl)
  handle_incoming_request-Leaves FileRequest.renew_get_version s = ground arith
  handle_incoming_request-Leaves (FileRequest.renew_get_binary_chunk offset len) s = ground arith

  -- A request never comes to `write_block`.
  store_calls-IsVerified :
      (request : FileRequest) → All (IsVerified sha rs_json) (store_calls request)
  unfolding store_calls
  store_calls-IsVerified (FileRequest.rs_announce file) = (tt, tt)
  store_calls-IsVerified (FileRequest.rs_delete name) = (tt, tt)
  store_calls-IsVerified FileRequest.ping = tt
  store_calls-IsVerified FileRequest.list_zones = tt
  store_calls-IsVerified (FileRequest.list_files zone) = tt
  store_calls-IsVerified (FileRequest.get_file zone name) = tt
  store_calls-IsVerified (FileRequest.get_file_meta zone name) = tt
  store_calls-IsVerified (FileRequest.get_file_chunk zone name offset size) = tt
  store_calls-IsVerified FileRequest.rs_list = tt
  store_calls-IsVerified (FileRequest.rs_get_meta name) = tt
  store_calls-IsVerified (FileRequest.rs_get_block hash) = tt
  store_calls-IsVerified (FileRequest.rs_get_blocks hashes) = tt
  store_calls-IsVerified (FileRequest.rs_have name) = tt
  store_calls-IsVerified FileRequest.get_peers = tt
  store_calls-IsVerified FileRequest.renew_get_version = tt
  store_calls-IsVerified (FileRequest.renew_get_binary_chunk offset len) = tt

  serve-rs :
      (requests : List FileRequest) (s : Shared Text)
      → IsAddressed sha rs_json s.rs
      → let t = serve requests s in
        (t.manager ≡ s.manager) × (t.home ≡ s.home) × IsAddressed sha rs_json t.rs
  unfolding serve
  serve-rs [] s h = (refl, refl, h)
  serve-rs (request ∷ requests) s h =
      let t = (handle_incoming_request sha json rs_json short version exe request s).1 in
      let (manager, home, rs) = handle_incoming_request-Leaves request s in
      let h' : IsAddressed sha rs_json t.rs = subst (IsAddressed sha rs_json) (sym rs) (
        run-IsAddressed sha rs_json s.rs (store_calls request) (store_calls-IsVerified request)
          h) in
      let (manager', home', kept) = serve-rs requests t h' in
      (manager' ∙ manager, home' ∙ home, kept)

  -- Let the metadata and what peers announce have blocks of plain names only. After any sequence of requests from peers,
  -- the zones are as before, and where every file of the blocks directory was named by the hash of its content, it
  -- still is. (With other names, zones can change: the paths of blocks lead there.)
  pub serve-IsAddressed :
      (requests : List FileRequest) (s : Shared Text)
      → All HasPlainBlocks (catalog rs_json s.rs)
      → All IsPlainRequest requests
      → IsAddressed sha rs_json s.rs
      → let t = serve requests s in
        (t.manager ≡ s.manager) × (t.home ≡ s.home) × IsAddressed sha rs_json t.rs
  serve-IsAddressed requests s plain plain' h = serve-rs requests s h
