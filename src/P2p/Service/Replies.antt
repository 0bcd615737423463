-- ===== src/P2p/Service/Replies.antt =====
-- p2p/service.rs: what a request for the shared files is answered with.
use rxiu.Base.{
  ℕ, ◌≡◌, Str, str_eq, eq_of_str_eq, Bytes, codes, Bool, true, List, [], ◌∷◌, ◌++◌, none, some,
  arith, find, inl, inr,
}
use rxiu.Error.{AppError, Result, ok, err, to_string, Result-cases}
use rxiu.External.{Json, Sha256}
use rxiu.Rs.Types.{RsFileEntry, RsMetadata, RsDisk}
use rxiu.Rs.Metadata.{list_files, get_file, load_metadata}
use rxiu.Rs.Blocks.{read_block, file_block_hashes}
use rxiu.Storage.Local.{FileMetadata}
use rxiu.Renew.Version.{VersionInfo}
use rxiu.P2p.Messages.{FileRequest, FileResponse}
use rxiu.P2p.Service.{Shared, handle_incoming_request}

find-holds {ℓ} : {A : Type ℓ} (p : A → Bool) (xs : List A) {x : A} → find p xs ≡ some x → p x ≡ true
find-holds p [] h = cc
find-holds p (y ∷ ys) {x} h = ground (arith, h, find-holds p ys {x = x})

pub get_file-name :
    {Text : Type 0} (json : Json Text RsMetadata) (name : Str) (d : RsDisk Text)
    (file : RsFileEntry)
    → get_file json name d ≡ ok (some file)
    → file.name ≡ name
unfolding get_file
get_file-name json name d file h = elim (Result-cases (load_metadata json d)) [
  | inr (e, bad) ↦ absurd (ground (arith, bad, h))
  | inl (m, loaded) ↦
      eq_of_str_eq _ _
        (find-holds (λ f. str_eq f.name name) m.files {x = file} (ground (arith, loaded, h)))
]

module _ {File : Type 0} (sha : Sha256) (zone_json : Json File (List FileMetadata))
    (rs_json : Json File RsMetadata) (short : ℕ → ℕ) (version : Result VersionInfo)
    (exe : Result Bytes) where
  -- What the peer answers.
  abbrev pub response_of : FileRequest → Shared File → FileResponse
  response_of request u =
      (handle_incoming_request sha zone_json rs_json short version exe request u).0

  pub listed :
      (files : List RsFileEntry) (u : Shared File)
      → list_files rs_json u.rs ≡ ok files
      → response_of FileRequest.rs_list u ≡ FileResponse.rs_files files
  unfolding handle_incoming_request
  listed files u h = ground (arith, h)

  pub not_listed :
      (e : AppError) (u : Shared File)
      → list_files rs_json u.rs ≡ err e
      → response_of FileRequest.rs_list u
        ≡ FileResponse.error (codes "Failed to list RS files: " ++ to_string e)
  unfolding handle_incoming_request
  not_listed e u h = ground (arith, h)

  pub described :
      (name : Str) (file : RsFileEntry) (u : Shared File)
      → get_file rs_json name u.rs ≡ ok (some file)
      → response_of (FileRequest.rs_get_meta name) u ≡ FileResponse.rs_meta file
  unfolding handle_incoming_request
  described name file u h = ground (arith, h)

  pub not_found :
      (name : Str) (u : Shared File)
      → get_file rs_json name u.rs ≡ ok none
      → response_of (FileRequest.rs_get_meta name) u
        ≡ FileResponse.error (codes "RS file '" ++ name ++ codes "' not found")
  unfolding handle_incoming_request
  not_found name u h = ground (arith, h)

  pub not_described :
      (name : Str) (e : AppError) (u : Shared File)
      → get_file rs_json name u.rs ≡ err e
      → response_of (FileRequest.rs_get_meta name) u
        ≡ FileResponse.error (codes "Failed to get RS meta: " ++ to_string e)
  unfolding handle_incoming_request
  not_described name e u h = ground (arith, h)

  pub block_read :
      (hash : Str) (content : Bytes) (u : Shared File)
      → read_block hash u.rs ≡ ok content
      → response_of (FileRequest.rs_get_block hash) u
        ≡ FileResponse.rs_block (record { hash = hash; content = content })
  unfolding handle_incoming_request
  block_read hash content u h = ground (arith, h)

  pub block_missing :
      (hash : Str) (e : AppError) (u : Shared File)
      → read_block hash u.rs ≡ err e
      → response_of (FileRequest.rs_get_block hash) u
        ≡ FileResponse.error (codes "Failed to read RS block: " ++ to_string e)
  unfolding handle_incoming_request
  block_missing hash e u h = ground (arith, h)

  pub had :
      (name : Str) (hashes : List Str) (u : Shared File)
      → file_block_hashes rs_json name u.rs ≡ ok hashes
      → response_of (FileRequest.rs_have name) u
        ≡ FileResponse.rs_has (record { name = name; hashes = hashes })
  unfolding handle_incoming_request
  had name hashes u h = ground (arith, h)

  pub not_had :
      (name : Str) (e : AppError) (u : Shared File)
      → file_block_hashes rs_json name u.rs ≡ err e
      → response_of (FileRequest.rs_have name) u
        ≡ FileResponse.error (codes "Failed to read RS block availability: " ++ to_string e)
  unfolding handle_incoming_request
  not_had name e u h = ground (arith, h)
