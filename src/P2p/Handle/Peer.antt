-- ===== src/P2p/Handle/Peer.antt =====
-- p2p/service.rs on both sides: a method of `P2PService` against a peer that answers by `handle_incoming_request`.
use rxiu.Base.{ℕ, ◌≡◌, subst, Str, Bytes, codes, List, ◌++◌, none, some, inl, inr}
use rxiu.Error.{Result, ok, err, io, to_string, Result-cases}
use rxiu.External.{PeerId, Libp2p, Json, Sha256}
use rxiu.Rs.Types.{RsMetadata}
use rxiu.Rs.Metadata.{list_files, get_file}
use rxiu.Rs.Blocks.{read_block, file_block_hashes}
use rxiu.Storage.Local.{FileMetadata}
use rxiu.Renew.Version.{VersionInfo}
use rxiu.P2p.Messages.{FileRequest, FileResponse}
use rxiu.P2p.Node.{Swarm}
use rxiu.P2p.Peers.{PeerStore}
use rxiu.P2p.Service.{Shared}
use rxiu.P2p.Handle.{Session}
use rxiu.P2p.Handle.Methods
use rxiu.P2p.Handle.Responds.{Responds}
use rxiu.P2p.Handle.Served.{
  rs_list-ok, rs_list-error, rs_get_meta-ok, rs_get_meta-error, rs_get_block-ok, rs_get_block-error,
  rs_have-ok, rs_have-error,
}
use rxiu.P2p.Service.Replies.{
  get_file-name, response_of, listed, not_listed, described, not_found, not_described, block_read,
  block_missing, had, not_had,
}

module _ {File : Type 0} (sha : Sha256) (zone_json : Json File (List FileMetadata))
    (rs_json : Json File RsMetadata) (short : ℕ → ℕ) (version : Result VersionInfo)
    (exe : Result Bytes) where
  module _ {Text S World : Type 0} (net : Swarm S) (lib : Libp2p) (json : Json Text PeerStore)
      (handle : FileRequest → World → FileResponse × World) where
    -- The response to the request is the peer's, and comes within the time limit.
    abbrev pub Serves : PeerId → FileRequest → ℕ → Shared File → Session Text S World → Type 0
    Serves p request secs u s =
        Responds net lib json handle p request
          (response_of sha zone_json rs_json short version exe request u) secs s

    answers_as :
        (p : PeerId) (request : FileRequest) (secs : ℕ) (u : Shared File) (s : Session Text S World)
        (response : FileResponse)
        → Serves p request secs u s
        → response_of sha zone_json rs_json short version exe request u ≡ response
        → Responds net lib json handle p request response secs s
    answers_as p request secs u s response r same =
        subst (λ x. Responds net lib json handle p request x secs s) same r

    rs_list-served :
        (p : PeerId) (u : Shared File) (s : Session Text S World)
        → Serves p FileRequest.rs_list 10 u s
        → (Methods.rs_list net lib json handle p s).0 ≡ elim (list_files rs_json u.rs) [
          | ok files ↦ ok files
          | err e ↦ err (io (codes "RS list timed out"))
        ]
    rs_list-served p u s r = elim (Result-cases (list_files rs_json u.rs)) [
      | inr (e, failed) ↦ rw failed (
          rs_list-error net lib json handle p _ s (
            answers_as p _ 10 u s _ r
              (not_listed sha zone_json rs_json short version exe e u failed)))
      | inl (files, done) ↦ rw done (
          rs_list-ok net lib json handle p files s (
            answers_as p _ 10 u s _ r
              (listed sha zone_json rs_json short version exe files u done)))
    ]

    pub rs_get_meta-served :
        (p : PeerId) (name : Str) (u : Shared File) (s : Session Text S World)
        → Serves p (FileRequest.rs_get_meta name) 10 u s
        → (Methods.rs_get_meta net lib json handle p name s).0 ≡ elim (get_file rs_json name u.rs) [
          | ok (some file) ↦ ok file
          | _ ↦ err (io (codes "RS meta timed out"))
        ]
    rs_get_meta-served p name u s r = elim (Result-cases (get_file rs_json name u.rs)) [
      | inr (e, failed) ↦ rw failed (
          rs_get_meta-error net lib json handle p name _ s (
            answers_as p _ 10 u s _ r
              (not_described sha zone_json rs_json short version exe name e u failed)))
      | inl (none, done) ↦ rw done (
          rs_get_meta-error net lib json handle p name _ s (
            answers_as p _ 10 u s _ r
              (not_found sha zone_json rs_json short version exe name u done)))
      | inl (some file, done) ↦ rw done (
          rs_get_meta-ok net lib json handle p name file s
            (get_file-name rs_json name u.rs file done)
            (answers_as p _ 10 u s _ r
              (described sha zone_json rs_json short version exe name file u done)))
    ]

    pub rs_get_block-served :
        (p : PeerId) (hash : Str) (u : Shared File) (s : Session Text S World)
        → Serves p (FileRequest.rs_get_block hash) 120 u s
        → (Methods.rs_get_block net lib json handle p hash s).0 ≡ elim (read_block hash u.rs) [
          | ok content ↦ ok (record { hash = hash; content = content })
          | err e ↦ err (io (codes "Failed to read RS block: " ++ to_string e))
        ]
    rs_get_block-served p hash u s r = elim (Result-cases (read_block hash u.rs)) [
      | inr (e, failed) ↦ rw failed (
          rs_get_block-error net lib json handle p hash _ s (
            answers_as p _ 120 u s _ r
              (block_missing sha zone_json rs_json short version exe hash e u failed)))
      | inl (content, done) ↦ rw done (
          rs_get_block-ok net lib json handle p (record { hash = hash; content = content }) s
            (answers_as p _ 120 u s _ r
              (block_read sha zone_json rs_json short version exe hash content u done)))
    ]

    rs_have-served :
        (p : PeerId) (name : Str) (u : Shared File) (s : Session Text S World)
        → Serves p (FileRequest.rs_have name) 10 u s
        → (Methods.rs_have net lib json handle p name s).0
          ≡ elim (file_block_hashes rs_json name u.rs) [
            | ok hashes ↦ ok (record { name = name; hashes = hashes })
            | err e ↦ err (io (codes "Failed to read RS block availability: " ++ to_string e))
          ]
    rs_have-served p name u s r = elim (Result-cases (file_block_hashes rs_json name u.rs)) [
      | inr (e, failed) ↦ rw failed (
          rs_have-error net lib json handle p name _ s (
            answers_as p _ 10 u s _ r
              (not_had sha zone_json rs_json short version exe name e u failed)))
      | inl (hashes, done) ↦ rw done (
          rs_have-ok net lib json handle p (record { name = name; hashes = hashes }) s
            (answers_as p _ 10 u s _ r
              (had sha zone_json rs_json short version exe name hashes u done)))
    ]

    -- Let the peer's response wake the loop within the time limit. Until the limit has passed, let only heartbeats, reconnections, and the
    -- peers' coming, going, requests, pongs and answers to `GetPeers` and announcements wake it besides: no other command, and
    -- no other response. Let the command's ticket and the request's id be new. Then of the peer's shared files `rs_list` gives the list
    -- that the peer reads, `rs_get_meta` the entry of the name, `rs_get_block` the content of the block and `rs_have` the blocks
    -- that it has. Where the peer answers with an error, `rs_get_block` and `rs_have` give its message, but `rs_list` and
    -- `rs_get_meta`, also for a file that the peer does not know, wait for the whole time limit and say that it has passed.
    pub rs-served :
        (p : PeerId) (name hash : Str) (u : Shared File)
        (listing asking fetching having : Session Text S World)
        → Serves p FileRequest.rs_list 10 u listing
        → Serves p (FileRequest.rs_get_meta name) 10 u asking
        → Serves p (FileRequest.rs_get_block hash) 120 u fetching
        → Serves p (FileRequest.rs_have name) 10 u having
        → ((Methods.rs_list net lib json handle p listing).0 ≡ elim (list_files rs_json u.rs) [
          | ok files ↦ ok files
          | err e ↦ err (io (codes "RS list timed out"))
        ])
          × ((Methods.rs_get_meta net lib json handle p name asking).0
              ≡ elim (get_file rs_json name u.rs) [
                | ok (some file) ↦ ok file
                | _ ↦ err (io (codes "RS meta timed out"))
              ])
          × ((Methods.rs_get_block net lib json handle p hash fetching).0
              ≡ elim (read_block hash u.rs) [
                | ok content ↦ ok (record { hash = hash; content = content })
                | err e ↦ err (io (codes "Failed to read RS block: " ++ to_string e))
              ])
          × ((Methods.rs_have net lib json handle p name having).0
              ≡ elim (file_block_hashes rs_json name u.rs) [
                | ok hashes ↦ ok (record { name = name; hashes = hashes })
                | err e ↦ err (io (codes "Failed to read RS block availability: " ++ to_string e))
              ])
    rs-served p name hash u listing asking fetching having l a f h = (
      rs_list-served p u listing l,
      rs_get_meta-served p name u asking a,
      rs_get_block-served p hash u fetching f,
      rs_have-served p name u having h,
    )
