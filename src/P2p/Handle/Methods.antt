-- ===== src/P2p/Handle/Methods.antt =====
-- p2p/service.rs: the methods of `P2PService` that have a time limit or do not wait.
use rxiu.Base.{ℕ, Str, Bytes, codes, Bool, List, none, some}
use rxiu.Error.{Result}
use rxiu.External.{PeerId, Libp2p, Json}
use rxiu.Rs.Types.{RsFileEntry}
use rxiu.Storage.Local.{FileMetadata}
use rxiu.Renew.Version.{VersionInfo}
use rxiu.P2p.Messages.{FileMeta, FileChunk, RsBlock, RsHave, FileRequest, FileResponse}
use rxiu.P2p.Node.{Swarm}
use rxiu.P2p.Peers.{PeerStore}
use rxiu.P2p.Loop.State.{ServiceCommand, Answer}
use rxiu.P2p.Handle.{Session, call, tell}

module _ {Text S World : Type 0} (net : Swarm S) (lib : Libp2p) (json : Json Text PeerStore)
    (handle : FileRequest → World → FileResponse × World) where
  abbrev pub Method {ℓ} : Type ℓ → Type ℓ
  Method A = Session Text S World → Result A × Session Text S World

  unfoldable pub list_remote_zones : PeerId → Method (List Str)
  unfolding call
  list_remote_zones peer_id =
      call net lib json handle 30 (codes "Request timed out (peer may be offline)")
        (λ a. elim a [ Answer.zones zones ↦ some zones | _ ↦ none ])
        (ServiceCommand.list_remote_zones peer_id)

  unfoldable pub list_remote_files : PeerId → Str → Method (List FileMetadata)
  unfolding call
  list_remote_files peer_id zone =
      call net lib json handle 30 (codes "Request timed out (peer may be offline)")
        (λ a. elim a [ Answer.files files ↦ some files | _ ↦ none ])
        (ServiceCommand.list_remote_files peer_id zone)

  unfoldable pub fetch_file : PeerId → Str → Str → Method (Bytes × Str)
  unfolding call
  fetch_file peer_id zone name =
      call net lib json handle 300 (codes "Download timed out (5 minutes)")
        (λ a. elim a [ Answer.file content hash ↦ some (content, hash) | _ ↦ none ])
        (ServiceCommand.fetch_file peer_id zone name)

  unfoldable pub get_file_meta : PeerId → Str → Str → Method FileMeta
  unfolding call
  get_file_meta peer_id zone name =
      call net lib json handle 10 (codes "Request timed out (peer may be offline)")
        (λ a. elim a [ Answer.file_meta meta ↦ some meta | _ ↦ none ])
        (ServiceCommand.get_file_meta peer_id zone name)

  unfoldable pub get_file_chunk : PeerId → Str → Str → ℕ → ℕ → Method FileChunk
  unfolding call
  get_file_chunk peer_id zone name offset size =
      call net lib json handle 60 (codes "Chunk request timed out")
        (λ a. elim a [ Answer.file_chunk chunk ↦ some chunk | _ ↦ none ])
        (ServiceCommand.get_file_chunk peer_id zone name offset size)

  unfoldable pub rs_list : PeerId → Method (List RsFileEntry)
  unfolding call
  rs_list peer_id =
      call net lib json handle 10 (codes "RS list timed out")
        (λ a. elim a [ Answer.rs_files files ↦ some files | _ ↦ none ])
        (ServiceCommand.rs_list peer_id)

  unfoldable pub rs_get_meta : PeerId → Str → Method RsFileEntry
  unfolding call
  rs_get_meta peer_id name =
      call net lib json handle 10 (codes "RS meta timed out")
        (λ a. elim a [ Answer.rs_meta file ↦ some file | _ ↦ none ])
        (ServiceCommand.rs_get_meta peer_id name)

  unfoldable pub rs_get_blocks : PeerId → List Str → Method (List RsBlock)
  unfolding call
  rs_get_blocks peer_id hashes =
      call net lib json handle 120 (codes "RS blocks timed out")
        (λ a. elim a [ Answer.rs_blocks blocks ↦ some blocks | _ ↦ none ])
        (ServiceCommand.rs_get_blocks peer_id hashes)

  unfoldable pub rs_get_block : PeerId → Str → Method RsBlock
  unfolding call
  rs_get_block peer_id hash =
      call net lib json handle 120 (codes "RS block timed out")
        (λ a. elim a [ Answer.rs_block block ↦ some block | _ ↦ none ])
        (ServiceCommand.rs_get_block peer_id hash)

  unfoldable pub rs_have : PeerId → Str → Method RsHave
  unfolding call
  rs_have peer_id name =
      call net lib json handle 10 (codes "RS have timed out")
        (λ a. elim a [ Answer.rs_has have ↦ some have | _ ↦ none ])
        (ServiceCommand.rs_have peer_id name)

  unfoldable pub refresh_peers : Method ℕ
  unfolding call
  refresh_peers =
      call net lib json handle 5 (codes "Refresh timed out")
        (λ a. elim a [ Answer.refreshed n ↦ some n | _ ↦ none ]) ServiceCommand.refresh_peers

  unfoldable pub renew_get_version : PeerId → Method VersionInfo
  unfolding call
  renew_get_version peer_id =
      call net lib json handle 10 (codes "Renew version timed out")
        (λ a. elim a [ Answer.version info ↦ some info | _ ↦ none ])
        (ServiceCommand.renew_get_version peer_id)

  unfoldable pub renew_get_binary_chunk : PeerId → ℕ → ℕ → Method (Bytes × Bool)
  unfolding call
  renew_get_binary_chunk peer_id offset len =
      call net lib json handle 30 (codes "Renew binary chunk timed out")
        (λ a. elim a [ Answer.binary_chunk content is_last ↦ some (content, is_last) | _ ↦ none ])
        (ServiceCommand.renew_get_binary_chunk peer_id offset len)

  unfoldable pub rs_announce : PeerId → RsFileEntry → Method (Unit {0})
  unfolding tell
  rs_announce peer_id file = tell net lib json handle (ServiceCommand.rs_announce peer_id file)

  unfoldable pub rs_delete : PeerId → Str → Method (Unit {0})
  unfolding tell
  rs_delete peer_id name = tell net lib json handle (ServiceCommand.rs_delete peer_id name)
