-- ===== src/P2p/Examples.antt =====
-- Requests to a node at concrete data.
use rxiu.Base.{◌≡◌, refl, inr, codes, List, [], ◌∷◌, none, some, All}
use rxiu.External.{Json}
use rxiu.P2p.Peers.{PeerStore, read_store}
use rxiu.P2p.Peers.Known.{IsKeyed}
use rxiu.Error.{ok, err, no_active_zone}
use rxiu.Rs.Types.{is_plain, HasPlainBlocks}
use rxiu.Rs.Metadata.{load_metadata}
use rxiu.Rs.History.Names.{catalog}
use rxiu.Rs.Blocks.{sha256_bytes}
use rxiu.Rs.History.Addressed.{IsAddressed}
use rxiu.P2p.Messages.{FileRequest}
use rxiu.P2p.Service.{Shared}
use rxiu.P2p.Service.Answers.{serve, IsPlainRequest, serve-IsAddressed}
use rxiu.Samples.{SampleText, identity_sha, files_json, rs_json, full_disk, file_b, zone_x}

abbrev shared : Shared SampleText
shared = record {
  manager = record { zones = codes "work" ∷ []; active_zone = none };
  home = record { registry = none; directories = (codes "work", zone_x) ∷ [] };
  rs = full_disk;
}

abbrev requests : List FileRequest
requests =
    FileRequest.ping
    ∷ FileRequest.get_file_chunk (codes "work") (codes "x") 0 2
    ∷ FileRequest.rs_announce file_b
    ∷ FileRequest.rs_delete (codes "a")
    ∷ []

full-IsAddressed : IsAddressed identity_sha rs_json full_disk
unfolding sha256_bytes
full-IsAddressed = (inr refl, (inr refl, tt))

full_plain : All HasPlainBlocks (catalog rs_json full_disk)
unfolding is_plain load_metadata
full_plain = ((refl, (refl, tt)), ((refl, tt), tt))

requests_plain : All IsPlainRequest requests
unfolding is_plain
requests_plain = (tt, (tt, ((refl, tt), (tt, tt))))

abbrev after : Shared SampleText
after =
    serve identity_sha files_json rs_json (λ n. 1) (err no_active_zone) (ok (7 ∷ [])) requests
      shared

serve-IsAddressed_example :
    (after.manager ≡ shared.manager)
    × (after.home ≡ shared.home)
    × IsAddressed identity_sha rs_json after.rs
serve-IsAddressed_example =
    serve-IsAddressed identity_sha files_json rs_json (λ n. 1) (err no_active_zone) (ok (7 ∷ []))
      requests shared full_plain requests_plain full-IsAddressed

abbrev peers_json : Json PeerStore PeerStore
peers_json = record { to_text = λ m. m; from_text = some }

none-IsKeyed : IsKeyed (read_store peers_json none)
unfolding read_store
none-IsKeyed = tt
