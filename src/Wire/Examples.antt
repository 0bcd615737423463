-- ===== src/Wire/Examples.antt =====
-- Exchanges at concrete data.
use rxiu.Base.{
  ◌≡◌, ◌⊎◌, ◌≤◌, ◌<◌, refl, Str, Bytes, str_eq, codes, [], ◌∷◌, ◌++◌, none, some, arith,
}
use rxiu.Base.Assoc.{lookup, insert}
use rxiu.Error.{ok, err, io}
use rxiu.Rs.Blocks.{read_block}
use rxiu.Wire.Block.{handle_block_client, request}
use rxiu.Wire.Block.Client.{BlockClient, pipe, get_block, extract_ip}
use rxiu.Wire.Block.Served.{without, with_connection, get_block-served}
use rxiu.Samples.{full_disk}

abbrev hash : Str
hash = 1 ∷ 2 ∷ []

-- A connection on which two answers are to come.
abbrev kept : BlockClient (Bytes × Bytes)
kept = record {
  connections =
      (
        codes "10.0.0.7",
        ([], handle_block_client (λ b. b) full_disk 20 (request hash ++ request hash)),
      )
      ∷ [];
}

kept-cached :
    lookup (codes "10.0.0.7") kept.connections
    ≡ some ([], handle_block_client (λ b. b) full_disk 20 (request hash ++ request hash))
unfolding lookup str_eq
kept-cached = refl

get_block-served_example :
    let ip = codes "10.0.0.7" in
    let got = get_block pipe ip hash kept in
    ((content : Bytes) × (2 ≤ 256)
      × (read_block hash full_disk ≡ ok content)
      × (got ≡ (
        ok (record { hash = hash; content = content }),
        with_connection ip
            ([] ++ request hash, handle_block_client (λ b. b) full_disk 19 (request hash))
            kept,
      )))
    ⊎ ((2 ≤ 256)
        × (lookup hash full_disk.files ≡ none)
        × (got ≡ (err (io (codes "Block server error: status=1")), without ip kept)))
    ⊎ ((256 < 2) × (got ≡ (err (io (codes "Block server error: status=2")), without ip kept)))
get_block-served_example =
    get_block-served (λ b. b) full_disk 19 (codes "10.0.0.7") hash (request hash) [] kept
      (omega arith) refl (omega arith, (omega arith, tt)) kept-cached

two_blocks :
    let (first, client) = get_block pipe (codes "10.0.0.7") hash kept in
    let (second, _) = get_block pipe (codes "10.0.0.7") hash client in
    (first ≡ ok (record { hash = hash; content = hash })) × (second ≡ first)
unfolding get_block handle_block_client request lookup insert read_block str_eq
two_blocks = (refl, refl)

address : extract_ip (codes "/ip4/172.18.36.82/tcp/10826") ≡ some (codes "172.18.36.82")
unfolding extract_ip str_eq
address = refl

own_address : extract_ip (codes "/ip4/127.0.0.1/tcp/10826") ≡ none
unfolding extract_ip str_eq
own_address = refl
