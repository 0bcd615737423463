-- ===== src/Rs/Examples.antt =====
-- Runs of the block store, and its theorems at concrete data.
use rxiu.Base.{
  ℕ, ◌≡◌, ◌≢◌, refl, sym, ap, Str, Bytes, codes, str_eq, str_eq_iff, Bool, true, false, List, [],
  ◌∷◌, Option, none, some, arith, length, if◌then◌else◌, find, inr, All,
}
use rxiu.Base.Assoc.{lookup}
use rxiu.Error.{Result, ok}
use rxiu.Rs.Types.{RsFileEntry, RsDisk, is_plain, HasPlainBlocks}
use rxiu.Rs.Metadata.{get_file, load_metadata}
use rxiu.Rs.Metadata.Catalog.{named, UniqueNames}
use rxiu.Rs.Blocks.{sha256_bytes, remove_file, apply_remote_meta, referenced}
use rxiu.Rs.Blocks.Removal.{
  is_dropped, remaining, lookup-remove_file, reconstruct-remove_file, announce_deletes,
}
use rxiu.Rs.Transfer.{put_file_from_path, reconstruct_to_path}
use rxiu.Rs.Transfer.RoundTrip.{put-reconstruct}
use rxiu.Rs.History.{RsCall, put_file, removes, applies, writes, stores, syncs, run}
use rxiu.Rs.History.Addressed.{IsAddressed, IsVerified, run-IsAddressed}
use rxiu.Rs.History.Names.{catalog, run-UniqueNames}
use rxiu.Samples.{
  SampleText, of_metadata, identity_sha, rs_json, block, file_a, file_b, both_files, full_disk,
}

-- The block 1 2 is on disk already.
abbrev start_disk : RsDisk SampleText
start_disk = record {
  metadata = some (of_metadata (record { files = [] }));
  files = (1 ∷ 2 ∷ [], 1 ∷ 2 ∷ []) ∷ [];
}

abbrev short_reads : ℕ → List Bytes
short_reads size = (1 ∷ 2 ∷ []) ∷ (3 ∷ []) ∷ (1 ∷ 2 ∷ []) ∷ []

put_result : Result RsFileEntry × RsDisk SampleText
put_result =
    put_file_from_path identity_sha rs_json (codes "a") (some short_reads) (codes "f") []
      (codes "sha256") 2 start_disk

lookup_faithful : (c found : Bytes) → Unit {0} → lookup c start_disk.files ≡ some found → found ≡ c
unfolding lookup
lookup_faithful c found h e = ground (arith, str_eq_iff (1 ∷ 2 ∷ []) c)

put-reconstruct_example :
    (e : RsFileEntry) × (put_result.0 ≡ ok e)
    × (e.size ≡ 5)
    × (e.hash ≡ 1 ∷ 2 ∷ 3 ∷ 1 ∷ 2 ∷ [])
    × (reconstruct_to_path identity_sha e put_result.1 ≡ (ok tt, 1 ∷ 2 ∷ 3 ∷ 1 ∷ 2 ∷ []))
unfolding put_result sha256_bytes
put-reconstruct_example =
    put-reconstruct identity_sha rs_json (λ _. Unit) (λ a b _ _ e. e) (codes "a") (codes "f")
      (codes "sha256") [] 2 short_reads start_disk refl (tt, (tt, (tt, tt)))
      (refl, (refl, (refl, tt))) (omega arith) lookup_faithful

abbrev calls : List RsCall
calls =
    writes (5 ∷ []) (5 ∷ [])
    ∷ stores (6 ∷ []) (6 ∷ [])
    ∷ applies file_b
    ∷ put_file (codes "a") (some short_reads) (codes "a") [] (codes "sha256") 2
    ∷ syncs (codes "b") true
    ∷ removes (codes "a")
    ∷ []

start-IsAddressed : IsAddressed identity_sha rs_json start_disk
unfolding sha256_bytes
start-IsAddressed = (inr refl, tt)

calls-IsVerified : All (IsVerified identity_sha rs_json) calls
unfolding sha256_bytes
calls-IsVerified = (tt, (refl, (tt, (tt, (tt, (tt, tt))))))

run-IsAddressed_example :
    IsAddressed identity_sha rs_json (run identity_sha rs_json start_disk calls)
run-IsAddressed_example =
    run-IsAddressed identity_sha rs_json start_disk calls calls-IsVerified start-IsAddressed

full_names : UniqueNames (catalog rs_json full_disk)
unfolding load_metadata str_eq
full_names = (refl, (refl, tt))

run-UniqueNames_example : UniqueNames (catalog rs_json (run identity_sha rs_json full_disk calls))
run-UniqueNames_example =
    run-UniqueNames identity_sha rs_json (λ m. refl) full_disk calls full_names

full_loads : load_metadata rs_json full_disk ≡ ok both_files
unfolding load_metadata
full_loads = refl

find_a : find (named (codes "a")) both_files.files ≡ some file_a
unfolding str_eq
find_a = refl

full_plain : All HasPlainBlocks both_files.files
unfolding is_plain
full_plain = ((refl, (refl, tt)), ((refl, tt), tt))

full_catalog_plain : All HasPlainBlocks (catalog rs_json full_disk)
unfolding is_plain load_metadata
full_catalog_plain = full_plain

plain_block : is_plain (3 ∷ 4 ∷ []) ≡ true
unfolding is_plain
plain_block = refl

-- The block 3 4 is the one that only the file a lists.
lookup-remove_file_example :
    ((remove_file rs_json (codes "a") full_disk).0 ≡ ok tt)
    × (lookup (3 ∷ 4 ∷ []) (remove_file rs_json (codes "a") full_disk).1.files ≡ (
        if is_dropped (referenced (remaining (codes "a") both_files)) file_a.blocks (3 ∷ 4 ∷ [])
        then none
        else lookup (3 ∷ 4 ∷ []) full_disk.files))
lookup-remove_file_example =
    lookup-remove_file rs_json (codes "a") (3 ∷ 4 ∷ []) full_disk both_files file_a full_loads
      full_plain plain_block find_a

found_b : get_file rs_json (codes "b") full_disk ≡ ok (some file_b)
unfolding get_file load_metadata str_eq
found_b = refl

reconstruct-remove_file_example :
    reconstruct_to_path identity_sha file_b (remove_file rs_json (codes "a") full_disk).1
    ≡ reconstruct_to_path identity_sha file_b full_disk
reconstruct-remove_file_example =
    reconstruct-remove_file rs_json identity_sha (codes "a") (codes "b") full_disk file_b
      full_catalog_plain found_b (λ e. ground (arith, e))

-- An entry whose block is a path out of the blocks directory.
abbrev hostile : RsFileEntry
hostile = record file_b { name = codes "h"; blocks = block (codes "../../key") 0 ∷ [] }

hostile_lists : rxiu.Base.Assoc.contains (codes "../../key" ∷ []) (codes "../../key") ≡ true
unfolding rxiu.Base.Assoc.contains str_eq
hostile_lists = refl

nobody_lists :
    rxiu.Base.Assoc.contains (referenced (remaining (codes "h") both_files)) (codes "../../key")
    ≡ false
unfolding rxiu.Base.Assoc.contains str_eq referenced
nobody_lists = refl

announce_deletes_example :
    lookup
      (codes "../../key")
      (remove_file rs_json (codes "h") (apply_remote_meta rs_json hostile full_disk).1).1.files
    ≡ none
announce_deletes_example =
    announce_deletes rs_json (λ m. refl) hostile (codes "../../key") full_disk both_files full_loads
      hostile_lists nobody_lists
