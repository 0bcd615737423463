-- ===== src/Rs/Metadata/Catalog.antt =====
-- rs/mod.rs: the metadata file as a map from names to entries.
use rxiu.Base.{
  ◌≡◌, refl, Str, str_eq, str_eq_iff, Bool, true, false, List, [], ◌∷◌, Option, none, some, filter,
  find, not, if◌then◌else◌, any, arith,
}
use rxiu.Error.{ok}
use rxiu.External.{Json, IsLossless}
use rxiu.Rs.Types.{RsFileEntry, RsMetadata, RsDisk}
use rxiu.Rs.Metadata.{upsert, mark_syncing, load_metadata, save_metadata}

-- The test of the source's searches by name.
abbrev pub named : Str → RsFileEntry → Bool
named n f = str_eq f.name n

-- The change that `set_syncing` makes to the entry that it finds.
abbrev pub marked : Bool → RsFileEntry → RsFileEntry
marked syncing f = record f {
  syncing = syncing;
  complete = (if syncing then false else f.complete);
}

pub find-upsert :
    (n : Str) (e : RsFileEntry) (fs : List RsFileEntry)
    → find (named n) (upsert e fs) ≡ (if str_eq e.name n then some e else find (named n) fs)
unfolding upsert
find-upsert n e [] = refl
find-upsert n e (f ∷ fs) =
    ground (
      arith,
      find-upsert n e fs,
      str_eq_iff f.name e.name,
      str_eq_iff f.name n,
      str_eq_iff e.name n,
    )

pub find-retain :
    (n name : Str) (fs : List RsFileEntry)
    → find (named n) (filter (λ f. not (str_eq f.name name)) fs)
      ≡ (if str_eq name n then none else find (named n) fs)
find-retain n name [] = ground arith
find-retain n name (f ∷ fs) =
    ground
      (arith, find-retain n name fs, str_eq_iff f.name name, str_eq_iff f.name n, str_eq_iff name n)

abbrev pub map_found : (RsFileEntry → RsFileEntry) → Option RsFileEntry → Option RsFileEntry
map_found f none = none
map_found f (some e) = some (f e)

find-mark_syncing :
    (n name : Str) (b : Bool) (fs : List RsFileEntry)
    → find (named n) (mark_syncing name b fs)
      ≡ (if str_eq name n then map_found (marked b) (find (named n) fs) else find (named n) fs)
unfolding mark_syncing
find-mark_syncing n name b [] = ground arith
find-mark_syncing n name b (f ∷ fs) = ground (
  arith,
  find-mark_syncing n name b fs,
  str_eq_iff f.name name,
  str_eq_iff f.name n,
  str_eq_iff name n,
)

module _ {Text : Type 0} (json : Json Text RsMetadata) (lossless : IsLossless json) where
  pub load-save :
      (m : RsMetadata) (d : RsDisk Text) → load_metadata json (save_metadata json m d) ≡ ok m
  unfolding load_metadata save_metadata
  load-save m d = rw (lossless m)

-- No two entries have one name.
abbrev pub UniqueNames : List RsFileEntry → Type 0
UniqueNames [] = Unit
UniqueNames (f ∷ fs) = (any (named f.name) fs ≡ false) × UniqueNames fs

any-upsert :
    (n : Str) (e : RsFileEntry) (fs : List RsFileEntry)
    → any (named n) (upsert e fs) ≡ (if str_eq e.name n then true else any (named n) fs)
unfolding upsert
any-upsert n e [] = ground arith
any-upsert n e (f ∷ fs) =
    ground
      (arith, any-upsert n e fs, str_eq_iff f.name e.name, str_eq_iff f.name n, str_eq_iff e.name n)

pub upsert-UniqueNames :
    (e : RsFileEntry) (fs : List RsFileEntry) → UniqueNames fs → UniqueNames (upsert e fs)
unfolding upsert
upsert-UniqueNames e [] h = (refl, tt)
upsert-UniqueNames e (f ∷ fs) h = ground (
  arith,
  any-upsert f.name e fs,
  upsert-UniqueNames e fs h.1,
  str_eq_iff f.name e.name,
  str_eq_iff e.name f.name,
)

any-mark_syncing :
    (n name : Str) (b : Bool) (fs : List RsFileEntry)
    → any (named n) (mark_syncing name b fs) ≡ any (named n) fs
unfolding mark_syncing
any-mark_syncing n name b [] = refl
any-mark_syncing n name b (f ∷ fs) = ground (arith, any-mark_syncing n name b fs)

pub mark_syncing-UniqueNames :
    (name : Str) (b : Bool) (fs : List RsFileEntry)
    → UniqueNames fs
    → UniqueNames (mark_syncing name b fs)
unfolding mark_syncing
mark_syncing-UniqueNames name b [] h = tt
mark_syncing-UniqueNames name b (f ∷ fs) h =
    ground (arith, any-mark_syncing f.name name b fs, mark_syncing-UniqueNames name b fs h.1)

any-filter :
    (n : Str) (p : RsFileEntry → Bool) (fs : List RsFileEntry)
    → any (named n) fs ≡ false
    → any (named n) (filter p fs) ≡ false
any-filter n p [] h = refl
any-filter n p (f ∷ fs) h = ground (arith, any-filter n p fs)

pub filter-UniqueNames :
    (p : RsFileEntry → Bool) (fs : List RsFileEntry) → UniqueNames fs → UniqueNames (filter p fs)
filter-UniqueNames p [] h = tt
filter-UniqueNames p (f ∷ fs) h =
    ground (arith, any-filter f.name p fs h.0, filter-UniqueNames p fs h.1)
