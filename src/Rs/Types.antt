-- ===== src/Rs/Types.antt =====
-- rs/mod.rs: the records of the block store, and the part of the disk that it works on.
use rxiu.Base.{
  ℕ, ◌≡◌, Str, Bytes, str_eq, codes, Bool, true, List, Option, all, not, is_nil, All, ◌==◌, ◌&&◌,
}

pub record RsBlockEntry : Type 0 where
  pub hash : Str
  pub size : ℕ
  pub offset : ℕ

pub record RsFileEntry : Type 0 where
  pub name : Str
  pub size : ℕ
  pub hash : Str
  pub blocks : List RsBlockEntry
  pub members : List Str
  pub algo : Str
  pub complete : Bool
  pub syncing : Bool
  pub deletable : Bool

pub record RsMetadata : Type 0 where
  pub files : List RsFileEntry

-- `RsStore` holds three paths. The state is what lies at them: the text of `metadata.json`, if that
-- file is there, and the regular files `blocks_path.join(p)` for every `p`. A path is a key, which is exact for
-- plain names, as hashes are. A peer can announce others: `./h` and `../blocks/h` name the file `h` a second time, and
-- `../metadata.json` and `../../zones/…` lead out of the blocks directory, to files that have a place of their own in the
-- model. What is said of files that stay assumes plain names.
pub record RsDisk (Text : Type 0) : Type 0 where
  pub metadata : Option Text
  pub files : List (Str × Bytes)

-- A name that `read_dir` can return.
unfoldable pub is_component : Str → Bool
is_component p = all (λ c. not (c == b'/')) p

-- A name that a path joined to it names a file of the directory by, and that no other such name names the same file as.
unfoldable pub is_plain : Str → Bool
unfolding is_component str_eq
is_plain p =
    is_component p && not (is_nil p) && not (str_eq p (codes ".")) && not (str_eq p (codes ".."))

-- An entry that lists its blocks by plain names.
abbrev pub HasPlainBlocks : RsFileEntry → Type 0
HasPlainBlocks e = All (λ b. is_plain b.hash ≡ true) e.blocks
