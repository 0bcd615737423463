-- ===== src/Renew/Chunk.antt =====
-- p2p/service.rs `get_binary_chunk`, renew/updater.rs `handle_get_binary_chunk`, and the download loop
-- of daemon/renew.rs.
pub mod Transfer
use rxiu.Base.{
  ℕ, suc, zero, ◌+◌, ◌*◌, ◌%◌, ◌^◌, Str, Bytes, codes, Bool, true, false, List, [], ◌∷◌, ◌++◌,
  Option, none, some, if◌then◌else◌, ◌&&◌, is_nil, length, take, drop, leb, min, max,
}
use rxiu.Error.{Result, ok, err, io}

-- One `read` on a buffer of `len` bytes at an offset: it may be short, but gives a byte where there is
-- one and the buffer has room. `short` says how many bytes the system has ready.
abbrev pub read_at : (ℕ → ℕ) → ℕ → ℕ → Bytes → Bytes
read_at short len offset content = take (min len (max 1 (short offset))) (drop offset content)

-- The bytes, and whether they are the last. The error is that of opening the binary.
unfoldable pub get_binary_chunk : (ℕ → ℕ) → Result Bytes → ℕ → ℕ → Result (Bytes × Bool)
get_binary_chunk short (err e) offset len = err e
get_binary_chunk short (ok exe) offset len =
    if leb (length exe) offset
    then ok ([], true)
    else let buf = read_at short len offset exe in
      ok (buf, leb (length exe) ((offset + length buf) % 2 ^ 64))

-- A peer's answers: to its n-th request, for an offset and a length.
abbrev pub Fetch : Type 0
Fetch = ℕ → ℕ → ℕ → Result (Bytes × Bool)

abbrev pub chunk_size : ℕ
chunk_size = 1024 * 1024

-- The loop of `download_and_apply_update`: the arguments are the number of requests so far, `offset`
-- and the bytes written. `none` says that the fuel has run out.
unfoldable pub download : Fetch → ℕ → ℕ → ℕ → Bytes → Option (Result Bytes)
download fetch zero call offset file = none
download fetch (suc fuel) call offset file = elim (fetch call offset chunk_size) [
  | err e ↦ some (err e)
  | ok (content, is_last) ↦
      let rest =
        download fetch fuel (suc call) ((offset + length content) % 2 ^ 64) (file ++ content) in
      if is_nil content && is_last
      then some (ok file)
      else if is_last
      then some (ok (file ++ content))
      else rest
]
