-- ===== src/Wire/Block.antt =====
-- daemon/block_server.rs and tui/block_client.rs: the protocol of blocks.
pub mod Exchange
pub mod Client
pub mod Served
use rxiu.Base.{
  ℕ, zero, suc, ◌+◌, ◌%◌, ◌^◌, Str, Bytes, codes, Bool, true, false, List, [], ◌∷◌, ◌++◌, Option,
  none, some, if◌then◌else◌, length, take, drop, ltb, ◌==◌, not,
}
use rxiu.Base.Decimal.{format_u64}
use rxiu.Error.{Result, ok, err, io}
use rxiu.Rs.Types.{RsDisk}
use rxiu.Rs.Blocks.{read_block}
use rxiu.Wire.Frame.{to_be_bytes, from_be_bytes}

abbrev pub status_ok : ℕ
status_ok = 0

abbrev pub status_not_found : ℕ
status_not_found = 1

abbrev pub status_error : ℕ
status_error = 2

abbrev pub send_error : ℕ → Bytes
send_error status = to_be_bytes status ++ to_be_bytes 0

-- The answer to a request for a block. The length is cast to u32.
unfoldable pub respond : {Text : Type 0} → RsDisk Text → Str → Bytes
unfolding read_block
respond d hash = elim (read_block hash d) [
  | ok content ↦ to_be_bytes status_ok ++ to_be_bytes (length content % 2 ^ 32) ++ content
  | err e ↦ send_error status_not_found
]

-- `utf8_lossy` is `String::from_utf8_lossy`. The input is what the client sends until it closes the
-- connection, and the result what the server sends. A turn of the loop reads a length at least, so
-- that fuel beyond the input's length is enough.
module _ {Text : Type 0} (utf8_lossy : Bytes → Str) (d : RsDisk Text) where
  unfoldable pub handle_block_client : ℕ → Bytes → Bytes
  unfolding respond
  handle_block_client zero input = []
  handle_block_client (suc fuel) [] = []
  handle_block_client (suc fuel) (a ∷ []) = []
  handle_block_client (suc fuel) (a ∷ b ∷ []) = []
  handle_block_client (suc fuel) (a ∷ b ∷ c ∷ []) = []
  handle_block_client (suc fuel) (a ∷ b ∷ c ∷ e ∷ rest) =
      let hash_len = from_be_bytes a b c e in
      let skipped = handle_block_client fuel rest in
      let next = handle_block_client fuel (drop hash_len rest) in
      if ltb 256 hash_len
      then send_error status_error ++ skipped
      else if ltb (length rest) hash_len
      then []
      else respond d (utf8_lossy (take hash_len rest)) ++ next

-- What `get_block` sends.
unfoldable pub request : Str → Bytes
request hash = to_be_bytes (length hash % 2 ^ 32) ++ hash

-- The reading of the answer in `get_block`: the block's content, and what is left on the connection. On an
-- error the connection is dropped (`none`).
unfoldable pub read_response : Bytes → Result Bytes × Option Bytes
unfolding format_u64
read_response (a ∷ b ∷ c ∷ d ∷ e ∷ f ∷ g ∷ h ∷ rest) =
    let data_len = from_be_bytes e f g h in
    let status = from_be_bytes a b c d in
    if not (status == status_ok)
    then (err (io (codes "Block server error: status=" ++ format_u64 status)), none)
    else if ltb (length rest) data_len
    then (err (io (codes "early eof")), none)
    else (ok (take data_len rest), some (drop data_len rest))
read_response other = (err (io (codes "early eof")), none)
