-- ===== src/Wire/Block/Exchange.antt =====
-- daemon/block_server.rs and tui/block_client.rs: requests and their answers on one connection.
use rxiu.Base.{
  ℕ, zero, suc, ◌%◌, ◌^◌, ◌≤◌, ◌<◌, ◌≡◌, ◌⊎◌, ◌∙◌, ap, refl, inl, inr, Str, Bytes, codes, false, [],
  ◌∷◌, ◌++◌, none, some, length, drop, ltb, arith, length-append, length-drop, take-length-append,
  drop-length-append, Bool-cases, Option-cases, All,
}
use rxiu.Base.Assoc.{lookup, All-lookup}
use rxiu.Base.Decimal.{format_u64}
use rxiu.Error.{ok, err, io}
use rxiu.Rs.Types.{RsDisk}
use rxiu.Rs.Blocks.{read_block}
use rxiu.Wire.Frame.{to_be_bytes, from_be_bytes}
use rxiu.Wire.Frame.RoundTrip.{from_be_bytes-to_be_bytes}
use rxiu.Wire.Block.{
  respond, handle_block_client, request, read_response, send_error, status_error, status_not_found,
  status_ok,
}

module _ {Text : Type 0} (utf8_lossy : Bytes → Str) (d : RsDisk Text) where
  -- Let the hash be text of less than 2^32 bytes. Of a request for at most 256 bytes, the server answers just that and goes on behind it. Of a
  -- longer one it takes the length alone: the bytes of the hash are read as the next request.
  pub handle_block_client-request :
      (fuel : ℕ) (hash : Str) (rest : Bytes)
      → length hash < 2 ^ 32
      → utf8_lossy hash ≡ hash
      → ((length hash ≤ 256)
          × (handle_block_client utf8_lossy d (suc fuel) (request hash ++ rest)
              ≡ respond d hash ++ handle_block_client utf8_lossy d fuel rest))
        ⊎ ((256 < length hash)
            × (handle_block_client utf8_lossy d (suc fuel) (request hash ++ rest)
                ≡ send_error status_error ++ handle_block_client utf8_lossy d fuel (hash ++ rest)))
  unfolding handle_block_client request
  handle_block_client-request fuel hash rest small text =
      let n = length hash % 2 ^ 32 in
      let whole : n ≡ length hash = omega arith in
      let len = from_be_bytes-to_be_bytes n (omega arith) ∙ whole in
      elim (Bool-cases (ltb 256 (length hash))) [
        | inl long ↦ inr (ground arith, rw (len, long))
        | inr short ↦
            let room : ltb (length (hash ++ rest)) (length hash) ≡ false =
              ground (arith, length-append hash rest) in
            inl (
              ground arith,
              rw (
                len,
                short,
                room,
                take-length-append hash rest,
                drop-length-append hash rest,
                text,
              ),
            )
      ]

  -- Any fuel beyond the length of the input gives the same answers.
  handle_block_client-fuel :
      (fuel : ℕ) (input : Bytes)
      → length input < fuel
      → handle_block_client utf8_lossy d fuel input
        ≡ handle_block_client utf8_lossy d (suc fuel) input
  unfolding handle_block_client
  handle_block_client-fuel zero input h = absurd (omega arith)
  handle_block_client-fuel (suc fuel) [] h = refl
  handle_block_client-fuel (suc fuel) (a ∷ []) h = refl
  handle_block_client-fuel (suc fuel) (a ∷ b ∷ []) h = refl
  handle_block_client-fuel (suc fuel) (a ∷ b ∷ c ∷ []) h = refl
  handle_block_client-fuel (suc fuel) (a ∷ b ∷ c ∷ e ∷ rest) h =
      let n = from_be_bytes a b c e in
      let skipped = handle_block_client-fuel fuel rest (omega arith) in
      let next = handle_block_client-fuel fuel (drop n rest) (omega (arith, length-drop n rest)) in
      ground (arith, skipped, next)

-- Where the files on disk are shorter than 4 GiB, the client reads from the server's answer the content of
-- the block, if it is there, and leaves what follows on the connection; if it is not there, the
-- result is an error and the connection is dropped.
pub read_response-respond :
    {Text : Type 0} (d : RsDisk Text) (hash : Str) (rest : Bytes)
    → All (λ f. length f.1 < 2 ^ 32) d.files
    → ((content : Bytes) × (read_block hash d ≡ ok content)
        × (read_response (respond d hash ++ rest) ≡ (ok content, some rest)))
      ⊎ ((lookup hash d.files ≡ none)
          × (read_response (respond d hash ++ rest)
              ≡ (err (io (codes "Block server error: status=1")), none)))
unfolding read_response respond read_block format_u64
read_response-respond d hash rest small = elim (Option-cases (lookup hash d.files)) [
  | inl missing ↦
      let r : respond d hash ≡ send_error status_not_found = rw (missing, respond, read_block) in
      inr (missing, ap (λ x. read_response (x ++ rest)) r)
  | inr (content, found) ↦
      let fits : length content < 2 ^ 32 =
        All-lookup (λ f. length f.1 < 2 ^ 32) hash d.files small found in
      let n = length content % 2 ^ 32 in
      let whole : n ≡ length content = omega arith in
      let len = from_be_bytes-to_be_bytes n (omega arith) ∙ whole in
      let room : ltb (length (content ++ rest)) (length content) ≡ false =
        ground (arith, length-append content rest) in
      let r : respond d hash ≡ to_be_bytes status_ok ++ to_be_bytes n ++ content =
        rw (found, respond, read_block) in
      inl (
        content,
        rw (found, read_block),
        ap (λ x. read_response (x ++ rest)) r
            ∙ rw (len, room, take-length-append content rest, drop-length-append content rest),
      )
]
