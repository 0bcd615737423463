-- ===== src/Wire/Block/Served.antt =====
-- tui/block_client.rs against daemon/block_server.rs: a block over a connection that is kept.
use rxiu.Base.{
  ℕ, suc, ◌^◌, ◌≤◌, ◌<◌, ◌≡◌, ◌⊎◌, ◌∙◌, ap, refl, inl, inr, Str, Bytes, codes, ◌++◌, none, some,
  length, All,
}
use rxiu.Base.Assoc.{lookup, insert, erase}
use rxiu.Base.Decimal.{format_u64}
use rxiu.Error.{ok, err, io}
use rxiu.Rs.Types.{RsDisk}
use rxiu.Rs.Blocks.{read_block}
use rxiu.Wire.Block.{handle_block_client, request, read_response, send_error, status_error}
use rxiu.Wire.Block.Exchange.{handle_block_client-request, read_response-respond}
use rxiu.Wire.Block.Client.{BlockClient, pipe, get_block, get_block-exchange}

read_response-send_error :
    (rest : Bytes)
    → read_response (send_error status_error ++ rest)
      ≡ (err (io (codes "Block server error: status=2")), none)
unfolding read_response format_u64
read_response-send_error rest = refl

-- What the client has after a call: with its connection dropped, or kept with what is on it.
abbrev pub without : Str → BlockClient (Bytes × Bytes) → BlockClient (Bytes × Bytes)
without ip client = record { connections = erase ip client.connections }

abbrev pub with_connection :
    Str → Bytes × Bytes → BlockClient (Bytes × Bytes) → BlockClient (Bytes × Bytes)
with_connection ip c client = record { connections = insert ip c client.connections }

module _ {Text : Type 0} (utf8_lossy : Bytes → Str) (d : RsDisk Text) where
  -- On a kept connection on which the server's answers to a request for a block, and to what is sent later, are to come, the hash
  -- being text of less than 2^32 bytes and the files on disk shorter than 4 GiB: a block that is there is given, and the connection is kept with the answers to what is sent
  -- later. For one that is not there, and for a hash of more than 256 bytes, the result is the error of the server's status, and the connection is dropped.
  pub get_block-served :
      (fuel : ℕ) (ip hash : Str) (later out : Bytes) (client : BlockClient (Bytes × Bytes))
      → length hash < 2 ^ 32
      → utf8_lossy hash ≡ hash
      → All (λ f. length f.1 < 2 ^ 32) d.files
      → lookup ip client.connections
        ≡ some (out, handle_block_client utf8_lossy d (suc fuel) (request hash ++ later))
      → let got = get_block pipe ip hash client in
        ((content : Bytes) × (length hash ≤ 256)
          × (read_block hash d ≡ ok content)
          × (got ≡ (
            ok (record { hash = hash; content = content }),
            with_connection ip
                (out ++ request hash, handle_block_client utf8_lossy d fuel later)
                client,
          )))
        ⊎ ((length hash ≤ 256)
            × (lookup hash d.files ≡ none)
            × (got ≡ (err (io (codes "Block server error: status=1")), without ip client)))
        ⊎ ((256 < length hash)
            × (got ≡ (err (io (codes "Block server error: status=2")), without ip client)))
  get_block-served fuel ip hash later out client short text small cached =
      elim (handle_block_client-request utf8_lossy d fuel hash later short text) [
        | inr (long, answer) ↦ inr (
            inr (
              long,
              get_block-exchange ip hash client out _ _ cached (
                  ap read_response answer
                  ∙ read_response-send_error
                      (handle_block_client utf8_lossy d fuel (hash ++ later))),
            ))
        | inl (fits, answer) ↦
            elim (read_response-respond d hash (handle_block_client utf8_lossy d fuel later)
              small) [
                | inl (content, found, reads) ↦ inl (
                  content,
                  fits,
                  found,
                  get_block-exchange ip hash client out _ _ cached
                      (ap read_response answer ∙ reads),
                )
                | inr (missing, reads) ↦ inr (
                    inl (
                      fits,
                      missing,
                      get_block-exchange ip hash client out _ _ cached
                          (ap read_response answer ∙ reads),
                    ))
              ]
      ]
