-- ===== src/Wire/Block/Client.antt =====
-- tui/block_client.rs: the client, which keeps a connection for each node. TCP is an interface on a connection's state.
use rxiu.Base.{
  append_assoc, ℕ, ◌%◌, ◌^◌, ◌≡◌, refl, Str, Bytes, str_eq, codes, Bool, not, List, [], ◌∷◌, ◌++◌,
  Option, none, some, if◌then◌else◌, length, take, drop, ltb, leb, ◌==◌, ◌&&◌, arith,
}
use rxiu.Base.Assoc.{lookup, insert, erase}
use rxiu.Base.Decimal.{format_u64}
use rxiu.Error.{Result, ok, err, io, ◌>>=◌}
use rxiu.P2p.Messages.{RsBlock}
use rxiu.Wire.Frame.{to_be_bytes, from_be_bytes}
use rxiu.Wire.Block.{status_ok, request, read_response}

-- `connect` has the time limit in it.
pub record Tcp (C : Type 0) : Type 0 where
  pub connect : Str → Result C
  pub write_all : Bytes → C → Result C
  pub read_exact : ℕ → C → Result (Bytes × C)

pub record BlockClient (C : Type 0) : Type 0 where
  pub connections : List (Str × C)

unfoldable pub new : {C : Type 0} → BlockClient C
new = record { connections = [] }

unfoldable pub close_all : {C : Type 0} → BlockClient C → BlockClient C
close_all client = record { connections = [] }

-- `u32::from_be_bytes` of what `read_exact` gives.
abbrev pub word : Bytes → ℕ
word (a ∷ b ∷ c ∷ d ∷ _) = from_be_bytes a b c d
word _ = 0

module _ {C : Type 0} (tcp : Tcp C) where
  -- The exchange on a connection.
  unfoldable pub exchange : Str → C → Result (Bytes × C)
  unfolding format_u64
  exchange hash c = tcp.write_all (to_be_bytes (length hash % 2 ^ 32)) c >>= λ c.
      tcp.write_all hash c >>= λ c. tcp.read_exact 4 c >>= λ r. tcp.read_exact 4 r.1 >>= λ l.
      if not (word r.0 == status_ok)
      then err (io (codes "Block server error: status=" ++ format_u64 (word r.0)))
      else tcp.read_exact (word l.0) l.1

  -- Every error but that of `connect` drops the connection.
  unfoldable pub get_block : Str → Str → BlockClient C → Result RsBlock × BlockClient C
  unfolding exchange
  get_block ip hash client =
      let opened : Result C = elim (lookup ip client.connections) [
        | some c ↦ ok c
        | none ↦ tcp.connect (ip ++ codes ":19821")
      ] in
      elim opened [
        | err e ↦ (err e, client)
        | ok c ↦ elim (exchange hash c) [
          | err e ↦ (err e, record { connections = erase ip client.connections })
          | ok (content, c') ↦ (
            ok (record { hash = hash; content = content }),
            record { connections = insert ip c' client.connections },
          )
        ]
      ]

-- `split('/')`
unfoldable pub split_slash : Str → List Str
split_slash [] = [] ∷ []
split_slash (c ∷ s) =
    let rest = split_slash s in
    if c == b'/'
    then [] ∷ rest
    else elim rest [ [] ↦ (c ∷ []) ∷ [] | part ∷ parts ↦ (c ∷ part) ∷ parts ]

abbrev pub starts_with : Str → Str → Bool
starts_with s prefix = leb (length prefix) (length s) && str_eq (take (length prefix) s) prefix

-- The loop of `extract_ip` over the parts.
unfoldable pub find_ip : List Str → Option Str
find_ip [] = none
find_ip (part ∷ []) = none
find_ip (part ∷ ip ∷ parts) =
    let rest = find_ip (ip ∷ parts) in
    if str_eq part (codes "ip4")
      && (not (str_eq ip (codes "127.0.0.1")) && not (starts_with ip (codes "198.18.")))
    then some ip
    else rest

unfoldable pub extract_ip : Str → Option Str
unfolding split_slash find_ip
extract_ip multiaddr = find_ip (split_slash multiaddr)

-- A connection of bytes: what has been sent, and what will come.
abbrev pub pipe : Tcp (Bytes × Bytes)
pipe = record {
  connect = λ addr. ok ([], []);
  write_all = λ b c. ok (c.0 ++ b, c.1);
  read_exact = λ n c.
      if ltb (length c.1) n
      then err (io (codes "early eof"))
      else ok (take n c.1, (c.0, drop n c.1));
}

-- What `read_response` gives, with the connection.
abbrev delivered : Bytes → Result Bytes × Option Bytes → Result (Bytes × (Bytes × Bytes))
delivered out (ok content, some rest) = ok (content, (out, rest))
delivered out (ok content, none) = err (io (codes "early eof"))
delivered out (err e, rest) = err e

-- On a connection of bytes, `get_block` sends the request and reads the answer as `read_response` does.
exchange-read_response :
    (hash : Str) (out input : Bytes)
    → exchange pipe hash (out, input) ≡ delivered (out ++ request hash) (read_response input)
unfolding exchange read_response request
exchange-read_response hash out [] = refl
exchange-read_response hash out (a ∷ []) = refl
exchange-read_response hash out (a ∷ b ∷ []) = refl
exchange-read_response hash out (a ∷ b ∷ c ∷ []) = refl
exchange-read_response hash out (a ∷ b ∷ c ∷ d ∷ []) = refl
exchange-read_response hash out (a ∷ b ∷ c ∷ d ∷ e ∷ []) = refl
exchange-read_response hash out (a ∷ b ∷ c ∷ d ∷ e ∷ f ∷ []) = refl
exchange-read_response hash out (a ∷ b ∷ c ∷ d ∷ e ∷ f ∷ g ∷ []) = refl
exchange-read_response hash out (a ∷ b ∷ c ∷ d ∷ e ∷ f ∷ g ∷ h ∷ rest) =
    ground (arith, append_assoc out (to_be_bytes (length hash % 2 ^ 32)) hash)

-- A cached connection, on which an answer is next.
pub get_block-exchange :
    (ip hash : Str) (client : BlockClient (Bytes × Bytes)) (out input : Bytes)
    (r : Result Bytes × Option Bytes)
    → lookup ip client.connections ≡ some (out, input)
    → read_response input ≡ r
    → get_block pipe ip hash client ≡ elim (delivered (out ++ request hash) r) [
      | err e ↦ (err e, record { connections = erase ip client.connections })
      | ok (content, c) ↦ (
        ok (record { hash = hash; content = content }),
        record { connections = insert ip c client.connections },
      )
    ]
unfolding get_block
get_block-exchange ip hash client out input r cached e =
    ground (arith, cached, exchange-read_response hash out input, e)
