-- ===== src/Wire/Frame.antt =====
-- daemon/protocol.rs: messages with their length in front.
pub mod RoundTrip
use rxiu.Base.{ℕ, ◌+◌, ◌*◌, ◌/◌, ◌%◌, ◌^◌, Bytes, List, [], ◌∷◌, ◌++◌, Option, none, some, length}

-- `u32::to_be_bytes`
abbrev pub to_be_bytes : ℕ → Bytes
to_be_bytes n = n / 2 ^ 24 % 256 ∷ n / 2 ^ 16 % 256 ∷ n / 2 ^ 8 % 256 ∷ n % 256 ∷ []

-- `u32::from_be_bytes`
abbrev pub from_be_bytes : ℕ → ℕ → ℕ → ℕ → ℕ
from_be_bytes a b c d = a * 2 ^ 24 + b * 2 ^ 16 + c * 2 ^ 8 + d

-- `encode_message`, from the message's CBOR text; the length is cast to u32.
unfoldable pub encode_message : Bytes → Bytes
encode_message cbor = to_be_bytes (length cbor % 2 ^ 32) ++ cbor

unfoldable pub parse_length : Bytes → Option ℕ
parse_length [] = none
parse_length (a ∷ []) = none
parse_length (a ∷ b ∷ []) = none
parse_length (a ∷ b ∷ c ∷ []) = none
parse_length (a ∷ b ∷ c ∷ d ∷ rest) = some (from_be_bytes a b c d)
