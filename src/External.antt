-- ===== src/External.antt =====
-- What the program takes from crates: the `sha2` digest with its `{:x}` format, and the text form
-- that `serde_json` gives a value. Both are parameters of the modules that use them.
use rxiu.Base.{Str, Bytes, Option, some, ◌≡◌, ◌⊎◌}

-- `Sha256::digest` on the bytes fed to the hasher, and `format!("{:x}", …)`.
pub record Sha256 : Type 0 where
  pub digest : Bytes → Bytes
  pub lower_hex : Bytes → Str

-- `serde_json::to_string_pretty` and `serde_json::from_str`, where `none` is a parse error.
pub record Json (Text A : Type 0) : Type 0 where
  pub to_text : A → Text
  pub from_text : Text → Option A

-- What is written parses back.
abbrev pub IsLossless : {Text A : Type 0} → Json Text A → Type 0
IsLossless {A} json = (a : A) → json.from_text (json.to_text a) ≡ some a

-- No two of the byte strings that satisfy `Seen` have one hash: what the program expects of SHA-256
-- for the data that it meets.
abbrev pub IsCollisionFree : (Bytes → Type 0) → (Bytes → Str) → Type 0
IsCollisionFree Seen hash = (a b : Bytes) → Seen a → Seen b → hash a ≡ hash b → a ≡ b

-- `cbor4ii::serde::to_vec`, or nothing where it fails, and `from_slice`, or its error's message.
pub record Cbor (A : Type 0) : Type 0 where
  pub to_vec : A → Bytes
  pub from_slice : Bytes → Str ⊎ A

-- A `PeerId` and a `Multiaddr` of libp2p are the texts that `to_string` gives of them, and these are the texts that
-- `parse` gives of others.
abbrev pub PeerId : Type 0
PeerId = Str

abbrev pub Multiaddr : Type 0
Multiaddr = Str

pub record Libp2p : Type 0 where
  pub parse_peer_id : Str → Option PeerId
  pub parse_addr : Str → Option Multiaddr
