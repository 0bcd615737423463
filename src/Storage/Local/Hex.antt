-- ===== src/Storage/Local/Hex.antt =====
-- storage/local.rs, the module `hex`.
use rxiu.Base.{
  ℕ, zero, suc, ◌+◌, ◌*◌, ◌-◌, ◌/◌, ◌%◌, ◌<◌, ◌≡◌, refl, Str, Bytes, Bool, true, ◌&&◌, ◌==◌, ltb,
  leb, ◌||◌, if◌then◌else◌, [], ◌∷◌, length, All, arith, get_elem?, unwrap_or, Bool-cases, inl, inr,
}
use rxiu.Storage.Local.{encode, hex_chars}

-- A test that holds of the numbers below `n`.
abbrev holds_below : (ℕ → Bool) → ℕ → Bool
holds_below p zero = true
holds_below p (suc n) = p n && holds_below p n

holds_below_lem : (p : ℕ → Bool) (n a : ℕ) → holds_below p n ≡ true → a < n → p a ≡ true
holds_below_lem p zero a h low = ground arith
holds_below_lem p (suc n) a h low = elim (Bool-cases (a == n)) [
  | inl same ↦ let e : a ≡ n = ground arith in rw e (ground (arith, h))
  | inr other ↦ holds_below_lem p n a (ground (arith, h)) (ground arith)
]

abbrev hex_char : ℕ → ℕ
hex_char d = unwrap_or (get_elem? hex_chars d) 0

-- The value of a hexadecimal digit.
abbrev pub digit : ℕ → ℕ
digit c = if ltb c 58 then c - 48 else c - 87

abbrev pub is_hex_digit : ℕ → Bool
is_hex_digit c = (leb 48 c && leb c 57) || (leb 97 c && leb c 102)

digit-hex_char : (d : ℕ) → d < 16 → digit (hex_char d) ≡ d
digit-hex_char d h =
    let e = holds_below_lem (λ x. digit (hex_char x) == x) 16 d refl h in ground (arith, e)

is_hex_digit-hex_char : (d : ℕ) → d < 16 → is_hex_digit (hex_char d) ≡ true
is_hex_digit-hex_char d h = holds_below_lem (λ x. is_hex_digit (hex_char x)) 16 d refl h

-- The bytes that a text of hexadecimal digits stands for.
unfoldable pub decode : Str → Bytes
decode [] = []
decode (c ∷ []) = []
decode (c ∷ c' ∷ cs) = (digit c * 16 + digit c') ∷ decode cs

-- The hexadecimal text of bytes (numbers below 256) decodes to them, has two characters for each, and only the digits 0 to 9
-- and a to f.
decode-encode :
    (bytes : Bytes)
    → All (λ b. b < 256) bytes
    → (decode (encode bytes) ≡ bytes)
      × (length (encode bytes) ≡ 2 * length bytes)
      × All (λ c. is_hex_digit c ≡ true) (encode bytes)
unfolding decode encode
decode-encode [] h = (refl, refl, tt)
decode-encode (b ∷ bs) (low, lows) =
    let (back, size, digits) = decode-encode bs lows in
    let high : b / 16 < 16 = omega arith in
    let rest : b % 16 < 16 = omega arith in
    let e : digit (hex_char (b / 16)) * 16 + digit (hex_char (b % 16)) ≡ b =
      omega (arith, digit-hex_char (b / 16) high, digit-hex_char (b % 16) rest) in
    (
      rw (e, back),
      omega (arith, size),
      (is_hex_digit-hex_char (b / 16) high, (is_hex_digit-hex_char (b % 16) rest, digits)),
    )
