-- ===== src/Z85/RoundTrip.antt =====
-- `decode` inverts `encode` on whole words of bytes, and `encode` inverts `decode`.
use pyzmq.Base.{
  ℕ, ◌+◌, ◌*◌, ◌/◌, ◌%◌, ◌^◌, ◌<◌, ◌≡◌, refl, ap, List, [], ◌∷◌, ◌++◌, Result, ok, ◌>>=◌, ==_iff,
  lt→ltb, arith, nat_eq, Bytes, length, All,
}
use pyzmq.Z85.{
  powers_85, unpack, pack, encode_value, encode_values, encode, decode_value, decode_values, bytes,
  to_bytes, decode,
}
use pyzmq.Z85.Digits.{z85_index-char}

-- The range of a byte.
abbrev pub IsByte : ℕ → Type 0
IsByte b = b < 256

digit_lt : (n : ℕ) → n % 85 < 85
digit_lt n = omega arith

-- A 32-bit word is the sum of its five digits of base 85.
digits_sum :
    (v : ℕ)
    → v < 85 ^ 5
    → 0
        + v / 85 ^ 4 % 85 * 85 ^ 4
        + v / 85 ^ 3 % 85 * 85 ^ 3
        + v / 85 ^ 2 % 85 * 85 ^ 2
        + v / 85 % 85 * 85
        + v / 1 % 85 * 1
      ≡ v
digits_sum v h = omega arith

decode-encode_value : (v : ℕ) → v < 85 ^ 5 → decode_value (encode_value v) powers_85 0 ≡ ok v
unfolding decode_value encode_value
decode-encode_value v h =
    rw
      (
        z85_index-char _ (digit_lt (v / 85 ^ 4)),
        z85_index-char _ (digit_lt (v / 85 ^ 3)),
        z85_index-char _ (digit_lt (v / 85 ^ 2)),
        z85_index-char _ (digit_lt (v / 85)),
        z85_index-char _ (digit_lt (v / 1)),
      )
      (ap ok (digits_sum v h))

abbrev prepend : ℕ → List ℕ → Result (List ℕ)
prepend v vs = ok (v ∷ vs)

decode_values-encode_value :
    (v : ℕ) (rest : Bytes)
    → v < 85 ^ 5
    → decode_values (encode_value v ++ rest) ≡ (decode_values rest >>= prepend v)
unfolding decode_values encode_value
decode_values-encode_value v rest h =
    ap (λ (r : Result ℕ). r >>= λ value. decode_values rest >>= prepend value)
      (decode-encode_value v h)

decode-encode_values :
    (vs : List ℕ) → All (λ v. v < 2 ^ 32) vs → decode_values (encode_values vs) ≡ ok vs
unfolding encode_values
decode-encode_values [] h = unfold decode_values in refl
decode-encode_values (v ∷ vs) (small, h) =
    rw (decode_values-encode_value v (encode_values vs) (omega arith), decode-encode_values vs h)

length-encode_values : (vs : List ℕ) → length (encode_values vs) % 5 ≡ 0
unfolding encode_values encode_value
length-encode_values [] = refl
length-encode_values (v ∷ vs) = omega (arith, length-encode_values vs)

unpack_small : (xs : Bytes) → All IsByte xs → All (λ v. v < 2 ^ 32) (unpack xs)
unfolding unpack
unpack_small [] h = tt
unpack_small (a ∷ []) h = tt
unpack_small (a ∷ b ∷ []) h = tt
unpack_small (a ∷ b ∷ c ∷ []) h = tt
unpack_small (a ∷ b ∷ c ∷ d ∷ rest) (ha, (hb, (hc, (hd, h)))) = (omega arith, unpack_small rest h)

-- A word of four bytes gives the bytes back.
pack-word :
    (a b c d : ℕ) (vs : List ℕ)
    → IsByte a
    → IsByte b
    → IsByte c
    → IsByte d
    → pack ((a * 2 ^ 24 + b * 2 ^ 16 + c * 2 ^ 8 + d) ∷ vs)
      ≡ (pack vs >>= λ rest. ok (a ∷ b ∷ c ∷ d ∷ rest))
unfolding pack
pack-word a b c d vs ha hb hc hd =
    let w = a * 2 ^ 24 + b * 2 ^ 16 + c * 2 ^ 8 + d in
    let e₀ : w / 2 ^ 24 ≡ a = omega arith in
    let e₁ : w / 2 ^ 16 % 256 ≡ b = omega arith in
    let e₂ : w / 2 ^ 8 % 256 ≡ c = omega arith in
    let e₃ : w % 256 ≡ d = omega arith in rw (lt→ltb w (2 ^ 32) (omega arith), e₀, e₁, e₂, e₃)

pack-unpack : (xs : Bytes) → All IsByte xs → length xs % 4 ≡ 0 → pack (unpack xs) ≡ ok xs
unfolding unpack
pack-unpack [] h e = unfold pack in refl
pack-unpack (a ∷ []) h e = absurd (omega arith)
pack-unpack (a ∷ b ∷ []) h e = absurd (omega arith)
pack-unpack (a ∷ b ∷ c ∷ []) h e = absurd (omega arith)
pack-unpack (a ∷ b ∷ c ∷ d ∷ rest) (ha, (hb, (hc, (hd, h)))) e =
    rw (pack-word a b c d (unpack rest) ha hb hc hd, pack-unpack rest h (omega arith))

-- Every byte string whose length is a multiple of 4 is encoded, and decoding the result gives the
-- byte string back.
pub decode-encode :
    (xs : Bytes)
    → All IsByte xs
    → length xs % 4 ≡ 0
    → (z : Bytes) × (encode xs ≡ ok z) × (decode (bytes z) ≡ ok xs)
unfolding encode decode to_bytes
decode-encode xs h e = (
  encode_values (unpack xs),
  rw ((==_iff (length xs % 4) 0).1 e),
  rw
      (
        (==_iff _ 0).1 (length-encode_values (unpack xs)),
        decode-encode_values (unpack xs) (unpack_small xs h),
      )
      (pack-unpack xs h e),
)

-- `encode` answers exactly for the lengths that are multiples of 4.
pub encode-aligned : (xs : Bytes) → length xs % 4 ≡ 0 → (z : Bytes) × (encode xs ≡ ok z)
unfolding encode
encode-aligned xs h = (encode_values (unpack xs), rw ((==_iff (length xs % 4) 0).1 h))
