-- ===== src/Z85/Inverse.antt =====
-- What `decode` accepts is what `encode` writes.
use pyzmq.Base.{
  ℕ, ◌+◌, ◌*◌, ◌/◌, ◌%◌, ◌^◌, ◌<◌, ◌≡◌, refl, ap, List, [], ◌∷◌, ◌++◌, ok, err, through,
  ok_injective, ◌==◌, ==_iff, ltb, ltb→lt, struct_error, arith, nat_eq, Bytes, length, All, inl,
  inr, value_error, Bool-cases,
}
use pyzmq.Z85.{
  z85_index, powers_85, unpack, pack, encode_value, encode_values, encode, decode_value,
  decode_values, bytes, to_bytes, decode,
}
use pyzmq.Z85.Digits.{char-z85_index}
use pyzmq.Z85.RoundTrip.{IsByte}

-- The five digits of a group, when every character has one.
digits :
    (a b c d e v : ℕ)
    → decode_value (a ∷ b ∷ c ∷ d ∷ e ∷ []) powers_85 0 ≡ ok v
    → (i j k l m : ℕ) × (z85_index a ≡ ok i)
      × (z85_index b ≡ ok j)
      × (z85_index c ≡ ok k)
      × (z85_index d ≡ ok l)
      × (z85_index e ≡ ok m)
      × (0 + i * 85 ^ 4 + j * 85 ^ 3 + k * 85 ^ 2 + l * 85 + m * 1 ≡ v)
unfolding decode_value
digits a b c d e v h =
    let (i, hi, h₁) = through _ (z85_index a) h in
    let (j, hj, h₂) = through _ (z85_index b) h₁ in
    let (k, hk, h₃) = through _ (z85_index c) h₂ in
    let (l, hl, h₄) = through _ (z85_index d) h₃ in
    let (m, hm, h₅) = through _ (z85_index e) h₄ in
    (i, j, k, l, m, hi, hj, hk, hl, hm, ok_injective h₅)

digit_at :
    (i j k l m v : ℕ)
    → i < 85
    → j < 85
    → k < 85
    → l < 85
    → m < 85
    → 0 + i * 85 ^ 4 + j * 85 ^ 3 + k * 85 ^ 2 + l * 85 + m * 1 ≡ v
    → (v / 85 ^ 4 % 85 ≡ i)
      × (v / 85 ^ 3 % 85 ≡ j)
      × (v / 85 ^ 2 % 85 ≡ k)
      × (v / 85 % 85 ≡ l)
      × (v / 1 % 85 ≡ m)
digit_at i j k l m v hi hj hk hl hm e = omega arith

encode-decode_value :
    (a b c d e v : ℕ)
    → All IsByte (a ∷ b ∷ c ∷ d ∷ e ∷ [])
    → decode_value (a ∷ b ∷ c ∷ d ∷ e ∷ []) powers_85 0 ≡ ok v
    → encode_value v ≡ a ∷ b ∷ c ∷ d ∷ e ∷ []
unfolding encode_value
encode-decode_value a b c d e v (ha, (hb, (hc, (hd, (he, _))))) h =
    let (i, j, k, l, m, hi, hj, hk, hl, hm, sum) = digits a b c d e v h in
    let (ci, bi) = char-z85_index a i ha hi in
    let (cj, bj) = char-z85_index b j hb hj in
    let (ck, bk) = char-z85_index c k hc hk in
    let (cl, bl) = char-z85_index d l hd hl in
    let (cm, bm) = char-z85_index e m he hm in
    let (ei, ej, ek, el, em) = digit_at i j k l m v bi bj bk bl bm sum in
    rw (ei, ej, ek, el, em) (rw (ci, cj, ck, cl, cm))

-- The bytes of a packed word, and the word that they make.
pack-head :
    (v : ℕ) (vs : List ℕ) (xs : Bytes)
    → pack (v ∷ vs) ≡ ok xs
    → (rest : Bytes) × (pack vs ≡ ok rest)
      × (length xs ≡ 4 + length rest)
      × (unpack xs ≡ v ∷ unpack rest)
unfolding pack unpack
pack-head v vs xs h = elim (Bool-cases (ltb v (2 ^ 32))) [
  | inl small ↦
      let (rest, e, f) = through _ (pack vs) (rw small at h) in
      (
        rest,
        e,
        rw (← ok_injective f) (omega arith),
        rw (← ok_injective f)
            (ap (λ (w : ℕ). w ∷ unpack rest) (omega (arith, ltb→lt v (2 ^ 32) small))),
      )
  | inr large ↦ absurd (let g : err struct_error ≡ ok xs = rw large at h in cc)
]

pack-nil : (xs : Bytes) → pack [] ≡ ok xs → [] ≡ xs
unfolding pack
pack-nil xs h = ok_injective h

encode_values-nil : encode_values (unpack []) ≡ []
unfolding encode_values unpack
encode_values-nil = refl

encode_values-cons :
    (v : ℕ) (vs : List ℕ) → encode_values (v ∷ vs) ≡ encode_value v ++ encode_values vs
unfolding encode_values
encode_values-cons v vs = refl

encode-decode_values :
    (z : Bytes) (vs : List ℕ) (xs : Bytes)
    → All IsByte z
    → length z % 5 ≡ 0
    → decode_values z ≡ ok vs
    → pack vs ≡ ok xs
    → (length xs % 4 ≡ 0) × (encode_values (unpack xs) ≡ z)
unfolding decode_values
encode-decode_values [] vs xs h n e p =
    let x = pack-nil xs (rw (← ok_injective e) at p) in (rw (← x), rw (← x) encode_values-nil)
encode-decode_values (a ∷ []) vs xs h n e p = absurd (omega arith)
encode-decode_values (a ∷ b ∷ []) vs xs h n e p = absurd (omega arith)
encode-decode_values (a ∷ b ∷ c ∷ []) vs xs h n e p = absurd (omega arith)
encode-decode_values (a ∷ b ∷ c ∷ d ∷ []) vs xs h n e p = absurd (omega arith)
encode-decode_values (a ∷ b ∷ c ∷ d ∷ f ∷ rest) vs xs (ha, (hb, (hc, (hd, (hf, h))))) n e p =
    let (v, ev, e₁) = through _ (decode_value (a ∷ b ∷ c ∷ d ∷ f ∷ []) powers_85 0) e in
    let (ws, ew, e₂) = through _ (decode_values rest) e₁ in
    let p' : pack (v ∷ ws) ≡ ok xs = rw (← ok_injective e₂) at p in
    let (ys, q, len, words) = pack-head v ws xs p' in
    let (aligned, same) = encode-decode_values rest ws ys h (omega arith) ew q in
    (
      omega arith,
      rw (
        words,
        encode_values-cons v (unpack ys),
        encode-decode_value a b c d f v (ha, (hb, (hc, (hd, (hf, tt))))) ev,
        same,
      ),
    )

decode-inv :
    (z xs : Bytes)
    → decode (bytes z) ≡ ok xs
    → (length z % 5 ≡ 0) × (vs : List ℕ) × (decode_values z ≡ ok vs) × (pack vs ≡ ok xs)
unfolding decode to_bytes
decode-inv z xs h = elim (Bool-cases (length z % 5 == 0)) [
  | inl whole ↦
      let (vs, e, p) = through pack (decode_values z) (rw whole at h) in
      ((==_iff (length z % 5) 0).0 whole, vs, e, p)
  | inr part ↦ absurd (let g : err value_error ≡ ok xs = rw part at h in cc)
]

-- Whatever byte string `decode` accepts, `encode` gives it back from the decoded bytes; so
-- `decode` accepts no two spellings of one byte string.
pub encode-decode : (z xs : Bytes) → All IsByte z → decode (bytes z) ≡ ok xs → encode xs ≡ ok z
unfolding encode
encode-decode z xs h d =
    let (n, vs, e, p) = decode-inv z xs d in
    let (aligned, same) = encode-decode_values z vs xs h n e p in
    rw ((==_iff (length xs % 4) 0).1 aligned) (ap ok same)
