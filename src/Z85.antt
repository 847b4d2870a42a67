-- ===== src/Z85.antt =====
-- zmq/utils/z85.py: Z85, which writes 4 bytes as 5 characters of base 85.
pub mod Digits
pub mod RoundTrip
pub mod Inverse
pub mod Tests
use pyzmq.Base.{
  ℕ, zero, suc, ◌+◌, ◌*◌, ◌/◌, ◌%◌, ◌^◌, Bool, true, false, ◌&&◌, Option, none, some, List, [], ◌∷◌,
  ◌++◌, map, Result, ok, err, ◌>>=◌, value_error, key_error, struct_error, if◌then◌else◌, ◌==◌, ltb,
  nat_eq, Bytes, codes, length, get_or,
}
use pyzmq.Base.Dict
use pyzmq.Base.Dict.{Dict}

-- `Z85CHARS`
abbrev pub z85chars : Bytes
z85chars =
    codes "0123456789abcdefghijklmnopqrstuvwxyzABCDEFGHIJKLMNOPQRSTUVWXYZ.-:+=^!/*?&<>()[]{}@%$#"

-- `{c: idx for idx, c in enumerate(Z85CHARS)}`, from the index `i` on
enumerated : ℕ → Bytes → Dict ℕ ℕ → Dict ℕ ℕ
enumerated i [] m = m
enumerated i (c ∷ cs) m = enumerated (i + 1) cs (Dict.insert c i m)

-- `Z85MAP`
pub z85map : Dict ℕ ℕ
unfolding enumerated Dict.insert
z85map = enumerated 0 z85chars []

-- `_85s`, the powers of 85 from the highest on
abbrev pub powers_85 : List ℕ
powers_85 = 85 ^ 4 ∷ 85 ^ 3 ∷ 85 ^ 2 ∷ 85 ∷ 1 ∷ []

-- `struct.unpack('>nI', …)` of whole words, big endian
pub unpack : Bytes → List ℕ
unpack (a ∷ b ∷ c ∷ d ∷ rest) = (a * 2 ^ 24 + b * 2 ^ 16 + c * 2 ^ 8 + d) ∷ unpack rest
unpack _ = []

-- `struct.pack('>nI', …)`; a value that does not fit 32 bits is refused.
pub pack : List ℕ → Result Bytes
pack [] = ok []
pack (v ∷ vs) =
    if ltb v (2 ^ 32)
    then (do
      rest ← pack vs
      ok ((v / 2 ^ 24) ∷ (v / 2 ^ 16 % 256) ∷ (v / 2 ^ 8 % 256) ∷ (v % 256) ∷ rest))
    else err struct_error

-- `Z85CHARS[(v // offset) % 85]` for each offset
pub encode_value : ℕ → Bytes
encode_value v = map (λ offset. get_or z85chars (v / offset % 85) 0) powers_85

pub encode_values : List ℕ → Bytes
encode_values [] = []
encode_values (v ∷ vs) = encode_value v ++ encode_values vs

pub encode : Bytes → Result Bytes
encode rawbytes =
    if length rawbytes % 4 == 0 then ok (encode_values (unpack rawbytes)) else err value_error

-- `Z85MAP[c]`
pub z85_index : ℕ → Result ℕ
z85_index c = elim (Dict.lookup c z85map) [ none ↦ err key_error | some d ↦ ok d ]

-- `value += Z85MAP[z85bytes[i + j]] * offset` over one group and the powers
pub decode_value : Bytes → List ℕ → ℕ → Result ℕ
decode_value (c ∷ cs) (offset ∷ offsets) value = do
  d ← z85_index c
  decode_value cs offsets (value + d * offset)
decode_value _ _ value = ok value

pub decode_values : Bytes → Result (List ℕ)
decode_values (a ∷ b ∷ c ∷ d ∷ e ∷ rest) = do
  value ← decode_value (a ∷ b ∷ c ∷ d ∷ e ∷ []) powers_85 0
  values ← decode_values rest
  ok (value ∷ values)
decode_values _ = ok []

-- The argument of `decode`: a `str`, as its code points, or bytes.
pub data Input : Type 0 where
  str bytes : Bytes → Input

all_ascii : Bytes → Bool
all_ascii [] = true
all_ascii (c ∷ cs) = ltb c 128 && all_ascii cs

-- `z85bytes.encode('ascii')`, and its failure as a `ValueError`
pub to_bytes : Input → Result Bytes
unfolding all_ascii
to_bytes (str cs) = if all_ascii cs then ok cs else err value_error
to_bytes (bytes bs) = ok bs

pub decode : Input → Result Bytes
decode z85bytes = do
  bs ← to_bytes z85bytes
  if length bs % 5 == 0 then decode_values bs >>= pack else err value_error
