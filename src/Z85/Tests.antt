-- ===== src/Z85/Tests.antt =====
-- Z85 on concrete byte strings: the example of the ZeroMQ RFC 32.
use pyzmq.Base.{◌≡◌, refl, [], ◌∷◌, ok, Bytes, codes, All, arith}
use pyzmq.Z85.{
  encode, unpack, encode_values, encode_value, decode, bytes, to_bytes, decode_values, decode_value,
  z85_index, z85map, enumerated, pack,
}
use pyzmq.Base.Dict
use pyzmq.Z85.RoundTrip.{IsByte, decode-encode}
use pyzmq.Z85.Inverse.{encode-decode}

abbrev raw : Bytes
raw = 134 ∷ 79 ∷ 210 ∷ 111 ∷ 181 ∷ 89 ∷ 247 ∷ 91 ∷ []

encodes : encode raw ≡ ok (codes "HelloWorld")
unfolding encode unpack encode_values encode_value
encodes = refl

decodes : decode (bytes (codes "HelloWorld")) ≡ ok raw
unfolding decode to_bytes decode_values decode_value z85_index z85map enumerated pack Dict.lookup
    Dict.insert
decodes = refl

raw-IsByte : All IsByte raw
raw-IsByte = (
  omega arith,
  (
    omega arith,
    (omega arith, (omega arith, (omega arith, (omega arith, (omega arith, (omega arith, tt)))))),
  ),
)

text-IsByte : All IsByte (codes "HelloWorld")
text-IsByte = (
  omega arith,
  (
    omega arith,
    (
      omega arith,
      (
        omega arith,
        (
          omega arith,
          (omega arith, (omega arith, (omega arith, (omega arith, (omega arith, tt))))),
        ),
      ),
    ),
  ),
)

decode-encode_example : (z : Bytes) × (encode raw ≡ ok z) × (decode (bytes z) ≡ ok raw)
decode-encode_example = decode-encode raw raw-IsByte refl

encode-decode_example : encode raw ≡ ok (codes "HelloWorld")
encode-decode_example = encode-decode (codes "HelloWorld") raw text-IsByte decodes
