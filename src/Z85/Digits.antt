-- ===== src/Z85/Digits.antt =====
-- The alphabet and its index are inverse to each other, checked on every digit and every byte.
use pyzmq.Base.{
  ℕ, zero, suc, ◌<◌, ◌≡◌, refl, Bool, true, false, ◌&&◌, if◌then◌else◌, none, some, ok, ◌==◌, ltb,
  get_or, arith, nat_eq,
}
use pyzmq.Base.Dict
use pyzmq.Z85.{z85chars, z85map, z85_index}

-- A test at all numbers that come before a bound, checked from the bound downwards.
passes_before : (ℕ → Bool) → ℕ → Bool
passes_before test zero = true
passes_before test (suc bound) = if test bound then passes_before test bound else false

passes_at :
    (test : ℕ → Bool) (bound k : ℕ) → passes_before test bound ≡ true → k < bound → test k ≡ true
unfolding passes_before
passes_at test zero k all below = absurd (omega arith)
passes_at test (suc bound) k all below = ground (arith, passes_at test bound k)

-- Whether the index takes the character of a digit back to the digit.
digit_returns : ℕ → Bool
digit_returns d = elim (Dict.lookup (get_or z85chars d 0) z85map) [ none ↦ false | some i ↦ i == d ]

digit_table : passes_before digit_returns 85 ≡ true
unfolding passes_before digit_returns z85map Dict.lookup
digit_table = refl

-- Whether a byte with an index is the character of that index, which is a digit.
byte_returns : ℕ → Bool
byte_returns c = elim (Dict.lookup c z85map) [
  | none ↦ true
  | some i ↦ get_or z85chars i 0 == c && ltb i 85
]

byte_table : passes_before byte_returns 256 ≡ true
unfolding passes_before byte_returns z85map Dict.lookup
byte_table = refl

pub z85_index-char : (d : ℕ) → d < 85 → z85_index (get_or z85chars d 0) ≡ ok d
unfolding z85_index digit_returns
z85_index-char d h = ground (arith, passes_at digit_returns 85 d digit_table h)

pub char-z85_index : (c d : ℕ) → c < 256 → z85_index c ≡ ok d → (get_or z85chars d 0 ≡ c) × (d < 85)
unfolding z85_index byte_returns
char-z85_index c d h e = ground (arith, passes_at byte_returns 256 c byte_table h)
