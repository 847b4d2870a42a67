-- ===== src/Monitor/Fields.antt =====
-- The two numbers of a monitor message: their ranges, and reading back what was written.
use pyzmq.Base.{
  ℕ, ◌+◌, ◌-◌, ◌/◌, ◌%◌, ◌^◌, ◌<◌, ◌≡◌, refl, ◌∙◌, Bool, true, false, [], ◌∷◌, ◌++◌, ok, arith,
  if◌then◌else◌, ltb, Bytes, length, All, ok_injective,
}
use pyzmq.Base.Int.{ℤ, pos, negsuc}
use mathlib.Core.Path.{subst}
use pyzmq.Monitor.{
  MonitorMessage, signed, from_bytes, ordered, unpack, as_message, parse_monitor_message,
}

-- The numbers from -half on and below half.
abbrev pub InRange : ℕ → ℤ → Type 0
InRange half (pos n) = n < half
InRange half (negsuc n) = n < half

-- What libzmq does: the pattern of bits of a number, in two's complement, and its bytes.
pub unsigned : ℕ → ℤ → ℕ
unsigned half (pos n) = n
unsigned half (negsuc n) = half + half - 1 - n

pub to_bytes_2 : ℕ → Bytes
to_bytes_2 n = n % 256 ∷ n / 256 % 256 ∷ []

pub to_bytes_4 : ℕ → Bytes
to_bytes_4 n = n % 256 ∷ n / 256 % 256 ∷ n / 65536 % 256 ∷ n / 16777216 % 256 ∷ []

pub pack : Bool → ℤ → ℤ → Bytes
unfolding unsigned to_bytes_2 to_bytes_4
pack little event value =
    ordered little (to_bytes_2 (unsigned (2 ^ 15) event))
    ++ ordered little (to_bytes_4 (unsigned (2 ^ 31) value))

signed-unsigned : (half : ℕ) (z : ℤ) → InRange half z → signed half (unsigned half z) ≡ z
unfolding signed unsigned
signed-unsigned half (pos n) h = ground arith
signed-unsigned half (negsuc n) h = ground arith

unsigned-lt : (half : ℕ) (z : ℤ) → InRange half z → unsigned half z < half + half
unfolding unsigned
unsigned-lt half (pos n) h = omega arith
unsigned-lt half (negsuc n) h = omega arith

from_bytes-to_bytes_2 : (n : ℕ) → n < 65536 → from_bytes (to_bytes_2 n) ≡ n
unfolding from_bytes to_bytes_2
from_bytes-to_bytes_2 n h = omega arith

from_bytes-to_bytes_4 : (n : ℕ) → n < 4294967296 → from_bytes (to_bytes_4 n) ≡ n
unfolding from_bytes to_bytes_4
from_bytes-to_bytes_4 n h = omega arith

-- Either order is undone by itself.
unpack-ordered :
    (little : Bool) (a b c d e f : ℕ)
    → unpack little (ordered little (a ∷ b ∷ []) ++ ordered little (c ∷ d ∷ e ∷ f ∷ []))
      ≡ ok (
        signed (2 ^ 15) (from_bytes (a ∷ b ∷ [])),
        signed (2 ^ 31) (from_bytes (c ∷ d ∷ e ∷ f ∷ [])),
      )
unfolding unpack ordered
unpack-ordered true a b c d e f = refl
unpack-ordered false a b c d e f = refl

length-pack : (little : Bool) (event value : ℤ) → length (pack little event value) ≡ 6
unfolding pack to_bytes_2 to_bytes_4 ordered
length-pack true event value = refl
length-pack false event value = refl

module _ (little : Bool) where
  unpack-pack :
      (event value : ℤ)
      → InRange (2 ^ 15) event
      → InRange (2 ^ 31) value
      → unpack little (pack little event value) ≡ ok (event, value)
  unfolding pack to_bytes_2 to_bytes_4
  unpack-pack event value h k =
      unpack-ordered little _ _ _ _ _ _
      ∙ rw
          (
            from_bytes-to_bytes_2 (unsigned (2 ^ 15) event) (unsigned-lt (2 ^ 15) event h),
            from_bytes-to_bytes_4 (unsigned (2 ^ 31) value) (unsigned-lt (2 ^ 31) value k),
            signed-unsigned (2 ^ 15) event h,
            signed-unsigned (2 ^ 31) value k,
          )
          refl

  -- A message whose first frame is a 16 bit event and a 32 bit value, both signed, in the byte order of
  -- the machine, is read as that event, that value and the second frame.
  pub parse_monitor_message-pack :
      (event value : ℤ) (endpoint : Bytes)
      → InRange (2 ^ 15) event
      → InRange (2 ^ 31) value
      → parse_monitor_message little (pack little event value ∷ endpoint ∷ [])
        ≡ ok (record { event = event; value = value; endpoint = endpoint })
  unfolding parse_monitor_message as_message
  parse_monitor_message-pack event value endpoint h k =
      rw (length-pack little event value, unpack-pack event value h k) refl

signed-InRange : (half n : ℕ) → n < half + half → InRange half (signed half n)
unfolding signed
signed-InRange half n h = go (ltb n half) refl
  where
    go :
        (b : Bool)
        → ltb n half ≡ b
        → InRange half (if b then pos n else negsuc (half + half - 1 - n))
    go true e = ground arith
    go false e = ground arith

ordered-lt_2 :
    (little : Bool) (a b : ℕ) → a < 256 → b < 256 → from_bytes (ordered little (a ∷ b ∷ [])) < 65536
unfolding from_bytes ordered
ordered-lt_2 true a b h k = omega arith
ordered-lt_2 false a b h k = omega arith

ordered-lt_4 :
    (little : Bool) (a b c d : ℕ)
    → a < 256
    → b < 256
    → c < 256
    → d < 256
    → from_bytes (ordered little (a ∷ b ∷ c ∷ d ∷ [])) < 4294967296
unfolding from_bytes ordered
ordered-lt_4 true a b c d h k l m = omega arith
ordered-lt_4 false a b c d h k l m = omega arith

-- What was read from a first frame lies in the ranges of 16 and 32 bit signed numbers.
pub parse_monitor_message-InRange :
    (little : Bool) (first endpoint : Bytes) (m : MonitorMessage)
    → All (λ b. b < 256) first
    → parse_monitor_message little (first ∷ endpoint ∷ []) ≡ ok m
    → InRange (2 ^ 15) m.event
      × InRange (2 ^ 31) m.value
      × (length first ≡ 6)
      × (m.endpoint ≡ endpoint)
unfolding parse_monitor_message as_message unpack
parse_monitor_message-InRange little (a ∷ b ∷ c ∷ d ∷ e ∷ f ∷ []) endpoint m
      (ha, (hb, (hc, (hd, (he, (hf, _)))))) h =
    subst
      (λ m.
        InRange (2 ^ 15) m.event
        × InRange (2 ^ 31) m.value
        × (length (a ∷ b ∷ c ∷ d ∷ e ∷ f ∷ []) ≡ 6)
        × (m.endpoint ≡ endpoint))
      (ok_injective h)
      (
        signed-InRange (2 ^ 15) _ (ordered-lt_2 little a b ha hb),
        signed-InRange (2 ^ 31) _ (ordered-lt_4 little c d e f hc hd he hf),
        refl,
        refl,
      )
parse_monitor_message-InRange little _ endpoint m _ h = absurd (ground arith)
