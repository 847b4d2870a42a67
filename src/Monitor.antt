-- ===== src/Monitor.antt =====
-- zmq/utils/monitor.py: the messages of a monitor socket. `struct.unpack("=hi", …)` reads a signed 16
-- bit number and a signed 32 bit number without padding, in the byte order of the machine.
pub mod Fields
pub mod Tests
use pyzmq.Base.{
  ℕ, ◌+◌, ◌-◌, ◌*◌, ◌^◌, Bool, true, false, Option, none, some, List, [], ◌∷◌, ◌++◌, Result, ok,
  err, runtime_error, struct_error, if◌then◌else◌, ◌==◌, ltb, Bytes, length,
}
use pyzmq.Base.Exec.{Exec, ◌>>=◌, ◌>>◌}
use pyzmq.Base.Int.{ℤ, pos, negsuc}
use pyzmq.Errors.{check_version}
use pyzmq.Socket.{Driver, Kwargs, recv_multipart}

-- The dictionary that is answered.
pub record MonitorMessage : Type 0 where
  pub event : ℤ
  pub value : ℤ
  pub endpoint : Bytes

-- The signed reading of a pattern of bits, of which `half` is the highest.
unfoldable pub signed : ℕ → ℕ → ℤ
signed half n = if ltb n half then pos n else negsuc (half + half - 1 - n)

-- The unsigned reading of bytes, the lowest first or the highest first.
unfoldable pub from_bytes : Bytes → ℕ
from_bytes [] = 0
from_bytes (b ∷ bs) = b + 256 * from_bytes bs

unfoldable pub ordered : Bool → Bytes → Bytes
ordered little [] = []
ordered little (b ∷ bs) =
    let rest = ordered little bs in if little then b ∷ rest else rest ++ (b ∷ [])

-- `struct.unpack("=hi", …)`
unfoldable pub unpack : Bool → Bytes → Result (ℤ × ℤ)
unfolding signed from_bytes ordered
unpack little (a ∷ b ∷ c ∷ d ∷ e ∷ f ∷ []) = ok (
  signed (2 ^ 15) (from_bytes (ordered little (a ∷ b ∷ []))),
  signed (2 ^ 31) (from_bytes (ordered little (c ∷ d ∷ e ∷ f ∷ []))),
)
unpack little bs = err struct_error

unfoldable pub as_message : Bytes → Result (ℤ × ℤ) → Result MonitorMessage
as_message endpoint (ok (event_id, value)) =
    ok (record { event = event_id; value = value; endpoint = endpoint })
as_message endpoint (err e) = err e

unfoldable pub parse_monitor_message : Bool → List Bytes → Result MonitorMessage
unfolding unpack as_message
parse_monitor_message little (first ∷ endpoint ∷ []) =
    if length first == 6 then as_message endpoint (unpack little first) else err runtime_error
parse_monitor_message little msg = err runtime_error

-- `none` means that the fuel of the receiving loop was used up.
pub parse_received : {Net : Type 0} → Bool → Option (List Bytes) → Exec Net (Option MonitorMessage)
parse_received little none net = (ok none, net)
parse_received little (some msg) net = elim (parse_monitor_message little msg) [
  | ok m ↦ (ok (some m), net)
  | err e ↦ (err e, net)
]

pub recv_monitor_message :
    {Net : Type 0} → Driver Net → Bool → List ℕ → ℕ → ℕ → Kwargs → Exec Net (Option MonitorMessage)
unfolding parse_received
recv_monitor_message drv little version_info fuel flags kwargs =
    (λ net. (check_version version_info (4 ∷ 0 ∷ []), net))
    >> (recv_multipart drv fuel flags kwargs >>= parse_received little)
