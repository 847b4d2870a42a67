-- ===== src/Monitor/Tests.antt =====
-- A HANDSHAKE_FAILED_NO_DETAIL event (0x0800) with the value -2, and a frame as it comes.
use pyzmq.Base.{◌≡◌, refl, arith, true, false, [], ◌∷◌, ok, codes, Bytes, length}
use pyzmq.Base.Int.{pos, negsuc}
use pyzmq.Monitor.{
  MonitorMessage, signed, from_bytes, ordered, unpack, as_message, parse_monitor_message,
}
use pyzmq.Monitor.Fields.{InRange, pack, parse_monitor_message-pack, parse_monitor_message-InRange}

parse_monitor_message-pack_example :
    parse_monitor_message true (pack true (pos 2048) (negsuc 1) ∷ codes "tcp://h:1" ∷ [])
    ≡ ok (record { event = pos 2048; value = negsuc 1; endpoint = codes "tcp://h:1" })
parse_monitor_message-pack_example =
    parse_monitor_message-pack true (pos 2048) (negsuc 1) (codes "tcp://h:1") (omega arith)
      (omega arith)

abbrev frame : Bytes
frame = 128 ∷ 1 ∷ 0 ∷ 0 ∷ 0 ∷ 7 ∷ []

abbrev read : MonitorMessage
read = record { event = negsuc 32766; value = pos 7; endpoint = [] }

is_read : parse_monitor_message false (frame ∷ [] ∷ []) ≡ ok read
unfolding parse_monitor_message unpack signed from_bytes ordered as_message
is_read = refl

parse_monitor_message-InRange_example :
    InRange 32768 (negsuc 32766)
    × InRange 2147483648 (pos 7)
    × (length frame ≡ 6)
    × (read.endpoint ≡ [])
parse_monitor_message-InRange_example =
    parse_monitor_message-InRange false frame [] read
      (omega arith, (omega arith, (omega arith, (omega arith, (omega arith, (omega arith, tt))))))
      is_read
