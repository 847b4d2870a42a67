-- ===== src/Constants/Tests.antt =====
-- Every constant of the module is bound: a Linux platform, on which all the error numbers are known.
use pyzmq.Base.{◌≡◌, refl, false, some, none, codes, length, bytes_beq, bytes_eq}
use pyzmq.Base.Dict
use pyzmq.Constants.{Platform, errnos, with_defaults}
use pyzmq.Constants.Options.{socket_options, type_of, bytes_option}
use pyzmq.Constants.Globals.{constants, bound, numbers}

abbrev lacking : Platform
lacking = record { on_windows = false; eagain = 11; efault = 14; einval = 22; errno = λ name. none }

all_bound : length (constants lacking) ≡ 222
unfolding constants bound numbers errnos with_defaults Dict.lookup bytes_beq
all_bound = refl

identity_is_routing_id : Dict.lookup (codes "IDENTITY") (constants lacking) ≡ some 5
unfolding constants bound numbers errnos with_defaults Dict.lookup bytes_beq
identity_is_routing_id = refl

routing_id_is_bytes : type_of 5 socket_options ≡ some bytes_option
unfolding type_of
routing_id_is_bytes = refl
