-- ===== src/Constants.antt =====
-- zmq/constants.py: the enumerations, and the constants of the module that the names stand for.
pub mod Options
pub mod Names
pub mod OptionNames
pub mod Globals
pub mod Tests
use pyzmq.Base.{
  ℕ, Bool, true, false, List, [], ◌∷◌, ◌++◌, Option, none, some, Bytes, codes, if◌then◌else◌,
}
use pyzmq.Base.Dict
use pyzmq.Base.Dict.{Dict}

abbrev pub Enumeration : Type 0
Enumeration = Dict Bytes ℕ

abbrev pub socket_events : Enumeration
socket_events =
    (codes "CONNECTED", 1)
    ∷ (codes "CONNECT_DELAYED", 2)
    ∷ (codes "CONNECT_RETRIED", 4)
    ∷ (codes "LISTENING", 8)
    ∷ (codes "BIND_FAILED", 16)
    ∷ (codes "ACCEPTED", 32)
    ∷ (codes "ACCEPT_FAILED", 64)
    ∷ (codes "CLOSED", 128)
    ∷ (codes "CLOSE_FAILED", 256)
    ∷ (codes "DISCONNECTED", 512)
    ∷ (codes "MONITOR_STOPPED", 1024)
    ∷ (codes "ALL", 65535)
    ∷ (codes "HANDSHAKE_FAILED_NO_DETAIL", 2048)
    ∷ (codes "HANDSHAKE_SUCCEEDED", 4096)
    ∷ (codes "HANDSHAKE_FAILED_PROTOCOL", 8192)
    ∷ (codes "HANDSHAKE_FAILED_AUTH", 16384)
    ∷ []

abbrev pub protocol_errors : Enumeration
protocol_errors =
    (codes "PROTOCOL_ERROR_ZMTP_UNSPECIFIED", 268435456)
    ∷ (codes "PROTOCOL_ERROR_ZMTP_UNEXPECTED_COMMAND", 268435457)
    ∷ (codes "PROTOCOL_ERROR_ZMTP_INVALID_SEQUENCE", 268435458)
    ∷ (codes "PROTOCOL_ERROR_ZMTP_KEY_EXCHANGE", 268435459)
    ∷ (codes "PROTOCOL_ERROR_ZMTP_MALFORMED_COMMAND_UNSPECIFIED", 268435473)
    ∷ (codes "PROTOCOL_ERROR_ZMTP_MALFORMED_COMMAND_MESSAGE", 268435474)
    ∷ (codes "PROTOCOL_ERROR_ZMTP_MALFORMED_COMMAND_HELLO", 268435475)
    ∷ (codes "PROTOCOL_ERROR_ZMTP_MALFORMED_COMMAND_INITIATE", 268435476)
    ∷ (codes "PROTOCOL_ERROR_ZMTP_MALFORMED_COMMAND_ERROR", 268435477)
    ∷ (codes "PROTOCOL_ERROR_ZMTP_MALFORMED_COMMAND_READY", 268435478)
    ∷ (codes "PROTOCOL_ERROR_ZMTP_MALFORMED_COMMAND_WELCOME", 268435479)
    ∷ (codes "PROTOCOL_ERROR_ZMTP_INVALID_METADATA", 268435480)
    ∷ (codes "PROTOCOL_ERROR_ZMTP_CRYPTOGRAPHIC", 285212673)
    ∷ (codes "PROTOCOL_ERROR_ZMTP_MECHANISM_MISMATCH", 285212674)
    ∷ (codes "PROTOCOL_ERROR_ZAP_UNSPECIFIED", 536870912)
    ∷ (codes "PROTOCOL_ERROR_ZAP_MALFORMED_REPLY", 536870913)
    ∷ (codes "PROTOCOL_ERROR_ZAP_BAD_REQUEST_ID", 536870914)
    ∷ (codes "PROTOCOL_ERROR_ZAP_BAD_VERSION", 536870915)
    ∷ (codes "PROTOCOL_ERROR_ZAP_INVALID_STATUS_CODE", 536870916)
    ∷ (codes "PROTOCOL_ERROR_ZAP_INVALID_METADATA", 536870917)
    ∷ (codes "PROTOCOL_ERROR_WS_UNSPECIFIED", 805306368)
    ∷ (codes "PIPES_STATS", 65536)
    ∷ (codes "ALL_V1", 65535)
    ∷ (codes "ALL_V2", 131071)
    ∷ []

abbrev pub events : Enumeration
events = socket_events ++ protocol_errors

-- `ContextOption`
abbrev pub context_options : Enumeration
context_options =
    (codes "IO_THREADS", 1)
    ∷ (codes "MAX_SOCKETS", 2)
    ∷ (codes "SOCKET_LIMIT", 3)
    ∷ (codes "THREAD_PRIORITY", 3)
    ∷ (codes "THREAD_SCHED_POLICY", 4)
    ∷ (codes "MAX_MSGSZ", 5)
    ∷ (codes "MSG_T_SIZE", 6)
    ∷ (codes "THREAD_AFFINITY_CPU_ADD", 7)
    ∷ (codes "THREAD_AFFINITY_CPU_REMOVE", 8)
    ∷ (codes "THREAD_NAME_PREFIX", 9)
    ∷ []

-- `SocketType`
abbrev pub socket_types : Enumeration
socket_types =
    (codes "PAIR", 0)
    ∷ (codes "PUB", 1)
    ∷ (codes "SUB", 2)
    ∷ (codes "REQ", 3)
    ∷ (codes "REP", 4)
    ∷ (codes "DEALER", 5)
    ∷ (codes "ROUTER", 6)
    ∷ (codes "PULL", 7)
    ∷ (codes "PUSH", 8)
    ∷ (codes "XPUB", 9)
    ∷ (codes "XSUB", 10)
    ∷ (codes "STREAM", 11)
    ∷ (codes "XREQ", 5)
    ∷ (codes "XREP", 6)
    ∷ (codes "SERVER", 12)
    ∷ (codes "CLIENT", 13)
    ∷ (codes "RADIO", 14)
    ∷ (codes "DISH", 15)
    ∷ (codes "GATHER", 16)
    ∷ (codes "SCATTER", 17)
    ∷ (codes "DGRAM", 18)
    ∷ (codes "PEER", 19)
    ∷ (codes "CHANNEL", 20)
    ∷ []

-- `MessageOption`
abbrev pub message_options : Enumeration
message_options = (codes "MORE", 1) ∷ (codes "SHARED", 3) ∷ (codes "SRCFD", 2) ∷ []

-- `Flag`
abbrev pub flags : Enumeration
flags = (codes "DONTWAIT", 1) ∷ (codes "SNDMORE", 2) ∷ (codes "NOBLOCK", 1) ∷ []

-- `SecurityMechanism`
abbrev pub mechanisms : Enumeration
mechanisms = (codes "NULL", 0) ∷ (codes "PLAIN", 1) ∷ (codes "CURVE", 2) ∷ (codes "GSSAPI", 3) ∷ []

-- `PollEvent`
abbrev pub poll_events : Enumeration
poll_events =
    (codes "POLLIN", 1) ∷ (codes "POLLOUT", 2) ∷ (codes "POLLERR", 4) ∷ (codes "POLLPRI", 8) ∷ []

-- `DeviceType`
abbrev pub device_types : Enumeration
device_types = (codes "STREAMER", 1) ∷ (codes "FORWARDER", 2) ∷ (codes "QUEUE", 3) ∷ []

-- `Errno`: on Windows these are fixed, elsewhere they are the defaults of numbers that the platform lacks.
abbrev pub windows_errnos : Enumeration
windows_errnos =
    (codes "ENOTSUP", 129)
    ∷ (codes "EPROTONOSUPPORT", 135)
    ∷ (codes "ENOBUFS", 119)
    ∷ (codes "ENETDOWN", 116)
    ∷ (codes "EADDRINUSE", 100)
    ∷ (codes "EADDRNOTAVAIL", 101)
    ∷ (codes "ECONNREFUSED", 107)
    ∷ (codes "EINPROGRESS", 112)
    ∷ (codes "ENOTSOCK", 128)
    ∷ (codes "EMSGSIZE", 115)
    ∷ (codes "EAFNOSUPPORT", 102)
    ∷ (codes "ENETUNREACH", 118)
    ∷ (codes "ECONNABORTED", 106)
    ∷ (codes "ECONNRESET", 108)
    ∷ (codes "ENOTCONN", 126)
    ∷ (codes "ETIMEDOUT", 138)
    ∷ (codes "EHOSTUNREACH", 110)
    ∷ (codes "ENETRESET", 117)
    ∷ []

abbrev pub default_errnos : Enumeration
default_errnos =
    (codes "ENOTSUP", 156384713)
    ∷ (codes "EPROTONOSUPPORT", 156384714)
    ∷ (codes "ENOBUFS", 156384715)
    ∷ (codes "ENETDOWN", 156384716)
    ∷ (codes "EADDRINUSE", 156384717)
    ∷ (codes "EADDRNOTAVAIL", 156384718)
    ∷ (codes "ECONNREFUSED", 156384719)
    ∷ (codes "EINPROGRESS", 156384720)
    ∷ (codes "ENOTSOCK", 156384721)
    ∷ (codes "EMSGSIZE", 156384722)
    ∷ (codes "EAFNOSUPPORT", 156384723)
    ∷ (codes "ENETUNREACH", 156384724)
    ∷ (codes "ECONNABORTED", 156384725)
    ∷ (codes "ECONNRESET", 156384726)
    ∷ (codes "ENOTCONN", 156384727)
    ∷ (codes "ETIMEDOUT", 156384728)
    ∷ (codes "EHOSTUNREACH", 156384729)
    ∷ (codes "ENETRESET", 156384730)
    ∷ []

-- The numbers of libzmq itself.
abbrev pub native_errnos : Enumeration
native_errnos =
    (codes "EFSM", 156384763)
    ∷ (codes "ENOCOMPATPROTO", 156384764)
    ∷ (codes "ETERM", 156384765)
    ∷ (codes "EMTHREAD", 156384766)
    ∷ []

-- Python's `errno`, which always has the first three.
pub record Platform : Type 0 where
  pub on_windows : Bool
  pub eagain : ℕ
  pub efault : ℕ
  pub einval : ℕ
  pub errno : Bytes → Option ℕ

-- `getattr(errno, name, default)` for each name
unfoldable pub with_defaults : Platform → Enumeration → Enumeration
with_defaults platform [] = []
with_defaults platform ((name, default) ∷ names) =
    let rest = with_defaults platform names in
    elim (platform.errno name) [ none ↦ (name, default) ∷ rest | some n ↦ (name, n) ∷ rest ]

unfoldable pub errnos : Platform → Enumeration
unfolding with_defaults
errnos platform =
    (codes "EAGAIN", platform.eagain)
      ∷ (codes "EFAULT", platform.efault)
      ∷ (codes "EINVAL", platform.einval)
      ∷ (if platform.on_windows then windows_errnos else with_defaults platform default_errnos)
    ++ native_errnos
