-- ===== src/Constants/Names.antt =====
-- The names that zmq/constants.py binds to members of the enumerations, but for the socket options.
use pyzmq.Base.{List, [], ◌∷◌, Bytes, codes}

-- `NAME: int = Enumeration.MEMBER` binds a name to a member.
abbrev pub Binding : Type 0
Binding = Bytes × Bytes

abbrev pub context_option_globals : List Binding
context_option_globals =
    (codes "IO_THREADS", codes "IO_THREADS")
    ∷ (codes "MAX_SOCKETS", codes "MAX_SOCKETS")
    ∷ (codes "SOCKET_LIMIT", codes "SOCKET_LIMIT")
    ∷ (codes "THREAD_PRIORITY", codes "THREAD_PRIORITY")
    ∷ (codes "THREAD_SCHED_POLICY", codes "THREAD_SCHED_POLICY")
    ∷ (codes "MAX_MSGSZ", codes "MAX_MSGSZ")
    ∷ (codes "MSG_T_SIZE", codes "MSG_T_SIZE")
    ∷ (codes "THREAD_AFFINITY_CPU_ADD", codes "THREAD_AFFINITY_CPU_ADD")
    ∷ (codes "THREAD_AFFINITY_CPU_REMOVE", codes "THREAD_AFFINITY_CPU_REMOVE")
    ∷ (codes "THREAD_NAME_PREFIX", codes "THREAD_NAME_PREFIX")
    ∷ []

abbrev pub device_type_globals : List Binding
device_type_globals =
    (codes "STREAMER", codes "STREAMER")
    ∷ (codes "FORWARDER", codes "FORWARDER")
    ∷ (codes "QUEUE", codes "QUEUE")
    ∷ []

abbrev pub errno_globals : List Binding
errno_globals =
    (codes "EAGAIN", codes "EAGAIN")
    ∷ (codes "EFAULT", codes "EFAULT")
    ∷ (codes "EINVAL", codes "EINVAL")
    ∷ (codes "ENOTSUP", codes "ENOTSUP")
    ∷ (codes "EPROTONOSUPPORT", codes "EPROTONOSUPPORT")
    ∷ (codes "ENOBUFS", codes "ENOBUFS")
    ∷ (codes "ENETDOWN", codes "ENETDOWN")
    ∷ (codes "EADDRINUSE", codes "EADDRINUSE")
    ∷ (codes "EADDRNOTAVAIL", codes "EADDRNOTAVAIL")
    ∷ (codes "ECONNREFUSED", codes "ECONNREFUSED")
    ∷ (codes "EINPROGRESS", codes "EINPROGRESS")
    ∷ (codes "ENOTSOCK", codes "ENOTSOCK")
    ∷ (codes "EMSGSIZE", codes "EMSGSIZE")
    ∷ (codes "EAFNOSUPPORT", codes "EAFNOSUPPORT")
    ∷ (codes "ENETUNREACH", codes "ENETUNREACH")
    ∷ (codes "ECONNABORTED", codes "ECONNABORTED")
    ∷ (codes "ECONNRESET", codes "ECONNRESET")
    ∷ (codes "ENOTCONN", codes "ENOTCONN")
    ∷ (codes "ETIMEDOUT", codes "ETIMEDOUT")
    ∷ (codes "EHOSTUNREACH", codes "EHOSTUNREACH")
    ∷ (codes "ENETRESET", codes "ENETRESET")
    ∷ (codes "EFSM", codes "EFSM")
    ∷ (codes "ENOCOMPATPROTO", codes "ENOCOMPATPROTO")
    ∷ (codes "ETERM", codes "ETERM")
    ∷ (codes "EMTHREAD", codes "EMTHREAD")
    ∷ []

abbrev pub event_globals : List Binding
event_globals =
    (codes "EVENT_CONNECTED", codes "CONNECTED")
    ∷ (codes "EVENT_CONNECT_DELAYED", codes "CONNECT_DELAYED")
    ∷ (codes "EVENT_CONNECT_RETRIED", codes "CONNECT_RETRIED")
    ∷ (codes "EVENT_LISTENING", codes "LISTENING")
    ∷ (codes "EVENT_BIND_FAILED", codes "BIND_FAILED")
    ∷ (codes "EVENT_ACCEPTED", codes "ACCEPTED")
    ∷ (codes "EVENT_ACCEPT_FAILED", codes "ACCEPT_FAILED")
    ∷ (codes "EVENT_CLOSED", codes "CLOSED")
    ∷ (codes "EVENT_CLOSE_FAILED", codes "CLOSE_FAILED")
    ∷ (codes "EVENT_DISCONNECTED", codes "DISCONNECTED")
    ∷ (codes "EVENT_MONITOR_STOPPED", codes "MONITOR_STOPPED")
    ∷ (codes "EVENT_ALL", codes "ALL")
    ∷ (codes "HANDSHAKE_FAILED_NO_DETAIL", codes "HANDSHAKE_FAILED_NO_DETAIL")
    ∷ (codes "HANDSHAKE_SUCCEEDED", codes "HANDSHAKE_SUCCEEDED")
    ∷ (codes "HANDSHAKE_FAILED_PROTOCOL", codes "HANDSHAKE_FAILED_PROTOCOL")
    ∷ (codes "HANDSHAKE_FAILED_AUTH", codes "HANDSHAKE_FAILED_AUTH")
    ∷ (codes "PROTOCOL_ERROR_ZMTP_UNSPECIFIED", codes "PROTOCOL_ERROR_ZMTP_UNSPECIFIED")
    ∷ (
      codes "PROTOCOL_ERROR_ZMTP_UNEXPECTED_COMMAND",
      codes "PROTOCOL_ERROR_ZMTP_UNEXPECTED_COMMAND",
    )
    ∷ (codes "PROTOCOL_ERROR_ZMTP_INVALID_SEQUENCE", codes "PROTOCOL_ERROR_ZMTP_INVALID_SEQUENCE")
    ∷ (codes "PROTOCOL_ERROR_ZMTP_KEY_EXCHANGE", codes "PROTOCOL_ERROR_ZMTP_KEY_EXCHANGE")
    ∷ (
      codes "PROTOCOL_ERROR_ZMTP_MALFORMED_COMMAND_UNSPECIFIED",
      codes "PROTOCOL_ERROR_ZMTP_MALFORMED_COMMAND_UNSPECIFIED",
    )
    ∷ (
      codes "PROTOCOL_ERROR_ZMTP_MALFORMED_COMMAND_MESSAGE",
      codes "PROTOCOL_ERROR_ZMTP_MALFORMED_COMMAND_MESSAGE",
    )
    ∷ (
      codes "PROTOCOL_ERROR_ZMTP_MALFORMED_COMMAND_HELLO",
      codes "PROTOCOL_ERROR_ZMTP_MALFORMED_COMMAND_HELLO",
    )
    ∷ (
      codes "PROTOCOL_ERROR_ZMTP_MALFORMED_COMMAND_INITIATE",
      codes "PROTOCOL_ERROR_ZMTP_MALFORMED_COMMAND_INITIATE",
    )
    ∷ (
      codes "PROTOCOL_ERROR_ZMTP_MALFORMED_COMMAND_ERROR",
      codes "PROTOCOL_ERROR_ZMTP_MALFORMED_COMMAND_ERROR",
    )
    ∷ (
      codes "PROTOCOL_ERROR_ZMTP_MALFORMED_COMMAND_READY",
      codes "PROTOCOL_ERROR_ZMTP_MALFORMED_COMMAND_READY",
    )
    ∷ (
      codes "PROTOCOL_ERROR_ZMTP_MALFORMED_COMMAND_WELCOME",
      codes "PROTOCOL_ERROR_ZMTP_MALFORMED_COMMAND_WELCOME",
    )
    ∷ (codes "PROTOCOL_ERROR_ZMTP_INVALID_METADATA", codes "PROTOCOL_ERROR_ZMTP_INVALID_METADATA")
    ∷ (codes "PROTOCOL_ERROR_ZMTP_CRYPTOGRAPHIC", codes "PROTOCOL_ERROR_ZMTP_CRYPTOGRAPHIC")
    ∷ (
      codes "PROTOCOL_ERROR_ZMTP_MECHANISM_MISMATCH",
      codes "PROTOCOL_ERROR_ZMTP_MECHANISM_MISMATCH",
    )
    ∷ (codes "PROTOCOL_ERROR_ZAP_UNSPECIFIED", codes "PROTOCOL_ERROR_ZAP_UNSPECIFIED")
    ∷ (codes "PROTOCOL_ERROR_ZAP_MALFORMED_REPLY", codes "PROTOCOL_ERROR_ZAP_MALFORMED_REPLY")
    ∷ (codes "PROTOCOL_ERROR_ZAP_BAD_REQUEST_ID", codes "PROTOCOL_ERROR_ZAP_BAD_REQUEST_ID")
    ∷ (codes "PROTOCOL_ERROR_ZAP_BAD_VERSION", codes "PROTOCOL_ERROR_ZAP_BAD_VERSION")
    ∷ (
      codes "PROTOCOL_ERROR_ZAP_INVALID_STATUS_CODE",
      codes "PROTOCOL_ERROR_ZAP_INVALID_STATUS_CODE",
    )
    ∷ (codes "PROTOCOL_ERROR_ZAP_INVALID_METADATA", codes "PROTOCOL_ERROR_ZAP_INVALID_METADATA")
    ∷ (codes "PROTOCOL_ERROR_WS_UNSPECIFIED", codes "PROTOCOL_ERROR_WS_UNSPECIFIED")
    ∷ (codes "EVENT_PIPES_STATS", codes "PIPES_STATS")
    ∷ (codes "EVENT_ALL_V1", codes "ALL_V1")
    ∷ (codes "EVENT_ALL_V2", codes "ALL_V2")
    ∷ []

abbrev pub flag_globals : List Binding
flag_globals =
    (codes "DONTWAIT", codes "DONTWAIT")
    ∷ (codes "SNDMORE", codes "SNDMORE")
    ∷ (codes "NOBLOCK", codes "NOBLOCK")
    ∷ []

abbrev pub message_option_globals : List Binding
message_option_globals =
    (codes "MORE", codes "MORE")
    ∷ (codes "SHARED", codes "SHARED")
    ∷ (codes "SRCFD", codes "SRCFD")
    ∷ []

abbrev pub poll_event_globals : List Binding
poll_event_globals =
    (codes "POLLIN", codes "POLLIN")
    ∷ (codes "POLLOUT", codes "POLLOUT")
    ∷ (codes "POLLERR", codes "POLLERR")
    ∷ (codes "POLLPRI", codes "POLLPRI")
    ∷ []

abbrev pub mechanism_globals : List Binding
mechanism_globals =
    (codes "NULL", codes "NULL")
    ∷ (codes "PLAIN", codes "PLAIN")
    ∷ (codes "CURVE", codes "CURVE")
    ∷ (codes "GSSAPI", codes "GSSAPI")
    ∷ []

abbrev pub socket_type_globals : List Binding
socket_type_globals =
    (codes "PAIR", codes "PAIR")
    ∷ (codes "PUB", codes "PUB")
    ∷ (codes "SUB", codes "SUB")
    ∷ (codes "REQ", codes "REQ")
    ∷ (codes "REP", codes "REP")
    ∷ (codes "DEALER", codes "DEALER")
    ∷ (codes "ROUTER", codes "ROUTER")
    ∷ (codes "PULL", codes "PULL")
    ∷ (codes "PUSH", codes "PUSH")
    ∷ (codes "XPUB", codes "XPUB")
    ∷ (codes "XSUB", codes "XSUB")
    ∷ (codes "STREAM", codes "STREAM")
    ∷ (codes "XREQ", codes "XREQ")
    ∷ (codes "XREP", codes "XREP")
    ∷ (codes "SERVER", codes "SERVER")
    ∷ (codes "CLIENT", codes "CLIENT")
    ∷ (codes "RADIO", codes "RADIO")
    ∷ (codes "DISH", codes "DISH")
    ∷ (codes "GATHER", codes "GATHER")
    ∷ (codes "SCATTER", codes "SCATTER")
    ∷ (codes "DGRAM", codes "DGRAM")
    ∷ (codes "PEER", codes "PEER")
    ∷ (codes "CHANNEL", codes "CHANNEL")
    ∷ []
