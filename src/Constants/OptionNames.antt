-- ===== src/Constants/OptionNames.antt =====
-- The names that zmq/constants.py binds to members of `SocketOption`.
use pyzmq.Base.{List, [], ◌∷◌, codes}
use pyzmq.Constants.Names.{Binding}

abbrev pub first_option_globals : List Binding
first_option_globals =
    (codes "HWM", codes "HWM")
    ∷ (codes "AFFINITY", codes "AFFINITY")
    ∷ (codes "ROUTING_ID", codes "ROUTING_ID")
    ∷ (codes "SUBSCRIBE", codes "SUBSCRIBE")
    ∷ (codes "UNSUBSCRIBE", codes "UNSUBSCRIBE")
    ∷ (codes "RATE", codes "RATE")
    ∷ (codes "RECOVERY_IVL", codes "RECOVERY_IVL")
    ∷ (codes "SNDBUF", codes "SNDBUF")
    ∷ (codes "RCVBUF", codes "RCVBUF")
    ∷ (codes "RCVMORE", codes "RCVMORE")
    ∷ (codes "FD", codes "FD")
    ∷ (codes "EVENTS", codes "EVENTS")
    ∷ (codes "TYPE", codes "TYPE")
    ∷ (codes "LINGER", codes "LINGER")
    ∷ (codes "RECONNECT_IVL", codes "RECONNECT_IVL")
    ∷ (codes "BACKLOG", codes "BACKLOG")
    ∷ (codes "RECONNECT_IVL_MAX", codes "RECONNECT_IVL_MAX")
    ∷ (codes "MAXMSGSIZE", codes "MAXMSGSIZE")
    ∷ (codes "SNDHWM", codes "SNDHWM")
    ∷ (codes "RCVHWM", codes "RCVHWM")
    ∷ (codes "MULTICAST_HOPS", codes "MULTICAST_HOPS")
    ∷ (codes "RCVTIMEO", codes "RCVTIMEO")
    ∷ (codes "SNDTIMEO", codes "SNDTIMEO")
    ∷ (codes "LAST_ENDPOINT", codes "LAST_ENDPOINT")
    ∷ (codes "ROUTER_MANDATORY", codes "ROUTER_MANDATORY")
    ∷ (codes "TCP_KEEPALIVE", codes "TCP_KEEPALIVE")
    ∷ (codes "TCP_KEEPALIVE_CNT", codes "TCP_KEEPALIVE_CNT")
    ∷ (codes "TCP_KEEPALIVE_IDLE", codes "TCP_KEEPALIVE_IDLE")
    ∷ (codes "TCP_KEEPALIVE_INTVL", codes "TCP_KEEPALIVE_INTVL")
    ∷ (codes "IMMEDIATE", codes "IMMEDIATE")
    ∷ (codes "XPUB_VERBOSE", codes "XPUB_VERBOSE")
    ∷ (codes "ROUTER_RAW", codes "ROUTER_RAW")
    ∷ (codes "IPV6", codes "IPV6")
    ∷ (codes "MECHANISM", codes "MECHANISM")
    ∷ (codes "PLAIN_SERVER", codes "PLAIN_SERVER")
    ∷ (codes "PLAIN_USERNAME", codes "PLAIN_USERNAME")
    ∷ (codes "PLAIN_PASSWORD", codes "PLAIN_PASSWORD")
    ∷ (codes "CURVE_SERVER", codes "CURVE_SERVER")
    ∷ (codes "CURVE_PUBLICKEY", codes "CURVE_PUBLICKEY")
    ∷ (codes "CURVE_SECRETKEY", codes "CURVE_SECRETKEY")
    ∷ (codes "CURVE_SERVERKEY", codes "CURVE_SERVERKEY")
    ∷ (codes "PROBE_ROUTER", codes "PROBE_ROUTER")
    ∷ (codes "REQ_CORRELATE", codes "REQ_CORRELATE")
    ∷ (codes "REQ_RELAXED", codes "REQ_RELAXED")
    ∷ (codes "CONFLATE", codes "CONFLATE")
    ∷ (codes "ZAP_DOMAIN", codes "ZAP_DOMAIN")
    ∷ (codes "ROUTER_HANDOVER", codes "ROUTER_HANDOVER")
    ∷ (codes "TOS", codes "TOS")
    ∷ (codes "CONNECT_ROUTING_ID", codes "CONNECT_ROUTING_ID")
    ∷ (codes "GSSAPI_SERVER", codes "GSSAPI_SERVER")
    ∷ (codes "GSSAPI_PRINCIPAL", codes "GSSAPI_PRINCIPAL")
    ∷ (codes "GSSAPI_SERVICE_PRINCIPAL", codes "GSSAPI_SERVICE_PRINCIPAL")
    ∷ (codes "GSSAPI_PLAINTEXT", codes "GSSAPI_PLAINTEXT")
    ∷ []

abbrev pub later_option_globals : List Binding
later_option_globals =
    (codes "HANDSHAKE_IVL", codes "HANDSHAKE_IVL")
    ∷ (codes "SOCKS_PROXY", codes "SOCKS_PROXY")
    ∷ (codes "XPUB_NODROP", codes "XPUB_NODROP")
    ∷ (codes "BLOCKY", codes "BLOCKY")
    ∷ (codes "XPUB_MANUAL", codes "XPUB_MANUAL")
    ∷ (codes "XPUB_WELCOME_MSG", codes "XPUB_WELCOME_MSG")
    ∷ (codes "STREAM_NOTIFY", codes "STREAM_NOTIFY")
    ∷ (codes "INVERT_MATCHING", codes "INVERT_MATCHING")
    ∷ (codes "HEARTBEAT_IVL", codes "HEARTBEAT_IVL")
    ∷ (codes "HEARTBEAT_TTL", codes "HEARTBEAT_TTL")
    ∷ (codes "HEARTBEAT_TIMEOUT", codes "HEARTBEAT_TIMEOUT")
    ∷ (codes "XPUB_VERBOSER", codes "XPUB_VERBOSER")
    ∷ (codes "CONNECT_TIMEOUT", codes "CONNECT_TIMEOUT")
    ∷ (codes "TCP_MAXRT", codes "TCP_MAXRT")
    ∷ (codes "THREAD_SAFE", codes "THREAD_SAFE")
    ∷ (codes "MULTICAST_MAXTPDU", codes "MULTICAST_MAXTPDU")
    ∷ (codes "VMCI_BUFFER_SIZE", codes "VMCI_BUFFER_SIZE")
    ∷ (codes "VMCI_BUFFER_MIN_SIZE", codes "VMCI_BUFFER_MIN_SIZE")
    ∷ (codes "VMCI_BUFFER_MAX_SIZE", codes "VMCI_BUFFER_MAX_SIZE")
    ∷ (codes "VMCI_CONNECT_TIMEOUT", codes "VMCI_CONNECT_TIMEOUT")
    ∷ (codes "USE_FD", codes "USE_FD")
    ∷ (codes "GSSAPI_PRINCIPAL_NAMETYPE", codes "GSSAPI_PRINCIPAL_NAMETYPE")
    ∷ (codes "GSSAPI_SERVICE_PRINCIPAL_NAMETYPE", codes "GSSAPI_SERVICE_PRINCIPAL_NAMETYPE")
    ∷ (codes "BINDTODEVICE", codes "BINDTODEVICE")
    ∷ (codes "IDENTITY", codes "IDENTITY")
    ∷ (codes "CONNECT_RID", codes "CONNECT_RID")
    ∷ (codes "TCP_ACCEPT_FILTER", codes "TCP_ACCEPT_FILTER")
    ∷ (codes "IPC_FILTER_PID", codes "IPC_FILTER_PID")
    ∷ (codes "IPC_FILTER_UID", codes "IPC_FILTER_UID")
    ∷ (codes "IPC_FILTER_GID", codes "IPC_FILTER_GID")
    ∷ (codes "IPV4ONLY", codes "IPV4ONLY")
    ∷ (codes "DELAY_ATTACH_ON_CONNECT", codes "DELAY_ATTACH_ON_CONNECT")
    ∷ (codes "FAIL_UNROUTABLE", codes "FAIL_UNROUTABLE")
    ∷ (codes "ROUTER_BEHAVIOR", codes "ROUTER_BEHAVIOR")
    ∷ (codes "ZAP_ENFORCE_DOMAIN", codes "ZAP_ENFORCE_DOMAIN")
    ∷ (codes "LOOPBACK_FASTPATH", codes "LOOPBACK_FASTPATH")
    ∷ (codes "METADATA", codes "METADATA")
    ∷ (codes "MULTICAST_LOOP", codes "MULTICAST_LOOP")
    ∷ (codes "ROUTER_NOTIFY", codes "ROUTER_NOTIFY")
    ∷ (codes "XPUB_MANUAL_LAST_VALUE", codes "XPUB_MANUAL_LAST_VALUE")
    ∷ (codes "SOCKS_USERNAME", codes "SOCKS_USERNAME")
    ∷ (codes "SOCKS_PASSWORD", codes "SOCKS_PASSWORD")
    ∷ (codes "IN_BATCH_SIZE", codes "IN_BATCH_SIZE")
    ∷ (codes "OUT_BATCH_SIZE", codes "OUT_BATCH_SIZE")
    ∷ (codes "WSS_KEY_PEM", codes "WSS_KEY_PEM")
    ∷ (codes "WSS_CERT_PEM", codes "WSS_CERT_PEM")
    ∷ (codes "WSS_TRUST_PEM", codes "WSS_TRUST_PEM")
    ∷ (codes "WSS_HOSTNAME", codes "WSS_HOSTNAME")
    ∷ (codes "WSS_TRUST_SYSTEM", codes "WSS_TRUST_SYSTEM")
    ∷ (codes "ONLY_FIRST_SUBSCRIBE", codes "ONLY_FIRST_SUBSCRIBE")
    ∷ (codes "RECONNECT_STOP", codes "RECONNECT_STOP")
    ∷ (codes "HELLO_MSG", codes "HELLO_MSG")
    ∷ (codes "DISCONNECT_MSG", codes "DISCONNECT_MSG")
    ∷ (codes "PRIORITY", codes "PRIORITY")
    ∷ []
