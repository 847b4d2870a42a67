-- ===== src/Constants/Options.antt =====
-- `SocketOption` of zmq/constants.py: the options with their numbers and types, aliases included.
use pyzmq.Base.{ℕ, [], ◌∷◌, ◌++◌, Option, none, some, Bytes, codes, if◌then◌else◌, ◌==◌}
use pyzmq.Base.Dict.{Dict}

-- `_OptType`
pub data OptType : Type 0 where
  int_option int64_option bytes_option fd_option : OptType

abbrev pub Options : Type 0
Options = Dict Bytes (ℕ × OptType)

abbrev pub first_options : Options
first_options =
    (codes "HWM", (1, int_option))
    ∷ (codes "AFFINITY", (4, int64_option))
    ∷ (codes "ROUTING_ID", (5, bytes_option))
    ∷ (codes "SUBSCRIBE", (6, bytes_option))
    ∷ (codes "UNSUBSCRIBE", (7, bytes_option))
    ∷ (codes "RATE", (8, int_option))
    ∷ (codes "RECOVERY_IVL", (9, int_option))
    ∷ (codes "SNDBUF", (11, int_option))
    ∷ (codes "RCVBUF", (12, int_option))
    ∷ (codes "RCVMORE", (13, int_option))
    ∷ (codes "FD", (14, fd_option))
    ∷ (codes "EVENTS", (15, int_option))
    ∷ (codes "TYPE", (16, int_option))
    ∷ (codes "LINGER", (17, int_option))
    ∷ (codes "RECONNECT_IVL", (18, int_option))
    ∷ (codes "BACKLOG", (19, int_option))
    ∷ (codes "RECONNECT_IVL_MAX", (21, int_option))
    ∷ (codes "MAXMSGSIZE", (22, int64_option))
    ∷ (codes "SNDHWM", (23, int_option))
    ∷ (codes "RCVHWM", (24, int_option))
    ∷ (codes "MULTICAST_HOPS", (25, int_option))
    ∷ (codes "RCVTIMEO", (27, int_option))
    ∷ (codes "SNDTIMEO", (28, int_option))
    ∷ (codes "LAST_ENDPOINT", (32, bytes_option))
    ∷ (codes "ROUTER_MANDATORY", (33, int_option))
    ∷ (codes "TCP_KEEPALIVE", (34, int_option))
    ∷ (codes "TCP_KEEPALIVE_CNT", (35, int_option))
    ∷ (codes "TCP_KEEPALIVE_IDLE", (36, int_option))
    ∷ (codes "TCP_KEEPALIVE_INTVL", (37, int_option))
    ∷ (codes "IMMEDIATE", (39, int_option))
    ∷ (codes "XPUB_VERBOSE", (40, int_option))
    ∷ (codes "ROUTER_RAW", (41, int_option))
    ∷ (codes "IPV6", (42, int_option))
    ∷ (codes "MECHANISM", (43, int_option))
    ∷ (codes "PLAIN_SERVER", (44, int_option))
    ∷ (codes "PLAIN_USERNAME", (45, bytes_option))
    ∷ (codes "PLAIN_PASSWORD", (46, bytes_option))
    ∷ (codes "CURVE_SERVER", (47, int_option))
    ∷ (codes "CURVE_PUBLICKEY", (48, bytes_option))
    ∷ (codes "CURVE_SECRETKEY", (49, bytes_option))
    ∷ (codes "CURVE_SERVERKEY", (50, bytes_option))
    ∷ []

abbrev pub later_options : Options
later_options =
    (codes "PROBE_ROUTER", (51, int_option))
    ∷ (codes "REQ_CORRELATE", (52, int_option))
    ∷ (codes "REQ_RELAXED", (53, int_option))
    ∷ (codes "CONFLATE", (54, int_option))
    ∷ (codes "ZAP_DOMAIN", (55, bytes_option))
    ∷ (codes "ROUTER_HANDOVER", (56, int_option))
    ∷ (codes "TOS", (57, int_option))
    ∷ (codes "CONNECT_ROUTING_ID", (61, bytes_option))
    ∷ (codes "GSSAPI_SERVER", (62, int_option))
    ∷ (codes "GSSAPI_PRINCIPAL", (63, bytes_option))
    ∷ (codes "GSSAPI_SERVICE_PRINCIPAL", (64, bytes_option))
    ∷ (codes "GSSAPI_PLAINTEXT", (65, int_option))
    ∷ (codes "HANDSHAKE_IVL", (66, int_option))
    ∷ (codes "SOCKS_PROXY", (68, bytes_option))
    ∷ (codes "XPUB_NODROP", (69, int_option))
    ∷ (codes "BLOCKY", (70, int_option))
    ∷ (codes "XPUB_MANUAL", (71, int_option))
    ∷ (codes "XPUB_WELCOME_MSG", (72, bytes_option))
    ∷ (codes "STREAM_NOTIFY", (73, int_option))
    ∷ (codes "INVERT_MATCHING", (74, int_option))
    ∷ (codes "HEARTBEAT_IVL", (75, int_option))
    ∷ (codes "HEARTBEAT_TTL", (76, int_option))
    ∷ (codes "HEARTBEAT_TIMEOUT", (77, int_option))
    ∷ (codes "XPUB_VERBOSER", (78, int_option))
    ∷ (codes "CONNECT_TIMEOUT", (79, int_option))
    ∷ (codes "TCP_MAXRT", (80, int_option))
    ∷ (codes "THREAD_SAFE", (81, int_option))
    ∷ (codes "MULTICAST_MAXTPDU", (84, int_option))
    ∷ (codes "VMCI_BUFFER_SIZE", (85, int64_option))
    ∷ (codes "VMCI_BUFFER_MIN_SIZE", (86, int64_option))
    ∷ (codes "VMCI_BUFFER_MAX_SIZE", (87, int64_option))
    ∷ (codes "VMCI_CONNECT_TIMEOUT", (88, int_option))
    ∷ (codes "USE_FD", (89, int_option))
    ∷ (codes "GSSAPI_PRINCIPAL_NAMETYPE", (90, int_option))
    ∷ (codes "GSSAPI_SERVICE_PRINCIPAL_NAMETYPE", (91, int_option))
    ∷ (codes "BINDTODEVICE", (92, bytes_option))
    ∷ []

-- Deprecated options and aliases.
abbrev pub deprecated_options : Options
deprecated_options =
    (codes "IDENTITY", (5, bytes_option))
    ∷ (codes "CONNECT_RID", (61, bytes_option))
    ∷ (codes "TCP_ACCEPT_FILTER", (38, bytes_option))
    ∷ (codes "IPC_FILTER_PID", (58, int_option))
    ∷ (codes "IPC_FILTER_UID", (59, int_option))
    ∷ (codes "IPC_FILTER_GID", (60, int_option))
    ∷ (codes "IPV4ONLY", (31, int_option))
    ∷ (codes "DELAY_ATTACH_ON_CONNECT", (39, int_option))
    ∷ (codes "FAIL_UNROUTABLE", (33, int_option))
    ∷ (codes "ROUTER_BEHAVIOR", (33, int_option))
    ∷ []

-- Options of the draft API.
abbrev pub draft_options : Options
draft_options =
    (codes "ZAP_ENFORCE_DOMAIN", (93, int_option))
    ∷ (codes "LOOPBACK_FASTPATH", (94, int_option))
    ∷ (codes "METADATA", (95, bytes_option))
    ∷ (codes "MULTICAST_LOOP", (96, int_option))
    ∷ (codes "ROUTER_NOTIFY", (97, int_option))
    ∷ (codes "XPUB_MANUAL_LAST_VALUE", (98, int_option))
    ∷ (codes "SOCKS_USERNAME", (99, bytes_option))
    ∷ (codes "SOCKS_PASSWORD", (100, bytes_option))
    ∷ (codes "IN_BATCH_SIZE", (101, int_option))
    ∷ (codes "OUT_BATCH_SIZE", (102, int_option))
    ∷ (codes "WSS_KEY_PEM", (103, bytes_option))
    ∷ (codes "WSS_CERT_PEM", (104, bytes_option))
    ∷ (codes "WSS_TRUST_PEM", (105, bytes_option))
    ∷ (codes "WSS_HOSTNAME", (106, bytes_option))
    ∷ (codes "WSS_TRUST_SYSTEM", (107, int_option))
    ∷ (codes "ONLY_FIRST_SUBSCRIBE", (108, int_option))
    ∷ (codes "RECONNECT_STOP", (109, int_option))
    ∷ (codes "HELLO_MSG", (110, bytes_option))
    ∷ (codes "DISCONNECT_MSG", (111, bytes_option))
    ∷ (codes "PRIORITY", (112, int_option))
    ∷ []

abbrev pub socket_options : Options
socket_options = first_options ++ later_options ++ deprecated_options ++ draft_options

-- `SocketOption(value)._opt_type`; `none` is the `ValueError` of an unknown number.
unfoldable pub type_of : ℕ → Options → Option OptType
type_of value [] = none
type_of value ((name, (n, t)) ∷ options) =
    let rest = type_of value options in if n == value then some t else rest
