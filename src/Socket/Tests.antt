-- ===== src/Socket/Tests.antt =====
-- Sockets over small networks: a queue of frames, a table of options, and ports of which one is taken.
use pyzmq.Base.{
  ℕ, ◌+◌, ◌≡◌, refl, Bool, true, false, Option, none, some, List, [], ◌∷◌, ◌++◌, map, Result, ok,
  err, type_error, zmq_error, arith, if◌then◌else◌, ltb, leb, ◌&&◌, bytes_eq, Bytes, codes,
  bytes_beq, value_error,
}
use pyzmq.Socket
use pyzmq.Socket.{Part, buffer, frame, unsupported, Flags, Kwargs, send_multipart, recv_multipart}
use pyzmq.Socket.Multipart.{IsFifo, send_multipart_refused, recv_multipart-send_multipart}
use pyzmq.Socket.Ports
use pyzmq.Socket.Ports.{
  bind_to_random_port, try_ports, settle, is_taken, address, InRange, IsBound,
  bind_to_random_port-IsBound,
}
use pyzmq.Socket.Monitoring
use pyzmq.Socket.Monitoring.{
  get_monitor_socket, attach_new, attach, call, wanted_events, monitor_address,
  get_monitor_socket_again,
}

-- The frames on the way, and the RCVMORE of the last that was received.
abbrev Wire : Type 0
Wire = List (Bytes × Bool) × Bool

abbrev content : Part → Bytes
content (buffer b) = b
content (frame b r g) = b
content unsupported = []

abbrev take_first : Wire → Result Bytes × Wire
take_first ([], more) = (err (zmq_error 11), ([], more))
take_first ((b, more) ∷ rest, last) = (ok b, (rest, more))

abbrev queue : Socket.Driver Wire
queue = record {
  send = λ p flags kwargs net. (ok none, (net.0 ++ ((content p, flags.sndmore) ∷ []), net.1));
  recv = λ flags kwargs net. take_first net;
  rcvmore = λ net. ok net.1;
  new_frame = λ p kwargs. ok (frame (content p) none none);
  has_draft = false;
}

queue_receives :
    (b : Bytes) (more : Bool) (rest : List (Bytes × Bool)) (net : Wire)
    → net.0 ≡ (b, more) ∷ rest
    → ((take_first net).0 ≡ ok b)
      × ((take_first net).1.0 ≡ rest)
      × (ok (take_first net).1.1 ≡ ok more)
queue_receives b more rest ([], last) h = absurd (cc)
queue_receives b more rest ((c, m) ∷ cs, last) h = (cc, cc, cc)

queue-IsFifo : IsFifo queue (λ net. net.0)
queue-IsFifo = record {
  sends = λ b flags kwargs net. (none, refl);
  appends = λ b flags kwargs net. refl;
  receives = λ b more rest flags kwargs net h. queue_receives b more rest net h;
}

abbrev plain : Kwargs
plain = record { copy = true; track = false }

abbrev no_flags : Flags
no_flags = record { sndmore = false; others = 1 }

send_multipart_refused_example :
    send_multipart queue (buffer (codes "a") ∷ unsupported ∷ []) no_flags plain ([], false)
    ≡ (err type_error, ([], false))
send_multipart_refused_example =
    send_multipart_refused queue (buffer (codes "a") ∷ []) [] no_flags plain ([], false)

recv_multipart-send_multipart_example :
    let sent =
      send_multipart queue
        (map buffer (codes "a" ∷ [] ∷ codes "b" ∷ []))
        no_flags
        plain
        ([], false) in
    let r = recv_multipart queue 3 0 plain sent.1 in
    ((t : Option ℕ) × (sent.0 ≡ ok t))
    × (r.0 ≡ ok (some (codes "a" ∷ [] ∷ codes "b" ∷ [])))
    × (r.1.0 ≡ [])
recv_multipart-send_multipart_example =
    recv_multipart-send_multipart queue (λ net. net.0) queue-IsFifo (codes "a")
      ([] ∷ codes "b" ∷ []) 1 plain 0 3 ([], false) refl (omega arith)

-- Port 5 is taken; the numbers that are drawn go up from the seed.
abbrev bind_unless : Bytes → ℕ × List Bytes → Result (Unit {0}) × (ℕ × List Bytes)
bind_unless a net =
    if bytes_eq.beq a (codes "tcp://*:" ++ (5 ∷ []))
    then (err (zmq_error 98), net)
    else (ok tt, (net.0, a ∷ net.1))

-- `randrange`: the number of the state, where it lies in the range.
abbrev draw : ℕ → ℕ → ℕ × List Bytes → Result ℕ × (ℕ × List Bytes)
draw lo hi net =
    if leb lo net.0 && ltb net.0 hi then (ok net.0, (net.0 + 1, net.1)) else (err value_error, net)

abbrev ports : Ports.Driver (ℕ × List Bytes)
ports = record {
  has_last_endpoint = true;
  bind = bind_unless;
  last_endpoint = λ net. ok (codes "tcp://*:80");
  randrange = draw;
  decimal = λ n. n ∷ [];
  to_int = λ b. err value_error;
  eaddrinuse = 98;
  eacces = 13;
  on_windows = false;
}

draw-InRange : InRange ports
draw-InRange lo hi port net h = ground arith

bound_to_6 : (bind_to_random_port ports (codes "tcp://*") 5 10 3 (5, [])).0 ≡ ok 6
unfolding bind_to_random_port try_ports settle is_taken address bytes_beq
bound_to_6 = refl

bind_to_random_port-IsBound_example :
    IsBound ports
      (codes "tcp://*")
      5
      10
      6
      (bind_to_random_port ports (codes "tcp://*") 5 10 3 (5, [])).1
bind_to_random_port-IsBound_example =
    bind_to_random_port-IsBound ports draw-InRange (codes "tcp://*") 5 10 3 6 (5, []) refl
      bound_to_6

-- Sockets are numbered, and none is ever closed; the state is the next number.
abbrev sockets : Monitoring.Driver ℕ
sockets = record {
  at_least_4 = true;
  is_closed = λ m net. false;
  fd = λ net. 9;
  decimal = λ n. n ∷ [];
  monitor = λ addr events net. (ok tt, net);
  pair_socket = λ net. (ok net, net + 1);
  connect = λ m addr net. (ok tt, net);
  event_all = 65535;
}

abbrev fresh : Monitoring.Socket ℕ
fresh = record { net = 4; monitor_socket = none }

first_monitor : (get_monitor_socket sockets none none fresh).0 ≡ ok 4
unfolding get_monitor_socket attach_new attach call wanted_events monitor_address
first_monitor = refl

get_monitor_socket_again_example :
    get_monitor_socket sockets (some 1) none (get_monitor_socket sockets none none fresh).1
    ≡ (ok 4, (get_monitor_socket sockets none none fresh).1)
get_monitor_socket_again_example =
    get_monitor_socket_again sockets none (some 1) none none fresh 4 first_monitor refl
