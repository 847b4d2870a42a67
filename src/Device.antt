-- ===== src/Device.antt =====
-- zmq/devices/basedevice.py: `Device`, its queued operations and its run.
-- Sockets, the context and `zmq.device` are parameters; `%i` formatting is one, too.
pub mod Setup
pub mod Ports
pub mod Proxy
pub mod Monitored
pub mod Tests
use pyzmq.Base.{
  ℕ, suc, zero, Bool, true, false, Option, none, some, List, [], ◌∷◌, ◌++◌, Result, ok, err, Error,
  type_error, zmq_error, bind_error, if◌then◌else◌, ◌==◌, Bytes, codes, bytes_beq,
}
use pyzmq.Base.Exec.{Exec, pure, raise, gets, modify, ◌>>=◌, ◌>>◌, when}

-- A socket type; a negative one stands for the in socket itself.
pub data SocketType : Type 0 where
  negative : SocketType
  socket_type : ℕ → SocketType

-- What is done to a socket of the device.
pub data Op : Type 0 where
  setsockopt : ℕ → ℕ → Op
  bind connect : Bytes → Op

pub record Driver (Net : Type 0) : Type 0 where
  pub socket : ℕ → Net → Result ℕ × Net
  pub apply : ℕ → Op → Net → Result (Unit {0}) × Net
  pub bind_to_random_port : ℕ → Bytes → Net → Result ℕ × Net
  pub close : ℕ → Net → Net
  pub device : ℕ → ℕ → ℕ → Net → Result (Unit {0}) × Net
  pub decimal : ℕ → Bytes
  pub req : ℕ
  pub eterm : ℕ

pub record Device (Net : Type 0) : Type 0 where
  pub net : Net
  pub device_type : ℕ
  pub in_type : ℕ
  pub out_type : SocketType
  pub in_binds : List Bytes
  pub in_connects : List Bytes
  pub in_sockopts : List (ℕ × ℕ)
  pub out_binds : List Bytes
  pub out_connects : List Bytes
  pub out_sockopts : List (ℕ × ℕ)
  pub random_addrs : List Bytes
  pub daemon : Bool
  pub done : Bool

-- `__init__`
pub init : {Net : Type 0} → Net → ℕ → Option ℕ → Option SocketType → Result (Device Net)
init net device_type none out_type = err type_error
init net device_type (some i) none = err type_error
init net device_type (some i) (some o) = ok (record {
  net = net;
  device_type = device_type;
  in_type = i;
  out_type = o;
  in_binds = [];
  in_connects = [];
  in_sockopts = [];
  out_binds = [];
  out_connects = [];
  out_sockopts = [];
  random_addrs = [];
  daemon = true;
  done = false;
})

unfoldable pub member : Bytes → List Bytes → Bool
member x [] = false
member x (y ∷ ys) = if bytes_beq y x then true else member x ys

module _ {Net : Type 0} (drv : Driver Net) where
  abbrev pub Method : Type 0 → Type 0
  Method A = Exec (Device Net) A

  -- A call of a driver's operation that may raise.
  pub call : {A : Type 0} → (Net → Result A × Net) → Method A
  call f s = ((f s.net).0, record s { net = (f s.net).1 })

  pub bind_in : Bytes → Method (Unit {0})
  bind_in a = modify (λ s. record s { in_binds = s.in_binds ++ (a ∷ []) })

  pub connect_in : Bytes → Method (Unit {0})
  connect_in a = modify (λ s. record s { in_connects = s.in_connects ++ (a ∷ []) })

  pub setsockopt_in : ℕ → ℕ → Method (Unit {0})
  setsockopt_in opt v = modify (λ s. record s { in_sockopts = s.in_sockopts ++ ((opt, v) ∷ []) })

  pub bind_out : Bytes → Method (Unit {0})
  bind_out a = modify (λ s. record s { out_binds = s.out_binds ++ (a ∷ []) })

  pub connect_out : Bytes → Method (Unit {0})
  connect_out a = modify (λ s. record s { out_connects = s.out_connects ++ (a ∷ []) })

  pub setsockopt_out : ℕ → ℕ → Method (Unit {0})
  setsockopt_out opt v = modify (λ s. record s { out_sockopts = s.out_sockopts ++ ((opt, v) ∷ []) })

  -- `'%s:%i' % (addr, port)`
  pub address : Bytes → ℕ → Bytes
  address addr port = addr ++ (codes ":" ++ drv.decimal port)

  -- The loop of `_reserve_random_port` with the tries that are left.
  pub try_ports : ℕ → ℕ → Bytes → Method ℕ
  unfolding call
  try_ports zero binder addr = raise bind_error
  try_ports (suc n) binder addr = do
    port ← call (drv.bind_to_random_port binder addr)
    known ← gets (λ s. member (address addr port) s.random_addrs)
    if known then try_ports n binder addr else pure port

  pub reserve_random_port : Bytes → Method ℕ
  unfolding call
  reserve_random_port addr = do
    binder ← call (drv.socket drv.req)
    port ← try_ports 5 binder addr
    modify (λ s. record s { random_addrs = s.random_addrs ++ (address addr port ∷ []) })
    modify (λ s. record s { net = drv.close binder s.net })
    pure port

  pub bind_in_to_random_port : Bytes → Method ℕ
  unfolding bind_in
  bind_in_to_random_port addr = do
    port ← reserve_random_port addr
    bind_in (address addr port)
    pure port

  pub bind_out_to_random_port : Bytes → Method ℕ
  unfolding bind_out
  bind_out_to_random_port addr = do
    port ← reserve_random_port addr
    bind_out (address addr port)
    pure port

  pub set_all : ℕ → List (ℕ × ℕ) → Method (Unit {0})
  unfolding call
  set_all n [] = pure tt
  set_all n (o ∷ os) = call (drv.apply n (setsockopt o.0 o.1)) >> set_all n os

  pub bind_all : ℕ → List Bytes → Method (Unit {0})
  unfolding call
  bind_all n [] = pure tt
  bind_all n (a ∷ as') = call (drv.apply n (bind a)) >> bind_all n as'

  pub connect_all : ℕ → List Bytes → Method (Unit {0})
  unfolding call
  connect_all n [] = pure tt
  connect_all n (a ∷ as') = call (drv.apply n (connect a)) >> connect_all n as'

  pub make_out : ℕ → SocketType → Method ℕ
  unfolding call
  make_out ins negative = pure ins
  make_out ins (socket_type t) = call (drv.socket t)

  -- The loops of `_setup_sockets`, over the lists of the device that it starts with.
  pub prepare : Device Net → ℕ → ℕ → Method (Unit {0})
  prepare d ins outs = do
    set_all ins d.in_sockopts
    set_all outs d.out_sockopts
    bind_all ins d.in_binds
    bind_all outs d.out_binds
    connect_all ins d.in_connects
    connect_all outs d.out_connects

  pub setup_sockets : Method (ℕ × ℕ)
  unfolding call
  setup_sockets d =
      (do
        ins ← call (drv.socket d.in_type)
        outs ← make_out ins d.out_type
        prepare d ins outs
        pure (ins, outs))
        d

  pub run_device : Method (Unit {0})
  unfolding call
  run_device d = (do sockets ← setup_sockets; call (drv.device d.device_type sockets.0 sockets.1)) d

  -- The `except` clause of `run`.
  pub silence_term : Result (Unit {0}) → Result (Unit {0})
  silence_term (err (zmq_error n)) = if n == drv.eterm then ok tt else err (zmq_error n)
  silence_term r = r

  pub run : Method (Unit {0})
  run d = let r = run_device d in (silence_term r.0, record r.1 { done = true })
