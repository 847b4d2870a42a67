-- ===== src/Device/Proxy.antt =====
-- zmq/devices/proxydevice.py: `ProxyBase`, a device with a third socket, which monitors.
use pyzmq.Base.{ℕ, List, [], ◌∷◌, ◌++◌, Result, Bytes}
use pyzmq.Base.Exec.{Exec, pure, modify, ◌>>=◌, ◌>>◌}
use pyzmq.Device.{
  Driver, Device, call, address, reserve_random_port, set_all, bind_all, connect_all, setup_sockets,
}

pub record Proxy (Net : Type 0) : Type 0 where
  pub device : Device Net
  pub mon_type : ℕ
  pub mon_binds : List Bytes
  pub mon_connects : List Bytes
  pub mon_sockopts : List (ℕ × ℕ)

-- `__init__`, of a device that was initialised
pub init : {Net : Type 0} → Device Net → ℕ → Proxy Net
init device mon_type = record {
  device = device;
  mon_type = mon_type;
  mon_binds = [];
  mon_connects = [];
  mon_sockopts = [];
}

module _ {Net : Type 0} (drv : Driver Net) where
  abbrev pub Method : Type 0 → Type 0
  Method A = Exec (Proxy Net) A

  -- A method of `Device`.
  pub inherited : {A : Type 0} → Exec (Device Net) A → Method A
  inherited m p = ((m p.device).0, record p { device = (m p.device).1 })

  pub bind_mon : Bytes → Method (Unit {0})
  bind_mon addr = modify (λ p. record p { mon_binds = p.mon_binds ++ (addr ∷ []) })

  pub connect_mon : Bytes → Method (Unit {0})
  connect_mon addr = modify (λ p. record p { mon_connects = p.mon_connects ++ (addr ∷ []) })

  pub setsockopt_mon : ℕ → ℕ → Method (Unit {0})
  setsockopt_mon opt value =
      modify (λ p. record p { mon_sockopts = p.mon_sockopts ++ ((opt, value) ∷ []) })

  pub bind_mon_to_random_port : Bytes → Method ℕ
  unfolding inherited bind_mon
  bind_mon_to_random_port addr = do
    port ← inherited (reserve_random_port drv addr)
    bind_mon (address drv addr port)
    pure port

  -- The options are set first, then the socket is bound and connected.
  pub prepare_mon : Proxy Net → ℕ → Method (Unit {0})
  unfolding inherited
  prepare_mon p mons = do
    inherited (set_all drv mons p.mon_sockopts)
    inherited (bind_all drv mons p.mon_binds)
    inherited (connect_all drv mons p.mon_connects)

  pub setup_proxy_sockets : Method (ℕ × ℕ × ℕ)
  unfolding inherited prepare_mon
  setup_proxy_sockets p =
      (do
        sockets ← inherited (setup_sockets drv)
        mons ← inherited (call drv (drv.socket p.mon_type))
        prepare_mon p mons
        pure (sockets.0, sockets.1, mons))
        p

  -- `zmq.proxy` is the backend's.
  pub run_proxy : (ℕ → ℕ → ℕ → Net → Result (Unit {0}) × Net) → Method (Unit {0})
  unfolding setup_proxy_sockets inherited
  run_proxy proxy =
      setup_proxy_sockets >>= λ (ins, outs, mons). inherited (call drv (proxy ins outs mons))
