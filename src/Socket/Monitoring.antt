-- ===== src/Socket/Monitoring.antt =====
-- The monitor socket of a socket, and polling of one socket (zmq/sugar/socket.py). The PAIR socket is
-- the backend's: a number.
use pyzmq.Base.{
  ℕ, ◌≡◌, refl, Bool, true, false, Option, none, some, Result, ok, err, if◌then◌else◌, arith, Bytes,
  codes, ◌++◌, not_implemented, inl, inr, Bool-cases,
}
use pyzmq.Base.Exec.{Exec, pure, modify, ◌>>=◌, ◌>>◌}
use pyzmq.Base.Post.{Post, Post-continue, Post-if, Post-option, always, post_ok}

pub record Driver (Net : Type 0) : Type 0 where
  pub at_least_4 : Bool
  pub is_closed : ℕ → Net → Bool
  pub fd : Net → ℕ
  pub decimal : ℕ → Bytes
  pub monitor : Option Bytes → ℕ → Net → Result (Unit {0}) × Net
  pub pair_socket : Net → Result ℕ × Net
  pub connect : ℕ → Bytes → Net → Result (Unit {0}) × Net
  pub event_all : ℕ

pub record Socket (Net : Type 0) : Type 0 where
  pub net : Net
  pub monitor_socket : Option ℕ

module _ {Net : Type 0} (drv : Driver Net) where
  abbrev pub Method : Type 0 → Type 0
  Method A = Exec (Socket Net) A

  unfoldable pub call : {A : Type 0} → (Net → Result A × Net) → Method A
  call f s = ((f s.net).0, record s { net = (f s.net).1 })

  -- `f"inproc://monitor.s-{self.FD}"` where the caller gives no address
  unfoldable pub monitor_address : Option Bytes → Net → Bytes
  monitor_address none net = codes "inproc://monitor.s-" ++ drv.decimal (drv.fd net)
  monitor_address (some addr) net = addr

  unfoldable pub wanted_events : Option ℕ → ℕ
  wanted_events none = drv.event_all
  wanted_events (some events) = events

  -- Attaching a monitor and connecting a new PAIR socket to it.
  unfoldable pub attach : Option ℕ → Bytes → Method ℕ
  unfolding call wanted_events
  attach events addr = do
    call (drv.monitor (some addr) (wanted_events events))
    m ← call drv.pair_socket
    modify (λ s. record s { monitor_socket = some m })
    call (drv.connect m addr)
    pure m

  unfoldable pub attach_new : Option ℕ → Option Bytes → Method ℕ
  unfolding attach monitor_address
  attach_new events addr s = attach events (monitor_address addr s.net) s

  unfoldable pub get_monitor_socket : Option ℕ → Option Bytes → Method ℕ
  unfolding attach_new
  get_monitor_socket events addr s =
      if drv.at_least_4
      then elim s.monitor_socket [
        | none ↦ attach_new events addr s
        | some m ↦
            if drv.is_closed m s.net
            then attach_new events addr (record s { monitor_socket = none })
            else (ok m, s)
      ]
      else (err not_implemented, s)

  pub disable_monitor : Method (Unit {0})
  unfolding call
  disable_monitor = do modify (λ s. record s { monitor_socket = none }); call (drv.monitor none 0)

  connected :
      (m : ℕ) (addr : Bytes) (s : Socket Net)
      → s.monitor_socket ≡ some m
      → Post
          (λ n t. t.monitor_socket ≡ some n)
          ((call (drv.connect m addr) >> pure m) s).0
          ((call (drv.connect m addr) >> pure m) s).1
  unfolding call
  connected m addr s h =
      Post-continue (λ n t. t.monitor_socket ≡ some n) (λ _ _. Unit {0})
        (call (drv.connect m addr) s).0 (λ _. pure m) (call (drv.connect m addr) s).1
        (always (call (drv.connect m addr) s).0 (call (drv.connect m addr) s).1) (λ _ _. h)

  attached :
      (events : Option ℕ) (addr : Bytes) (s : Socket Net)
      → Post (λ n t. t.monitor_socket ≡ some n) (attach events addr s).0 (attach events addr s).1
  unfolding attach
  attached events addr s =
      Post-continue (λ n t. t.monitor_socket ≡ some n) (λ _ _. Unit {0})
        (call (drv.monitor (some addr) (wanted_events events)) s).0 _
        (call (drv.monitor (some addr) (wanted_events events)) s).1 (always _ _)
        (λ _ _.
          Post-continue (λ n t. t.monitor_socket ≡ some n) (λ _ _. Unit {0})
            (call drv.pair_socket (call (drv.monitor (some addr) (wanted_events events)) s).1).0 _
            (call drv.pair_socket (call (drv.monitor (some addr) (wanted_events events)) s).1).1
            (always _ _) (λ m _. connected m addr _ refl))

  attached_new :
      (events : Option ℕ) (addr : Option Bytes) (s : Socket Net)
      → Post
          (λ n t. t.monitor_socket ≡ some n)
          (attach_new events addr s).0
          (attach_new events addr s).1
  unfolding attach_new
  attached_new events addr s = attached events (monitor_address addr s.net) s

  got :
      (events : Option ℕ) (addr : Option Bytes) (s : Socket Net)
      → drv.at_least_4 ≡ true
      → Post
          (λ n t. t.monitor_socket ≡ some n)
          (get_monitor_socket events addr s).0
          (get_monitor_socket events addr s).1
  unfolding get_monitor_socket
  got events addr s v =
      Post-if (λ n t. t.monitor_socket ≡ some n) drv.at_least_4 _ (err not_implemented, s)
        (λ _.
          Post-option (λ n t. t.monitor_socket ≡ some n) s.monitor_socket (attach_new events addr s)
            _ (λ _. attached_new events addr s)
            (λ m e.
              Post-if (λ n t. t.monitor_socket ≡ some n) (drv.is_closed m s.net) _ (ok m, s)
                (λ _. attached_new events addr (record s { monitor_socket = none })) (λ _. e)))
        (λ _. tt)

  version :
      (events : Option ℕ) (addr : Option Bytes) (s : Socket Net) (m : ℕ)
      → (get_monitor_socket events addr s).0 ≡ ok m
      → drv.at_least_4 ≡ true
  unfolding get_monitor_socket
  version events addr s m h = elim (Bool-cases drv.at_least_4) [ inl t ↦ t | inr f ↦ grind arith ]

  answers :
      (events : Option ℕ) (addr : Option Bytes) (s : Socket Net) (m : ℕ)
      → drv.at_least_4 ≡ true
      → s.monitor_socket ≡ some m
      → drv.is_closed m s.net ≡ false
      → get_monitor_socket events addr s ≡ (ok m, s)
  unfolding get_monitor_socket
  answers events addr s m v h o = simp (v, h, o)

  -- If the socket that a call left in `_monitor_socket` is open, then another call, whatever it asks
  -- for, answers that socket and changes nothing.
  pub get_monitor_socket_again :
      (events events' : Option ℕ) (addr addr' : Option Bytes) (s : Socket Net) (m : ℕ)
      → (get_monitor_socket events addr s).0 ≡ ok m
      → drv.is_closed m (get_monitor_socket events addr s).1.net ≡ false
      → get_monitor_socket events' addr' (get_monitor_socket events addr s).1
        ≡ (ok m, (get_monitor_socket events addr s).1)
  get_monitor_socket_again events events' addr addr' s m h o =
      answers events' addr' (get_monitor_socket events addr s).1 m (version events addr s m h)
        (post_ok (λ n t. t.monitor_socket ≡ some n) (get_monitor_socket events addr s).0
          (get_monitor_socket events addr s).1 m (got events addr s (version events addr s m h)) h)
        o
