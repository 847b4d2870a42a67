-- ===== src/Context.antt =====
-- zmq/sugar/context.py: the global instance of `Context`, the sockets of a context and its options.
-- The sockets themselves are the backend's: a parameter gives their creation and `setsockopt`.
-- Attribute names are upper-case texts; the backend's option tables are parameters as well.
pub mod Destroy
pub mod Instance
pub mod Tests
use pyzmq.Base.{
  ℕ, suc, Bool, true, false, not, ◌||◌, Option, none, some, List, [], ◌∷◌, Result, ok, err, Error,
  zmq_error, attribute_error, key_error, if◌then◌else◌, ◌==◌, Bytes, nat_eq,
}
use pyzmq.Base.Dict
use pyzmq.Base.Dict.{Dict}
use pyzmq.Base.Exec.{Exec, pure, raise, modify, attempt, ◌>>=◌, ◌>>◌, when}

-- The class attributes `_instance` and `_instance_pid`, and which contexts are closed.
pub record Instances : Type 0 where
  pub current : Option ℕ
  pub instance_pid : Option ℕ
  pub next_context : ℕ
  pub closed_flags : Dict ℕ Bool

unfoldable pub closed_flag : ℕ → Dict ℕ Bool → Bool
closed_flag c d = elim (Dict.lookup c d) [ none ↦ false | some b ↦ b ]

abbrev pub same_pid : ℕ → Option ℕ → Bool
same_pid pid none = false
same_pid pid (some p) = p == pid

pub is_stale : ℕ → Instances → Bool
is_stale pid s = elim s.current [
  | none ↦ true
  | some c ↦ not (same_pid pid s.instance_pid) || closed_flag c s.closed_flags
]

-- `cls(io_threads)`, kept as the instance of this process
pub renewed : ℕ → Instances → Instances
renewed pid s = record s {
  current = some s.next_context;
  instance_pid = some pid;
  next_context = suc s.next_context;
  closed_flags = Dict.insert s.next_context false s.closed_flags;
}

-- `instance` in the process `pid`; the test is made again under the lock.
pub instance_of : ℕ → Instances → Option ℕ × Instances
instance_of pid s =
    if is_stale pid s
    then (if is_stale pid s then ((renewed pid s).current, renewed pid s) else (s.current, s))
    else (s.current, s)

-- The backend, of which each call may raise: creating a socket, the test of its handle that `closed`
-- makes (`zmq_getsockopt` answers ENOTSOCK), closing it, terminating the context, and the options.
pub record Driver (Net : Type 0) : Type 0 where
  pub create : ℕ → ℕ → Net → Result (Unit {0}) × Net
  pub is_not_socket : ℕ → Net → Result Bool × Net
  pub close : ℕ → Net → Result (Unit {0}) × Net
  pub term : Net → Result (Unit {0}) × Net
  pub setsockopt : ℕ → ℕ → ℕ → Net → Result (Unit {0}) × Net
  pub linger_option : ℕ
  pub enotsup : ℕ
  pub context_set : ℕ → ℕ → Net → Result (Unit {0}) × Net
  pub context_get : ℕ → Net → Result ℕ
  pub is_context_option : Bytes → Bool
  pub socket_option : Bytes → Option ℕ

-- `_sockets` holds the sockets by number; those that were closed are kept in `closed_sockets`.
pub record Context (Net : Type 0) : Type 0 where
  pub net : Net
  pub closed : Bool
  pub sockopts : Dict ℕ ℕ
  pub sockets : List ℕ
  pub next_socket : ℕ
  pub closed_sockets : List ℕ

pub init : {Net : Type 0} → Net → Context Net
init net = record {
  net = net;
  closed = false;
  sockopts = [];
  sockets = [];
  next_socket = 0;
  closed_sockets = [];
}

unfoldable pub member : ℕ → List ℕ → Bool
member x [] = false
member x (y ∷ ys) = if y == x then true else member x ys

-- `_rm_socket`
pub discard : ℕ → List ℕ → List ℕ
discard x [] = []
discard x (y ∷ ys) = let rest = discard x ys in if y == x then rest else y ∷ rest

module _ {Net : Type 0} (drv : Driver Net) where
  abbrev pub Method : Type 0 → Type 0
  Method A = Exec (Context Net) A

  -- A call of the backend that may raise.
  pub call : {A : Type 0} → (Net → Result A × Net) → Method A
  call f s = ((f s.net).0, record s { net = (f s.net).1 })

  -- The backend's `term`; a context that could not be terminated stays open.
  pub term : Method (Unit {0})
  unfolding call
  term = call drv.term >> modify (λ s. record s { closed = true })

  add_socket : ℕ → Method (Unit {0})
  add_socket n =
      modify (λ s. record s { sockets = if member n s.sockets then s.sockets else n ∷ s.sockets })

  -- `Context._rm_socket`
  pub rm_socket : ℕ → Method (Unit {0})
  rm_socket n = modify (λ s. record s { sockets = discard n s.sockets })

  -- `self._closed = True` of a socket
  pub mark_closed : ℕ → Method (Unit {0})
  mark_closed n = modify (λ s. record s { closed_sockets = n ∷ s.closed_sockets })

  -- `Socket.closed`: a socket whose handle something else closed is marked too.
  pub is_closed : ℕ → Method Bool
  unfolding call mark_closed
  is_closed n s =
      if member n s.closed_sockets
      then (ok true, s)
      else (call (drv.is_not_socket n) >>= λ b. when b (mark_closed n) >> pure b) s

  -- The backend's `close` of a socket that is not marked: it is marked even when the call fails.
  pub close_handle : ℕ → Method (Unit {0})
  unfolding call mark_closed
  close_handle n = attempt (call (drv.close n)) >>= λ r. mark_closed n >> λ s. (r, s)

  -- `Socket.close`, for a socket of this context
  pub close_socket : ℕ → Method (Unit {0})
  unfolding rm_socket close_handle
  close_socket n = rm_socket n >> close_handle n

  -- One round of the loop of `destroy`.
  pub dispose : Option ℕ → ℕ → Method (Unit {0})
  unfolding call close_socket is_closed
  dispose linger n = do
    shut ← is_closed n
    when (not shut) (elim linger [
      | none ↦ close_socket n
      | some v ↦ call (drv.setsockopt n drv.linger_option v) >> close_socket n
    ])

  pub dispose_all : Option ℕ → List ℕ → Method (Unit {0})
  dispose_all linger [] = pure tt
  dispose_all linger (n ∷ ns) = dispose linger n >> dispose_all linger ns

  pub destroy : Option ℕ → Method (Unit {0})
  unfolding term
  destroy linger s =
      if s.closed
      then (ok tt, s)
      else (dispose_all linger s.sockets >> term) (record s { sockets = [] })

  -- The defaults that a new socket gets; a `ZMQError` is ignored.
  tolerate : Result (Unit {0}) → Method (Unit {0})
  tolerate (err (zmq_error n)) = pure tt
  tolerate r = λ s. (r, s)

  set_default : ℕ → ℕ → ℕ → Method (Unit {0})
  unfolding tolerate
  set_default n opt value s =
      let r = drv.setsockopt n opt value s.net in tolerate r.0 (record s { net = r.1 })

  set_defaults : ℕ → Dict ℕ ℕ → Method (Unit {0})
  set_defaults n [] = pure tt
  set_defaults n ((opt, value) ∷ d) = set_default n opt value >> set_defaults n d

  new_socket : Method ℕ
  new_socket s = (ok s.next_socket, record s { next_socket = suc s.next_socket })

  pub socket : ℕ → Method ℕ
  unfolding call new_socket add_socket
  socket socket_type s =
      if s.closed
      then (err (zmq_error drv.enotsup), s)
      else (do
        n ← new_socket
        call (drv.create n socket_type)
        set_defaults n s.sockopts
        add_socket n
        pure n)
          s

  pub setsockopt : ℕ → ℕ → Method (Unit {0})
  setsockopt opt value = modify (λ s. record s { sockopts = Dict.insert opt value s.sockopts })

  pub getsockopt : ℕ → Method ℕ
  getsockopt opt s = elim (Dict.lookup opt s.sockopts) [
    | none ↦ (err key_error, s)
    | some v ↦ (ok v, s)
  ]

  -- `_set_attr_opt` and `_get_attr_opt`, with the name and the number of the option
  pub set_attr_opt : Bytes → ℕ → ℕ → Method (Unit {0})
  unfolding call
  set_attr_opt name opt value s =
      if drv.is_context_option name
      then call (drv.context_set opt value) s
      else elim (drv.socket_option name) [
        | none ↦ (err attribute_error, s)
        | some o ↦ (ok tt, record s { sockopts = Dict.insert opt value s.sockopts })
      ]

  pub get_attr_opt : Bytes → ℕ → Method ℕ
  get_attr_opt name opt s =
      if drv.is_context_option name
      then (drv.context_get opt s.net, s)
      else elim (Dict.lookup opt s.sockopts) [
        | none ↦ (err attribute_error, s)
        | some v ↦ (ok v, s)
      ]

  -- `__delattr__`, with the name in upper case
  pub del_attr : Bytes → Method (Unit {0})
  del_attr key s = elim (drv.socket_option key) [
    | none ↦ (err attribute_error, s)
    | some opt ↦
        if Dict.has opt s.sockopts
        then (ok tt, record s { sockopts = Dict.remove opt s.sockopts })
        else (err attribute_error, s)
  ]
