-- ===== src/Cffi/Poll.antt =====
-- zmq/backend/cffi/_poll.py: `zmq_poll`. libzmq's function, its error number and the clock are
-- parameters over a state of the world; a C pointer and the object of a socket are numbers.
pub mod Retries
pub mod Results
pub mod Tests
use pyzmq.Base.{
  ℕ, zero, suc, ◌+◌, ◌-◌, Bool, true, false, Option, none, some, List, [], ◌∷◌, Result, ok, err,
  Error, zmq_error, key_error, if◌then◌else◌, ◌==◌, ==_iff, Eq, ltb, ◌≡◌, ◌↔◌, refl, arith, ◌∙◌, ap,
}
use pyzmq.Base.Exec.{Exec, pure, raise, ◌>>=◌, ◌>>◌}
use pyzmq.Base.Int.{ℤ, pos, negsuc}
use pyzmq.Base.Dict
use pyzmq.Base.Dict.{Dict}
use pyzmq.Errors
use pyzmq.Errors.{Errnos, Raised, interrupted_system_call, check_rc, errno_of}

-- What can be polled: a socket with its pointer, a descriptor, or an object with a `fileno()`.
pub data Target : Type 0 where
  socket : ℕ → ℕ → Target
  descriptor : ℕ → Target
  file : ℕ → Target

-- What `zmq_poll` answers for an item.
pub data Object : Type 0 where
  socket_object fd_object : ℕ → Object

-- `zmq_pollitem_t`; the socket `none` is NULL
pub record PollItem : Type 0 where
  pub socket : Option ℕ
  pub fd : ℕ
  pub events : ℕ
  pub revents : ℕ

-- The keys of `low_level_to_socket_obj`.
pub data Key : Type 0 where
  pointer number : ℕ → Key

unfoldable pub key_beq : Key → Key → Bool
key_beq (pointer a) (pointer b) = a == b
key_beq (number a) (number b) = a == b
key_beq _ _ = false

pub key_beq_iff : (a b : Key) → (key_beq a b ≡ true) ↔ (a ≡ b)
unfolding key_beq
key_beq_iff (pointer a) (pointer b) =
    ((λ h. ap pointer ((==_iff a b).0 h)), λ h. (==_iff a b).1 (cc))
key_beq_iff (number a) (number b) = ((λ h. ap number ((==_iff a b).0 h)), λ h. (==_iff a b).1 (cc))
key_beq_iff (pointer a) (number b) = ((λ h. absurd (cc)), λ h. absurd (cc))
key_beq_iff (number a) (pointer b) = ((λ h. absurd (cc)), λ h. absurd (cc))

instance abbrev pub key_eq : Eq Key
key_eq = record { beq = key_beq; beq_iff = key_beq_iff }

unfoldable pub make_zmq_pollitem : ℕ → ℕ → PollItem
make_zmq_pollitem zmq_socket flags = record {
  socket = some zmq_socket;
  fd = 0;
  events = flags;
  revents = 0;
}

unfoldable pub make_zmq_pollitem_fromfd : ℕ → ℕ → PollItem
make_zmq_pollitem_fromfd socket_fd flags = record {
  socket = none;
  fd = socket_fd;
  events = flags;
  revents = 0;
}

abbrev pub Known : Type 0
Known = Dict Key (Object × ℕ)

-- The first loop: the items, and the objects behind them.
unfoldable pub make_item : Target → ℕ → PollItem
unfolding make_zmq_pollitem make_zmq_pollitem_fromfd
make_item (socket o p) flags = make_zmq_pollitem p flags
make_item (descriptor n) flags = make_zmq_pollitem_fromfd n flags
make_item (file n) flags = make_zmq_pollitem_fromfd n flags

pub remember : Target → ℕ → Known → Known
remember (socket o p) flags known = Dict.insert (pointer p) (socket_object o, flags) known
remember (descriptor n) flags known = Dict.insert (number n) (fd_object n, flags) known
remember (file n) flags known = Dict.insert (number n) (fd_object n, flags) known

unfoldable pub make_items : List (Target × ℕ) → List PollItem
unfolding make_item
make_items [] = []
make_items ((t, flags) ∷ sockets) = make_item t flags ∷ make_items sockets

pub remember_all : List (Target × ℕ) → Known → Known
unfolding remember
remember_all [] known = known
remember_all ((t, flags) ∷ sockets) known = remember_all sockets (remember t flags known)

-- The last loop: what the items with events stand for.
pub known_object : Option (Object × ℕ) → Result Object
known_object none = err key_error
known_object (some (o, flags)) = ok o

pub object_of : Known → PollItem → Result Object
unfolding known_object
object_of known item = elim item.socket [
  | none ↦ ok (fd_object item.fd)
  | some p ↦ known_object (Dict.lookup (pointer p) known)
]

pub cons_result : Result Object → ℕ → Result (List (Object × ℕ)) → Result (List (Object × ℕ))
cons_result (err e) revents rest = err e
cons_result (ok o) revents (err e) = err e
cons_result (ok o) revents (ok rest) = ok ((o, revents) ∷ rest)

pub collect : Known → List PollItem → Result (List (Object × ℕ))
unfolding object_of cons_result
collect known [] = ok []
collect known (item ∷ items) =
    let rest = collect known items in
    if ltb 0 item.revents then cons_result (object_of known item) item.revents rest else rest

-- libzmq's call answers the return code and the new `revents`, in the order of the items.
pub record Driver (Net : Type 0) : Type 0 where
  pub poll : List PollItem → ℤ → Net → (ℤ × List ℕ) × Net
  pub errno : Net → ℕ
  pub monotonic : Net → ℕ × Net
  pub ms_between : ℕ → ℕ → ℤ
  pub errnos : Errnos

unfoldable pub set_revents : List PollItem → List ℕ → List PollItem
set_revents [] rs = []
set_revents (item ∷ items) [] = item ∷ items
set_revents (item ∷ items) (r ∷ rs) = record item { revents = r } ∷ set_revents items rs

-- One round of the loop: done, interrupted after so many milliseconds, or an exception.
pub data Round : Type 0 where
  finished : List PollItem → Round
  interrupted : List PollItem → ℕ → Round

-- `if ms_passed < 0: ms_passed = 0`
unfoldable pub clipped : ℤ → ℕ
clipped (pos n) = n
clipped (negsuc n) = 0

-- `timeout = max(0, timeout - ms_passed)`, where the timeout is positive
unfoldable pub next_timeout : ℤ → ℕ → ℤ
next_timeout (pos t) ms_passed = pos (t - ms_passed)
next_timeout (negsuc t) ms_passed = negsuc t

module _ {Net : Type 0} (drv : Driver Net) where
  -- `int(1000 * (monotonic() - start))`, which is computed for a positive timeout only
  unfoldable pub ms_passed : ℤ → ℕ → Exec Net ℕ
  unfolding clipped
  ms_passed (pos (suc t)) start net =
      (ok (clipped (drv.ms_between start (drv.monotonic net).0)), (drv.monotonic net).1)
  ms_passed timeout start net = (ok 0, net)

  unfoldable pub after_check : List PollItem → ℤ → ℕ → Option Raised → Exec Net Round
  unfolding ms_passed
  after_check items timeout start none = pure (finished items)
  after_check items timeout start (some interrupted_system_call) =
      ms_passed timeout start >>= λ ms. pure (interrupted items ms)
  after_check items timeout start (some e) = raise (zmq_error (errno_of drv.errnos e))

  unfoldable pub round : List PollItem → ℤ → Exec Net Round
  unfolding after_check set_revents
  round items timeout net =
      let (start, net₁) = drv.monotonic net in
      let ((rc, revents), net₂) = drv.poll items timeout net₁ in
      after_check (set_revents items revents) timeout start
        (check_rc drv.errnos (drv.errno net₂) rc none true) net₂

  -- `while True`, on fuel; `none` means that the fuel was used up.
  pub poll_loop : ℕ → List PollItem → ℤ → Exec Net (Option (List PollItem))
  unfolding round next_timeout
  poll_loop zero items timeout = pure none
  poll_loop (suc fuel) items timeout = do
    outcome ← round items timeout
    elim outcome as (λ _. Exec Net (Option (List PollItem))) [
      | finished items' ↦ pure (some items')
      | interrupted items' ms ↦ poll_loop fuel items' (next_timeout timeout ms)
    ]

  pub collect_all : Known → Option (List PollItem) → Exec Net (Option (List (Object × ℕ)))
  unfolding collect
  collect_all known none net = (ok none, net)
  collect_all known (some items) net = elim (collect known items) [
    | ok result ↦ (ok (some result), net)
    | err e ↦ (err e, net)
  ]

  pub zmq_poll : ℕ → List (Target × ℕ) → ℤ → Exec Net (Option (List (Object × ℕ)))
  unfolding poll_loop collect_all make_items remember_all
  zmq_poll fuel sockets timeout =
      poll_loop fuel (make_items sockets) timeout >>= collect_all (remember_all sockets [])
