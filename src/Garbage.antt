-- ===== src/Garbage.antt =====
-- zmq/utils/garbage.py: the references that are held for libzmq during zero-copy sends. The identity
-- that Python gives a new tuple is an argument; objects, events and process ids are numbers.
pub mod Held
pub mod Tests
use pyzmq.Base.{
  ℕ, Bool, true, false, not, ◌&&◌, Option, none, some, List, [], ◌∷◌, Result, ok, err,
  runtime_error, if◌then◌else◌, ◌==◌, nat_eq, bytes_eq, Bytes, codes,
}
use pyzmq.Base.Dict
use pyzmq.Base.Dict.{Dict}

-- `gcref`
abbrev pub Gcref : Type 0
Gcref = ℕ × Option ℕ

-- The thread is there, and it runs or it has ended; `set_events` are the events that were set.
pub record GarbageCollector : Type 0 where
  pub refs : Dict ℕ Gcref
  pub pid : Option ℕ
  pub thread : Option Bool
  pub context : Option ℕ
  pub stay_down : Bool
  pub push : Option ℕ
  pub set_events : List ℕ

-- `__init__`
unfoldable pub init : Option ℕ → GarbageCollector
init context = record {
  refs = [];
  pid = none;
  thread = none;
  context = context;
  stay_down = false;
  push = none;
  set_events = [];
}

-- `getpid() != self.pid`
pub same_process : ℕ → Option ℕ → Bool
same_process pid none = false
same_process pid (some p) = pid == p

pub runs : Option Bool → Bool
runs none = false
runs (some b) = b

-- `is_alive`, in the process `pid`
pub is_alive : ℕ → GarbageCollector → Bool
unfolding same_process runs
is_alive pid gc = same_process pid gc.pid && runs gc.thread

-- `_clear`; without a thread, the setter of the context only sets it
pub clear : GarbageCollector → GarbageCollector
clear gc = record gc { push = none; thread = none; refs = []; context = none }

-- `self.thread is not None`
pub is_there : Option Bool → Bool
is_there none = false
is_there (some b) = true

-- `start`: a thread of another process is forgotten first.
pub start : ℕ → GarbageCollector → GarbageCollector
unfolding clear same_process is_there
start pid gc =
    let gc' = if is_there gc.thread && not (same_process pid gc.pid) then clear gc else gc in
    record gc' { pid = some pid; refs = []; thread = some true }

-- `store`: the key of the reference, 0 at shutdown
pub ensure_started : ℕ → GarbageCollector → GarbageCollector
unfolding is_alive start
ensure_started pid gc = if is_alive pid gc then gc else start pid gc

pub store : ℕ → ℕ → ℕ → Option ℕ → GarbageCollector → ℕ × GarbageCollector
unfolding ensure_started
store pid theid obj event gc =
    if not (is_alive pid gc) && gc.stay_down
    then (0, gc)
    else (let gc' = ensure_started pid gc in
        (theid, record gc' { refs = Dict.insert theid (obj, event) gc'.refs }))

-- `if tup and tup.event: tup.event.set()`
pub signal : Option Gcref → List ℕ → List ℕ
signal (some (obj, some event)) set_events = event ∷ set_events
signal _ set_events = set_events

-- The thread takes a key from its socket: the reference is popped, and its event is set.
pub release : ℕ → GarbageCollector → GarbageCollector
unfolding signal
release key gc = record gc {
  refs = Dict.remove key gc.refs;
  set_events = signal (Dict.lookup key gc.refs) gc.set_events;
}

-- One message to the thread: whether it goes on.
pub receive : (Bytes → ℕ) → Bytes → GarbageCollector → Bool × GarbageCollector
unfolding release
receive unpack msg gc =
    if bytes_eq.beq msg (codes "DIE")
    then (false, record gc { thread = some false })
    else (true, release (unpack msg) gc)

-- `stop`, once the thread has ended
pub stop : ℕ → GarbageCollector → GarbageCollector
unfolding is_alive clear
stop pid gc = if is_alive pid gc then clear gc else gc

-- `_atexit`
pub at_exit : ℕ → GarbageCollector → GarbageCollector
unfolding stop
at_exit pid gc = stop pid (record gc { stay_down = true })

-- `_push_socket`, with the number of a new socket
pub push_socket : ℕ → ℕ → GarbageCollector → Result ℕ × GarbageCollector
unfolding is_alive
push_socket pid new gc = if gc.stay_down then (err runtime_error, gc) else elim gc.push [
  | none ↦ (ok new, record gc { push = some new })
  | some p ↦ if is_alive pid gc then (ok p, gc) else (ok new, record gc { push = some new })
]
