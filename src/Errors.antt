-- ===== src/Errors.antt =====
-- zmq/error.py: the exceptions, the check of return codes, and the check of libzmq's version.
pub mod Laws
pub mod Tests
use pyzmq.Base.{
  ℕ, Bool, true, false, not, ◌&&◌, ◌||◌, Option, none, some, List, [], ◌∷◌, ◌++◌, Result, ok, err,
  version_error, if◌then◌else◌, ◌==◌, ltb, Bytes, codes,
}
use pyzmq.Base.Int.{ℤ, pos, negsuc}

-- The error numbers of the platform and of libzmq.
pub record Errnos : Type 0 where
  pub eintr : ℕ
  pub eagain : ℕ
  pub eterm : ℕ

-- The classes of the exceptions that a return code leads to.
pub data Raised : Type 0 where
  interrupted_system_call again context_terminated : Raised
  zmq_error : ℕ → Raised

-- `errno` of an exception, as the classes' `__init__` set it.
pub errno_of : Errnos → Raised → ℕ
errno_of n interrupted_system_call = n.eintr
errno_of n again = n.eagain
errno_of n context_terminated = n.eterm
errno_of n (zmq_error e) = e

-- What `ZMQError` gets as `errno`: nothing, a number, or another object, here its `str`.
pub data Argument : Type 0 where
  no_errno : Argument
  number : ℕ → Argument
  object_ : Bytes → Argument

pub record ZmqError : Type 0 where
  pub errno : Option ℕ
  pub strerror : Bytes

-- `if msg is None: … else: …`
pub or_message : Option Bytes → Bytes → Bytes
or_message none text = text
or_message (some msg) text = msg

-- `ZMQError.__init__`; `zmq_errno` is the number of the last error, `strerror` is the backend's.
pub init : ℕ → (ℕ → Bytes) → Argument → Option Bytes → ZmqError
unfolding or_message
init zmq_errno strerror no_errno msg = record {
  errno = some zmq_errno;
  strerror = or_message msg (strerror zmq_errno);
}
init zmq_errno strerror (number n) msg = record {
  errno = some n;
  strerror = or_message msg (strerror n);
}
init zmq_errno strerror (object_ text) msg = record { errno = none; strerror = or_message msg text }

-- `InterruptedSystemCall.__str__`
pub interrupted_text : Bytes → Bytes
interrupted_text s = s ++ codes ": This call should have been retried. Please report this to pyzmq."

unfoldable pub is_minus_one : ℤ → Bool
is_minus_one (negsuc n) = n == 0
is_minus_one (pos n) = false

-- The class for an error number.
unfoldable pub raised : Errnos → ℕ → Raised
raised n errno =
    if errno == n.eintr
    then interrupted_system_call
    else if errno == n.eagain
    then again
    else if errno == n.eterm
    then context_terminated
    else zmq_error errno

-- `if errno is None: errno = zmq_errno()`
unfoldable pub known_errno : ℕ → Option ℕ → ℕ
known_errno zmq_errno none = zmq_errno
known_errno zmq_errno (some e) = e

-- `_check_rc`: what it raises, if anything
unfoldable pub check_rc : Errnos → ℕ → ℤ → Option ℕ → Bool → Option Raised
unfolding is_minus_one raised known_errno
check_rc n zmq_errno rc errno error_without_errno =
    if is_minus_one rc
    then (if known_errno zmq_errno errno == 0 && not error_without_errno
        then none
        else some (raised n (known_errno zmq_errno errno)))
    else none

-- `<` of tuples of numbers
pub tuple_less : List ℕ → List ℕ → Bool
tuple_less [] [] = false
tuple_less [] (y ∷ ys) = true
tuple_less (x ∷ xs) [] = false
tuple_less (x ∷ xs) (y ∷ ys) = let rest = tuple_less xs ys in if x == y then rest else ltb x y

-- `_check_version`, with the version that is linked
pub check_version : List ℕ → List ℕ → Result (Unit {0})
unfolding tuple_less
check_version version_info min_version_info =
    if tuple_less version_info min_version_info then err version_error else ok tt
