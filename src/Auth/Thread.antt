-- ===== src/Auth/Thread.antt =====
-- zmq/auth/thread.py: the messages by which a `ThreadAuthenticator` configures the authenticator of its
-- thread. The codec of `encoding`, which may raise, and `jsonapi` are parameters; log calls are left
-- out.
pub mod Front
pub mod Commands
pub mod Tests
use pyzmq.Base.{
  ℕ, Bool, true, false, Option, none, some, List, [], ◌∷◌, Result, ok, err, ◌>>=◌, index_error,
  if◌then◌else◌, bytes_eq, Bytes, codes,
}
use pyzmq.Base.Dict.{Dict}
use pyzmq.Auth.{Text, Authenticator, allow, deny, configure_plain, configure_curve}

pub record Codec : Type 0 where
  pub encode : Text → Result Bytes
  pub decode : Bytes → Result Text
  pub dumps : Dict Text Text → Result Bytes
  pub loads : Bytes → Result (Dict Text Text)

-- `[f(x) for x in xs]`, where `f` may raise
unfoldable pub each : (Bytes → Result Bytes) → List Bytes → Result (List Bytes)
each f [] = ok []
each f (x ∷ xs) = f x >>= λ y. each f xs >>= λ ys. ok (y ∷ ys)

module _ (codec : Codec) where
  -- `AuthenticationThread._handle_pipe`: whether to terminate, and the authenticator.
  abbrev pub Handled : Type 0
  Handled = Result Bool × Authenticator

  -- An exception of `allow` and `deny` is logged and swallowed.
  pub handle_allow : Result (List Text) → Authenticator → Handled
  handle_allow (err e) a = (err e, a)
  handle_allow (ok addresses) a = (ok false, (allow addresses a).1)

  pub handle_deny : Result (List Text) → Authenticator → Handled
  handle_deny (err e) a = (err e, a)
  handle_deny (ok addresses) a = (ok false, (deny addresses a).1)

  pub then_plain : Text → Result (Dict Text Text) → Authenticator → Handled
  then_plain domain (err e) a = (err e, a)
  then_plain domain (ok passwords) a = (ok false, configure_plain domain passwords a)

  -- `msg[1]` and `msg[2]` may be missing; the domain is decoded before the passwords are looked at.
  pub decoded_plain : Result Text → List Bytes → Authenticator → Handled
  unfolding then_plain
  decoded_plain (err e) rest a = (err e, a)
  decoded_plain (ok domain) [] a = (err index_error, a)
  decoded_plain (ok domain) (json ∷ more) a = then_plain domain (codec.loads json) a

  pub handle_plain : List Bytes → Authenticator → Handled
  unfolding decoded_plain
  handle_plain [] a = (err index_error, a)
  handle_plain (d ∷ rest) a = decoded_plain (codec.decode d) rest a

  module _ (load_certificates : Text → Result (Dict Bytes Bool)) where
    pub then_curve : Text → Result Text → Authenticator → Handled
    then_curve domain (err e) a = (err e, a)
    then_curve domain (ok location) a =
        (ok false, configure_curve load_certificates domain location a)

    pub decoded_curve : Result Text → List Bytes → Authenticator → Handled
    unfolding then_curve
    decoded_curve (err e) rest a = (err e, a)
    decoded_curve (ok domain) [] a = (err index_error, a)
    decoded_curve (ok domain) (l ∷ more) a = then_curve domain (codec.decode l) a

    pub handle_curve : List Bytes → Authenticator → Handled
    unfolding decoded_curve
    handle_curve [] a = (err index_error, a)
    handle_curve (d ∷ rest) a = decoded_curve (codec.decode d) rest a

    pub handle_command : Bytes → List Bytes → Authenticator → Handled
    unfolding handle_allow handle_deny handle_plain handle_curve each
    handle_command command args a =
        if bytes_eq.beq command (codes "ALLOW")
        then handle_allow (each codec.decode args) a
        else if bytes_eq.beq command (codes "DENY")
        then handle_deny (each codec.decode args) a
        else if bytes_eq.beq command (codes "PLAIN")
        then handle_plain args a
        else if bytes_eq.beq command (codes "CURVE")
        then handle_curve args a
        else if bytes_eq.beq command (codes "TERMINATE")
        then (ok true, a)
        else (ok false, a)

    pub handle_pipe : Option (List Bytes) → Authenticator → Handled
    unfolding handle_command
    handle_pipe none a = (ok true, a)
    handle_pipe (some []) a = (err index_error, a)
    handle_pipe (some (command ∷ args)) a = handle_command command args a

    pub go_on : Handled → (Authenticator → Handled) → Handled
    go_on (ok true, a) rest = (ok true, a)
    go_on (ok false, a) rest = rest a
    go_on (err e, a) rest = (err e, a)

    -- The inner loop of `run`: the messages that are there are handled in order, until one terminates
    -- or an exception ends the thread.
    pub handle_all : List (List Bytes) → Authenticator → Handled
    unfolding handle_pipe go_on
    handle_all [] a = (ok false, a)
    handle_all (msg ∷ msgs) a = go_on (handle_pipe (some msg) a) (handle_all msgs)
