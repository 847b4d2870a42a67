-- ===== src/Cffi/Context.antt =====
-- zmq/backend/cffi/context.py: `Context`. The context of libzmq is a number, `none` is NULL.
use pyzmq.Base.{
  zero, suc, ℕ, Bool, true, false, Option, none, some, Result, ok, err, zmq_error, if◌then◌else◌,
}
use pyzmq.Base.Exec.{Exec, pure, raise, gets, modify, ◌>>=◌, ◌>>◌}
use pyzmq.Base.Int.{ℤ, is_negative}
use pyzmq.Errors.{Errnos, Raised, interrupted_system_call, check_rc, errno_of}

pub record Driver (Net : Type 0) : Type 0 where
  pub ctx_new : Net → Option ℕ × Net
  pub ctx_set : Option ℕ → ℕ → ℤ → Net → ℤ × Net
  pub ctx_get : Option ℕ → ℕ → Net → ℤ × Net
  pub ctx_destroy : Option ℕ → Net → ℤ × Net
  pub errno : Net → ℕ
  pub errnos : Errnos
  pub einval : ℕ
  pub io_threads : ℕ

pub record Context (Net : Type 0) : Type 0 where
  pub net : Net
  pub zmq_ctx : Option ℕ
  pub closed : Bool
  pub shadow : Bool

module _ {Net : Type 0} (drv : Driver Net) where
  -- A new context: a negative number of threads is refused before libzmq is called.
  pub new_context : ℤ → Net → Result (Context Net) × Net
  new_context io_threads net =
      if is_negative io_threads
      then (err (zmq_error drv.einval), net)
      else elim (drv.ctx_new net).0 [
        | none ↦ (err (zmq_error (drv.errno (drv.ctx_new net).1)), (drv.ctx_new net).1)
        | some c ↦
            let net' = (drv.ctx_set (some c) drv.io_threads io_threads (drv.ctx_new net).1).1 in
            (ok (record { net = net'; zmq_ctx = some c; closed = false; shadow = false }), net')
      ]

  -- `__init__`; a shadow address that is 0 is no shadow
  pub init : ℤ → Option ℕ → Net → Result (Context Net) × Net
  unfolding new_context
  init io_threads none net = new_context io_threads net
  init io_threads (some zero) net = new_context io_threads net
  init io_threads (some (suc c)) net =
      (ok (record { net = net; zmq_ctx = some (suc c); closed = false; shadow = true }), net)

  abbrev pub Method : Type 0 → Type 0
  Method A = Exec (Context Net) A

  pub raise_failure : Option Raised → Method (Unit {0})
  raise_failure none = pure tt
  raise_failure (some e) = raise (zmq_error (errno_of drv.errnos e))

  pub check : ℤ → Bool → Method (Unit {0})
  unfolding raise_failure
  check rc error_without_errno s =
      raise_failure (check_rc drv.errnos (drv.errno s.net) rc none error_without_errno) s

  pub call : (Net → ℤ × Net) → Method ℤ
  call f s = (ok (f s.net).0, record s { net = (f s.net).1 })

  pub set : ℕ → ℤ → Method (Unit {0})
  unfolding call check
  set option value = do
    ctx ← gets (λ s. s.zmq_ctx)
    rc ← call (drv.ctx_set ctx option value)
    check rc true

  pub get : ℕ → Method ℤ
  unfolding call check
  get option = do
    ctx ← gets (λ s. s.zmq_ctx)
    rc ← call (drv.ctx_get ctx option)
    check rc false
    pure rc

  -- `term`: an interruption is ignored, any other failure leaves the context as it is.
  pub finish_term : Option Raised → Method (Unit {0})
  finish_term none = modify (λ s. record s { zmq_ctx = none; closed = true })
  finish_term (some interrupted_system_call) =
      modify (λ s. record s { zmq_ctx = none; closed = true })
  finish_term (some e) = raise (zmq_error (errno_of drv.errnos e))

  pub term : Method (Unit {0})
  unfolding call finish_term
  term = do
    is_closed ← gets (λ s. s.closed)
    if is_closed then pure tt else (do
      ctx ← gets (λ s. s.zmq_ctx)
      rc ← call (drv.ctx_destroy ctx)
      λ s. finish_term (check_rc drv.errnos (drv.errno s.net) rc none true) s)
