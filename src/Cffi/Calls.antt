-- ===== src/Cffi/Calls.antt =====
-- zmq/backend/cffi/utils.py: calls of libzmq that are retried when a signal interrupts them.
use pyzmq.Base.{ℕ, zero, suc, Bool, true, false, Option, none, some, ok, zmq_error}
use pyzmq.Base.Exec.{Exec, pure, raise, Keeps}
use pyzmq.Base.Int.{ℤ}
use pyzmq.Errors.{Errnos, Raised, interrupted_system_call, check_rc, errno_of}

-- The error number that libzmq left, and the numbers of the platform.
pub record Errors (Net : Type 0) : Type 0 where
  pub errno : Net → ℕ
  pub errnos : Errnos

module _ {Net : Type 0} (drv : Errors Net) where
  -- What `_check_rc(rc)` raises.
  unfoldable pub failure : ℤ → Net → Option Raised
  failure rc net = check_rc drv.errnos (drv.errno net) rc none true

  unfoldable pub raise_failure : Option Raised → Exec Net (Unit {0})
  raise_failure none = pure tt
  raise_failure (some e) = raise (zmq_error (errno_of drv.errnos e))

  unfoldable pub check : ℤ → Exec Net (Unit {0})
  unfolding failure raise_failure
  check rc net = raise_failure (failure rc net) net

  -- `_retry_sys_call`, on fuel; whether it came to an end. `rest` is the next round.
  unfoldable pub settle_call : Option Raised → Exec Net Bool → Exec Net Bool
  settle_call none rest = pure true
  settle_call (some interrupted_system_call) rest = rest
  settle_call (some e) rest = raise (zmq_error (errno_of drv.errnos e))

  unfoldable pub retry_sys_call : ℕ → (Net → ℤ × Net) → Exec Net Bool
  unfolding settle_call failure
  retry_sys_call zero f net = (ok false, net)
  retry_sys_call (suc fuel) f net =
      settle_call (failure (f net).0 (f net).1) (retry_sys_call fuel f) (f net).1

  module _ (P : Net → Type 0) where
    pub check-Keeps : (rc : ℤ) → Keeps P (check rc)
    unfolding check raise_failure
    check-Keeps rc = record { at = λ net h. go (failure rc net) net h }
      where
        go : (r : Option Raised) (net : Net) → P net → P (raise_failure r net).1
        go none net h = h
        go (some e) net h = h

    settle_call-Keeps :
        (r : Option Raised) (rest : Exec Net Bool) → Keeps P rest → Keeps P (settle_call r rest)
    unfolding settle_call
    settle_call-Keeps none rest k = record { at = λ net h. h }
    settle_call-Keeps (some interrupted_system_call) rest k = k
    settle_call-Keeps (some _) rest k = record { at = λ net h. h }

    -- What every call keeps, the retried call keeps.
    pub retry_sys_call-Keeps :
        (fuel : ℕ) (f : Net → ℤ × Net)
        → ((net : Net) → P net → P (f net).1)
        → Keeps P (retry_sys_call fuel f)
    unfolding retry_sys_call
    retry_sys_call-Keeps zero f k = record { at = λ net h. h }
    retry_sys_call-Keeps (suc fuel) f k = record {
      at = λ net h.
          (settle_call-Keeps (failure (f net).0 (f net).1) (retry_sys_call fuel f)
              (retry_sys_call-Keeps fuel f k)).at
            (f net).1 (k net h);
    }
