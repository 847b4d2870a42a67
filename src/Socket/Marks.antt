-- ===== src/Socket/Marks.antt =====
-- The high-water mark of a socket (`get_hwm` and `set_hwm` of zmq/sugar/socket.py).
use pyzmq.Base.{
  ℕ, ◌≡◌, ◌↔◌, refl, ◌∙◌, Bool-cases, inl, inr, Bool, true, Result, ok, err, zmq_error,
  if◌then◌else◌,
}
use pyzmq.Base.Exec.{Exec, attempt, ◌>>=◌}

-- The options of the backend's socket.
pub data Mark : Type 0 where
  sndhwm rcvhwm hwm : Mark

pub record Driver (Net : Type 0) : Type 0 where
  pub major_at_least_3 : Bool
  pub get : Mark → Net → Result ℕ
  pub set : Mark → ℕ → Net → Result (Unit {0}) × Net

module _ {Net : Type 0} (drv : Driver Net) where
  -- `get_hwm` falls back on the receiving mark where the sending one gives a `ZMQError`.
  pub fall_back : Net → Result ℕ → Result ℕ
  fall_back net (err (zmq_error n)) = drv.get rcvhwm net
  fall_back net r = r

  pub get_hwm : Net → Result ℕ
  unfolding fall_back
  get_hwm net = if drv.major_at_least_3 then fall_back net (drv.get sndhwm net) else drv.get hwm net

  -- The error that was raised last, if any.
  unfoldable pub last_raised : Result (Unit {0}) → Result (Unit {0}) → Result (Unit {0})
  last_raised snd (err e) = err e
  last_raised snd (ok _) = snd

  unfoldable pub set_both : ℕ → Exec Net (Unit {0})
  unfolding last_raised
  set_both value = do
    snd ← attempt (drv.set sndhwm value)
    rcv ← attempt (drv.set rcvhwm value)
    λ net. (last_raised snd rcv, net)

  unfoldable pub set_hwm : ℕ → Exec Net (Unit {0})
  unfolding set_both
  set_hwm value = if drv.major_at_least_3 then set_both value else drv.set hwm value

-- A backend that keeps what was set, each mark by itself.
pub record IsStore {Net : Type 0} (drv : Driver Net) : Type 0 where
  pub own :
      (m : Mark) (v : ℕ) (net : Net)
      → (drv.set m v net).0 ≡ ok tt
      → drv.get m (drv.set m v net).1 ≡ ok v
  pub other : (v : ℕ) (net : Net) → drv.get sndhwm (drv.set rcvhwm v net).1 ≡ drv.get sndhwm net

module _ {Net : Type 0} (drv : Driver Net) (value : ℕ) (net : Net) where
  last_raised-ok :
      (snd rcv : Result (Unit {0}))
      → (last_raised drv snd rcv ≡ ok tt) ↔ ((snd ≡ ok tt) × (rcv ≡ ok tt))
  unfolding last_raised
  last_raised-ok snd (ok _) = ((λ h. (h, refl)), λ h. h.0)
  last_raised-ok snd (err e) = ((λ h. cc), λ h. h.1)

  -- On libzmq 3 and later `set_hwm` sets the sending mark and then the receiving one, also when the
  -- first raises; and it returns exactly when both were set.
  pub set_hwm_both :
      drv.major_at_least_3 ≡ true
      → let snd = drv.set sndhwm value net in
        let rcv = drv.set rcvhwm value snd.1 in
        ((set_hwm drv value net).1 ≡ rcv.1)
        × (((set_hwm drv value net).0 ≡ ok tt) ↔ ((snd.0 ≡ ok tt) × (rcv.0 ≡ ok tt)))
  unfolding set_hwm
  set_hwm_both h = rw h (refl, last_raised-ok _ _)

  -- On a backend that keeps its options, if `set_hwm` returns then `get_hwm` answers the value that
  -- was set, on libzmq 2 as on later versions.
  pub get_hwm-set_hwm :
      IsStore drv
      → (set_hwm drv value net).0 ≡ ok tt
      → get_hwm drv (set_hwm drv value net).1 ≡ ok value
  unfolding get_hwm set_hwm
  get_hwm-set_hwm store h = elim (Bool-cases drv.major_at_least_3) [
    | inl m ↦
        let (set_snd, set_rcv) = (last_raised-ok _ _).0 (rw m at h) in
        rw m (
          rw (store.other value (drv.set sndhwm value net).1 ∙ store.own sndhwm value net set_snd)
            refl)
    | inr m ↦ rw m (store.own hwm value net (rw m at h))
  ]
