-- ===== src/Device/Monitored.antt =====
-- zmq/devices/monitoredqueue.py: the queue in Python that sends each message to a side socket, too. The
-- sockets are numbers, their operations parameters.
use pyzmq.Base.{
  ℕ, zero, suc, ◌≡◌, refl, Bool, ◌&&◌, List, [], ◌∷◌, Result, if◌then◌else◌, ◌==◌, Bytes, nat_eq,
}
use pyzmq.Base.Exec.{Exec, pure, ◌>>=◌, ◌>>◌, when}
use pyzmq.Base.Dict
use pyzmq.Base.Dict.{Dict}

pub record Driver (Net : Type 0) : Type 0 where
  pub recv_multipart : ℕ → Net → Result (List Bytes) × Net
  pub send_multipart : ℕ → List Bytes → Net → Result (Unit {0}) × Net
  pub poll : Net → Result (Dict ℕ ℕ) × Net
  pub type_of : ℕ → ℕ
  pub router : ℕ

-- `msg[:2] = msg[:2][::-1]`
pub swap_first : List Bytes → List Bytes
swap_first [] = []
swap_first (a ∷ []) = a ∷ []
swap_first (a ∷ b ∷ rest) = b ∷ a ∷ rest

-- A reply that comes back through the queue has its routing ids in the order in which they were sent.
pub swap_first_involutive : (msg : List Bytes) → swap_first (swap_first msg) ≡ msg
unfolding swap_first
swap_first_involutive [] = refl
swap_first_involutive (a ∷ []) = refl
swap_first_involutive (a ∷ b ∷ rest) = refl

module _ {Net : Type 0} (drv : Driver Net) where
  -- `_relay`
  pub relay : ℕ → ℕ → ℕ → Bytes → Bool → Exec Net (Unit {0})
  unfolding swap_first
  relay ins outs sides prefix swap_ids = do
    received ← drv.recv_multipart ins
    let msg = if swap_ids then swap_first received else received
    drv.send_multipart outs msg
    drv.send_multipart sides (prefix ∷ msg)

  pub swaps_ids : ℕ → ℕ → Bool
  swaps_ids in_socket out_socket =
      drv.type_of in_socket == drv.router && drv.type_of out_socket == drv.router

  -- One round of the loop of `monitored_queue`, after the poll.
  pub relay_ready : ℕ → ℕ → ℕ → Bytes → Bytes → Dict ℕ ℕ → Exec Net (Unit {0})
  unfolding relay swaps_ids
  relay_ready in_socket out_socket mon_socket in_prefix out_prefix events = do
    when (Dict.has in_socket events)
        (relay in_socket out_socket mon_socket in_prefix (swaps_ids in_socket out_socket))
    when (Dict.has out_socket events)
        (relay out_socket in_socket mon_socket out_prefix (swaps_ids in_socket out_socket))

  -- `monitored_queue`, for a number of rounds; it goes on until an exception is raised.
  pub monitored_queue : ℕ → ℕ → ℕ → ℕ → Bytes → Bytes → Exec Net (Unit {0})
  unfolding relay_ready
  monitored_queue zero in_socket out_socket mon_socket in_prefix out_prefix = pure tt
  monitored_queue (suc rounds) in_socket out_socket mon_socket in_prefix out_prefix = do
    events ← drv.poll
    relay_ready in_socket out_socket mon_socket in_prefix out_prefix events
    monitored_queue rounds in_socket out_socket mon_socket in_prefix out_prefix
