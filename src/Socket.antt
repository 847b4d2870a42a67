-- ===== src/Socket.antt =====
-- zmq/sugar/socket.py: what `Socket` adds to the backend's socket for messages. The backend is a
-- parameter over the state of the network; the transfer of multipart messages is in this module,
-- and the children have ports, options, monitoring and polling.
pub mod Multipart
pub mod Ports
pub mod Marks
pub mod Monitoring
pub mod Tests
use pyzmq.Base.{
  ℕ, zero, suc, Bool, true, false, not, ◌&&◌, Option, none, some, List, [], ◌∷◌, ◌++◌, Result, ok,
  err, Error, type_error, index_error, runtime_error, if◌then◌else◌, Bytes,
}
use pyzmq.Base.Exec.{Exec, pure, raise, ◌>>=◌, ◌>>◌, when}

-- What a caller hands over: a buffer, a `Frame` with its routing id and group, or an object without
-- the buffer interface.
pub data Part : Type 0 where
  buffer : Bytes → Part
  frame : Bytes → Option ℕ → Option Bytes → Part
  unsupported : Part

abbrev pub is_frame : Part → Bool
is_frame (frame b r g) = true
is_frame _ = false

-- The flags of a send: the SNDMORE bit and the others.
pub record Flags : Type 0 where
  pub sndmore : Bool
  pub others : ℕ

-- The keyword arguments of a send or a receive.
pub record Kwargs : Type 0 where
  pub copy : Bool
  pub track : Bool

-- The backend. A send answers a tracker or nothing.
pub record Driver (Net : Type 0) : Type 0 where
  pub send : Part → Flags → Kwargs → Net → Result (Option ℕ) × Net
  pub recv : ℕ → Kwargs → Net → Result Bytes × Net
  pub rcvmore : Net → Result Bool
  pub new_frame : Part → Kwargs → Result Part
  pub has_draft : Bool

-- `zmq.SNDMORE | flags`
abbrev pub with_sndmore : Flags → Flags
with_sndmore flags = record flags { sndmore = true }

module _ {Net : Type 0} (drv : Driver Net) where
  abbrev pub Method : Type 0 → Type 0
  Method A = Exec Net A

  -- `if not isinstance(data, zmq.Frame): data = zmq.Frame(data, …)`
  pub ensure_frame : Part → Kwargs → Method Part
  ensure_frame data_ kwargs net =
      if is_frame data_ then (ok data_, net) else (drv.new_frame data_ kwargs, net)

  -- `_draft`
  pub draft : Method (Unit {0})
  draft = if drv.has_draft then pure tt else raise runtime_error

  -- The setters `routing_id` and `group` of `Frame`.
  pub set_routing_id : ℕ → Part → Method Part
  unfolding draft
  set_routing_id r (frame b _ g) = draft >> pure (frame b (some r) g)
  set_routing_id r p = draft >> pure p

  pub set_group : Bytes → Part → Method Part
  unfolding draft
  set_group g (frame b r _) = draft >> pure (frame b r (some g))
  set_group g p = draft >> pure p

  pub with_routing_id : Option ℕ → Part → Kwargs → Method Part
  unfolding ensure_frame set_routing_id
  with_routing_id none p kwargs = pure p
  with_routing_id (some r) p kwargs = ensure_frame p kwargs >>= set_routing_id r

  pub with_group : Option Bytes → Part → Kwargs → Method Part
  unfolding ensure_frame set_group
  with_group none p kwargs = pure p
  with_group (some g) p kwargs = ensure_frame p kwargs >>= set_group g

  pub send : Part → Flags → Kwargs → Option ℕ → Option Bytes → Method (Option ℕ)
  unfolding with_routing_id with_group
  send p flags kwargs routing_id group = do
    p' ← with_routing_id routing_id p kwargs
    p'' ← with_group group p' kwargs
    drv.send p'' flags kwargs

  -- The type checks of `send_multipart`.
  pub all_supported : List Part → Bool
  all_supported [] = true
  all_supported (unsupported ∷ ps) = false
  all_supported (p ∷ ps) = all_supported ps

  -- The frames before the last go with SNDMORE, the last goes without.
  pub send_parts : Part → List Part → Flags → Kwargs → Method (Option ℕ)
  unfolding send
  send_parts p [] flags kwargs = send p flags kwargs none none
  send_parts p (q ∷ ps) flags kwargs =
      send p (with_sndmore flags) kwargs none none >> send_parts q ps flags kwargs

  -- An empty list has no last part.
  pub send_checked : List Part → Flags → Kwargs → Method (Option ℕ)
  send_checked [] flags kwargs = raise index_error
  send_checked (p ∷ ps) flags kwargs = send_parts p ps flags kwargs

  pub send_multipart : List Part → Flags → Kwargs → Method (Option ℕ)
  unfolding send_checked
  send_multipart parts flags kwargs =
      if all_supported parts then send_checked parts flags kwargs else raise type_error

  -- `self.getsockopt(zmq.RCVMORE)`
  pub get_rcvmore : Method Bool
  get_rcvmore net = (drv.rcvmore net, net)

  -- The loop of `recv_multipart`, on fuel; `none` means that the fuel was used up.
  pub recv_rest : ℕ → ℕ → Kwargs → List Bytes → Method (Option (List Bytes))
  unfolding get_rcvmore
  recv_rest zero flags kwargs parts = pure none
  recv_rest (suc fuel) flags kwargs parts = do
    more ← get_rcvmore
    elim more as (λ _. Method (Option (List Bytes))) [
      | true ↦ drv.recv flags kwargs >>= λ part. recv_rest fuel flags kwargs (parts ++ (part ∷ []))
      | false ↦ pure (some parts)
    ]

  pub recv_multipart : ℕ → ℕ → Kwargs → Method (Option (List Bytes))
  unfolding recv_rest
  recv_multipart fuel flags kwargs = do
    first ← drv.recv flags kwargs
    recv_rest fuel flags kwargs (first ∷ [])

  -- The serialising pairs: a message is turned into frames, and received frames into a message.
  pub send_serialized : {M : Type 0} → (M → List Part) → M → Flags → Kwargs → Method (Option ℕ)
  send_serialized serialize msg flags kwargs = send_multipart (serialize msg) flags kwargs

  -- `_deserialize` on what was received.
  pub deserialize_frames :
      {M : Type 0} → (List Bytes → Result M) → Option (List Bytes) → Method (Option M)
  deserialize_frames load none net = (ok none, net)
  deserialize_frames load (some frames) net = elim (load frames) [
    | ok m ↦ (ok (some m), net)
    | err e ↦ (err e, net)
  ]

  pub recv_serialized : {M : Type 0} → (List Bytes → Result M) → ℕ → ℕ → Kwargs → Method (Option M)
  unfolding deserialize_frames
  recv_serialized load fuel flags kwargs =
      recv_multipart fuel flags kwargs >>= deserialize_frames load
