-- ===== src/Cffi/Options.antt =====
-- The options of zmq/backend/cffi/socket.py: `set` and `get` with the conversion of values to C. Numbers
-- that do not fit are refused as cffi refuses them.
use pyzmq.Base.{
  ℕ, ◌^◌, Bool, true, false, Option, none, some, [], ◌∷◌, Result, ok, err, type_error,
  overflow_error, if◌then◌else◌, ◌==◌, ltb, Bytes, length,
}
use pyzmq.Base.Exec.{Exec, ◌>>=◌}
use pyzmq.Base.Int.{ℤ, pos, negsuc}
use pyzmq.Constants.Options.{
  OptType, int_option, int64_option, bytes_option, fd_option, socket_options, type_of,
}
use pyzmq.Cffi.Calls.{Errors, retry_sys_call}

pub data Value : Type 0 where
  number : ℤ → Value
  binary text : Bytes → Value

-- What a C pointer points to, with its size.
pub data Pointer : Type 0 where
  int_pointer int64_pointer : ℤ → Pointer
  char_pointer : Bytes → ℕ → Pointer

-- The type of an option; an unknown number is taken for an int.
pub opt_type : ℕ → OptType
opt_type option = elim (type_of option socket_options) [ none ↦ int_option | some t ↦ t ]

-- Whether a number fits a signed C type whose highest bit is `half`.
pub fits : ℕ → ℤ → Bool
fits half (pos n) = ltb n half
fits half (negsuc n) = ltb n half

-- Whether an option is stored in 64 bits; `fd_64bit` is ZMQ_FD_64BIT.
pub is_64bit : Bool → OptType → Bool
is_64bit fd_64bit int64_option = true
is_64bit fd_64bit fd_option = fd_64bit
is_64bit fd_64bit _ = false

pub is_bytes : OptType → Bool
is_bytes bytes_option = true
is_bytes _ = false

pub value_int64_pointer : ℤ → Result Pointer
unfolding fits
value_int64_pointer z = if fits (2 ^ 63) z then ok (int64_pointer z) else err overflow_error

pub value_int_pointer : ℤ → Result Pointer
unfolding fits
value_int_pointer z = if fits (2 ^ 31) z then ok (int_pointer z) else err overflow_error

-- `initialize_opt_pointer`, after the type checks of `set`: a number for an option of bytes has no
-- length.
pub initialize_opt_pointer : Bool → OptType → Value → Result Pointer
unfolding is_64bit is_bytes value_int64_pointer value_int_pointer
initialize_opt_pointer fd_64bit t (text s) = err type_error
initialize_opt_pointer fd_64bit t (binary b) =
    if is_bytes t then ok (char_pointer b (length b)) else err type_error
initialize_opt_pointer fd_64bit t (number z) =
    if is_64bit fd_64bit t
    then value_int64_pointer z
    else if is_bytes t
    then err type_error
    else value_int_pointer z

-- `new_pointer_from_opt(option, length=255)`: room for the answer
pub new_pointer_from_opt : Bool → OptType → Pointer
unfolding is_64bit is_bytes
new_pointer_from_opt fd_64bit t =
    if is_64bit fd_64bit t
    then int64_pointer (pos 0)
    else if is_bytes t
    then char_pointer [] 255
    else int_pointer (pos 0)

-- `value_from_opt_pointer`
pub value_from_opt_pointer : Pointer → Value
value_from_opt_pointer (int_pointer z) = number z
value_from_opt_pointer (int64_pointer z) = number z
value_from_opt_pointer (char_pointer b size) = binary b

-- `if v.endswith(b'\\0'): v = v[:-1]`
pub without_nul : Bytes → Bytes
without_nul [] = []
without_nul (b ∷ []) = if b == 0 then [] else b ∷ []
without_nul (b ∷ c ∷ bs) = b ∷ without_nul (c ∷ bs)

pub strip_value : Bool → Value → Value
unfolding without_nul
strip_value is_routing_id (binary b) = if is_routing_id then binary b else binary (without_nul b)
strip_value is_routing_id v = v

pub record Driver (Net : Type 0) : Type 0 where
  pub errors : Errors Net
  pub fd_64bit : Bool
  pub setsockopt : ℕ → ℕ → Pointer → Net → ℤ × Net
  pub getsockopt : ℕ → ℕ → Pointer → Net → ℤ × Net
  -- what the last `getsockopt` wrote
  pub written : Net → Pointer

module _ {Net : Type 0} (drv : Driver Net) where
  -- `set`, on fuel for the repeated call; whether it came to an end
  pub set : ℕ → ℕ → ℕ → Value → Exec Net Bool
  unfolding opt_type initialize_opt_pointer
  set fuel socket option value net =
      elim (initialize_opt_pointer drv.fd_64bit (opt_type option) value) [
        | err e ↦ (err e, net)
        | ok p ↦ retry_sys_call drv.errors fuel (drv.setsockopt socket option p) net
      ]

  -- `get`; ROUTING_ID is 5
  pub get : ℕ → ℕ → ℕ → Exec Net (Option Value)
  unfolding opt_type new_pointer_from_opt value_from_opt_pointer strip_value
  get fuel socket option = do
    returned ←
        retry_sys_call drv.errors fuel
          (drv.getsockopt socket option (new_pointer_from_opt drv.fd_64bit (opt_type option)))
    λ net. (
      ok (
          if returned
          then some (strip_value (option == 5) (value_from_opt_pointer (drv.written net)))
          else none),
      net,
    )
