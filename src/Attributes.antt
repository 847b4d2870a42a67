-- ===== src/Attributes.antt =====
-- zmq/sugar/attrsettr.py: options of sockets and contexts as attributes. The names of the classes are a
-- list; `str.upper` and the `get` and `set` of the object are parameters.
pub mod Stored
use pyzmq.Base.{
  ℕ, Bool, true, false, ◌||◌, Option, none, some, List, [], ◌∷◌, Result, ok, err, attribute_error,
  zmq_error, if◌then◌else◌, ◌==◌, bytes_eq, Bytes,
}
use pyzmq.Base.Exec.{Exec}
use pyzmq.Base.Dict
use pyzmq.Base.Dict.{Dict}

-- `constants` are the names of zmq.constants with their values.
pub record Driver (V Net : Type 0) : Type 0 where
  pub upper : Bytes → Bytes
  pub constants : Dict Bytes ℕ
  pub class_names : List Bytes
  pub get : ℕ → Net → Result V × Net
  pub set : ℕ → V → Net → Result (Unit {0}) × Net
  pub einval : ℕ
  pub efault : ℕ

-- The `__dict__` of the object, and the world behind its options.
pub record Object (V Net : Type 0) : Type 0 where
  pub attributes : Dict Bytes V
  pub net : Net

pub is_name : Bytes → List Bytes → Bool
is_name key [] = false
is_name key (n ∷ ns) = if bytes_eq.beq n key then true else is_name key ns

module _ {V Net : Type 0} (drv : Driver V Net) where
  abbrev pub Method : Type 0 → Type 0
  Method A = Exec (Object V Net) A

  pub call : {A : Type 0} → (Net → Result A × Net) → Method A
  call f s = ((f s.net).0, record s { net = (f s.net).1 })

  -- `opt = getattr(constants, upper_key)`
  pub option_of : Bytes → Option ℕ
  option_of key = Dict.lookup (drv.upper key) drv.constants

  pub set_option : Option ℕ → V → Method (Unit {0})
  unfolding call
  set_option none value s = (err attribute_error, s)
  set_option (some opt) value s = call (drv.set opt value) s

  -- `__setattr__`: attributes of the object and of its classes come before the options.
  pub set_attr : Bytes → V → Method (Unit {0})
  unfolding is_name set_option option_of
  set_attr key value s =
      if Dict.has key s.attributes || is_name key drv.class_names
      then (ok tt, record s { attributes = Dict.insert key value s.attributes })
      else set_option (option_of key) value s

  -- A write-only option has no attribute to read.
  pub write_only : Result V → Result V
  write_only (err (zmq_error n)) =
      if n == drv.einval || n == drv.efault then err attribute_error else err (zmq_error n)
  write_only r = r

  pub get_option : Option ℕ → Method V
  unfolding write_only
  get_option none s = (err attribute_error, s)
  get_option (some opt) s =
      (write_only (drv.get opt s.net).0, record s { net = (drv.get opt s.net).1 })

  -- `__getattr__`, which Python calls for what neither the object nor a class has
  pub get_attr : Bytes → Method V
  unfolding get_option option_of
  get_attr key s = get_option (option_of key) s

  -- Reading an attribute as Python does, object first
  pub read_attr : Bytes → Method V
  unfolding get_attr
  read_attr key s = elim (Dict.lookup key s.attributes) [
    | some value ↦ (ok value, s)
    | none ↦ get_attr key s
  ]
