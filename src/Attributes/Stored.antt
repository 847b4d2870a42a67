-- ===== src/Attributes/Stored.antt =====
-- What is set as an attribute is read as an attribute.
use pyzmq.Base.{ℕ, ◌≡◌, ap, false, ◌||◌, Option, none, some, ok, Bytes, bytes_eq}
use pyzmq.Base.Dict
use pyzmq.Attributes.{
  Driver, Object, is_name, call, option_of, set_option, set_attr, write_only, get_option, get_attr,
}

module _ {V Net : Type 0} (drv : Driver V Net) where
  option_kept :
      (o : Option ℕ) (value : V) (s : Object V Net)
      → ((opt : ℕ) (net : Net)
          → (drv.set opt value net).0 ≡ ok tt
          → (drv.get opt (drv.set opt value net).1).0 ≡ ok value)
      → (set_option drv o value s).0 ≡ ok tt
      → (get_option drv o (set_option drv o value s).1).0 ≡ ok value
  unfolding set_option get_option call write_only
  option_kept none value s store h = absurd (cc)
  option_kept (some opt) value s store h = ap (write_only drv) (store opt s.net h)

  -- On an object that keeps its options, if a name that is neither the object's own nor of its classes
  -- is set without an exception, then reading any name with the same upper case gives the value.
  pub get_attr-set_attr :
      (key key' : Bytes) (value : V) (s : Object V Net)
      → ((opt : ℕ) (net : Net)
          → (drv.set opt value net).0 ≡ ok tt
          → (drv.get opt (drv.set opt value net).1).0 ≡ ok value)
      → (Dict.has key s.attributes || is_name key drv.class_names) ≡ false
      → drv.upper key' ≡ drv.upper key
      → (set_attr drv key value s).0 ≡ ok tt
      → (get_attr drv key' (set_attr drv key value s).1).0 ≡ ok value
  unfolding set_attr get_attr option_of
  get_attr-set_attr key key' value s store fresh same h =
      rw (same, fresh)
        (option_kept (Dict.lookup (drv.upper key) drv.constants) value s store (rw fresh at h))
