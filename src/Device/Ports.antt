-- ===== src/Device/Ports.antt =====
-- The random ports that a device reserves (`_reserve_random_port`).
use pyzmq.Base.{
  ℕ, suc, zero, ◌≡◌, refl, ◌∙◌, ap, sym, Bool, true, false, List, [], ◌∷◌, ◌++◌, Result, ok, err,
  Bytes, arith, if◌then◌else◌, bytes_beq, bytes_beq_iff,
}
use pyzmq.Base.Post.{Post}
use pyzmq.Base.Gives.{Gives, Gives-bind, Gives-if, Gives-pure, Gives-raise, Keeps-after}
use pyzmq.Base.Exec.{gets, Keeps, Keeps-bind, keeps_rules}
use pyzmq.Device.{
  Driver, Device, member, call, address, try_ports, reserve_random_port, bind_in_to_random_port,
  bind_out_to_random_port, bind_in, bind_out,
}

unfoldable pub IsDistinct : List Bytes → Type 0
IsDistinct [] = Unit {0}
IsDistinct (x ∷ xs) = (member x xs ≡ false) × IsDistinct xs

member-append :
    (x y : Bytes) (xs : List Bytes)
    → member x (xs ++ (y ∷ [])) ≡ (if member x xs then true else bytes_beq y x)
unfolding member
member-append x y [] = ground arith
member-append x y (z ∷ zs) = ground (arith, member-append x y zs)

IsDistinct-append :
    (y : Bytes) (xs : List Bytes)
    → member y xs ≡ false
    → IsDistinct xs
    → IsDistinct (xs ++ (y ∷ []))
unfolding member IsDistinct
IsDistinct-append y [] h d = (refl, tt)
IsDistinct-append y (x ∷ xs) h d = (
  ground (arith, member-append x y xs, bytes_beq_iff x y, bytes_beq_iff y x),
  IsDistinct-append y xs (ground arith) d.1,
)

module _ {Net : Type 0} (drv : Driver Net) where
  call-Keeps :
      {A : Type 0} (P : List Bytes → Type 0) (f : Net → Result A × Net)
      → Keeps (λ (d : Device Net). P d.random_addrs) (call drv f)
  unfolding call
  call-Keeps P f = record { at = λ s h. h }

  try_ports-Keeps :
      (P : List Bytes → Type 0) (n binder : ℕ) (addr : Bytes)
      → Keeps (λ (d : Device Net). P d.random_addrs) (try_ports drv n binder addr)
  unfolding try_ports
  try_ports-Keeps P zero binder addr = search keeps_rules
  try_ports-Keeps P (suc n) binder addr = search (keeps_rules, call-Keeps P, try_ports-Keeps P n)

  call-Post :
      {A : Type 0} (P : List Bytes → Type 0) (r : Result A) (d : Device Net)
      → P d.random_addrs
      → Post (λ _ (t : Device Net). P t.random_addrs) r d
  call-Post P (ok a) d h = h
  call-Post P (err e) d h = tt

  call-Gives :
      {A : Type 0} (P : List Bytes → Type 0) (f : Net → Result A × Net)
      → Gives (λ (d : Device Net). P d.random_addrs) (call drv f) (λ _ d. P d.random_addrs)
  unfolding call
  call-Gives P f = record { at = λ s h. call-Post P (f s.net).0 (record s { net = (f s.net).1 }) h }

  -- The port's address is not reserved yet, and `P` holds of those that are.
  abbrev Fresh : (List Bytes → Type 0) → Bytes → ℕ → Device Net → Type 0
  Fresh P addr port d = (member (address drv addr port) d.random_addrs ≡ false) × P d.random_addrs

  try_ports-Fresh :
      (P : List Bytes → Type 0) (n binder : ℕ) (addr : Bytes)
      → Gives (λ (d : Device Net). P d.random_addrs) (try_ports drv n binder addr) (Fresh P addr)
  unfolding try_ports
  try_ports-Fresh P zero binder addr = Gives-raise _
  try_ports-Fresh P (suc n) binder addr =
      Gives-bind (λ _ d. P d.random_addrs) (call-Gives P _)
        λ port.
          Gives-bind
            (λ known d. (member (address drv addr port) d.random_addrs ≡ known) × P d.random_addrs)
            {m = gets _} (record { at = λ d h. (refl, h) })
            λ known.
              Gives-if known
                (λ yes. record { at = λ d h. (try_ports-Fresh P n binder addr).at d h.1 })
                (λ no. Gives-pure port (λ d h. (h.0 ∙ no, h.1)))

  -- From any state of a device, if `_reserve_random_port` returns a port, then the port's address was
  -- not among the device's reserved addresses, and it is added at their end.
  pub reserve_random_port-fresh :
      (before : List Bytes) (addr : Bytes)
      → Gives
          (λ (d : Device Net). d.random_addrs ≡ before)
          (reserve_random_port drv addr)
          (λ port d.
            (member (address drv addr port) before ≡ false)
            × (d.random_addrs ≡ before ++ (address drv addr port ∷ [])))
  unfolding reserve_random_port
  reserve_random_port-fresh before addr =
      Gives-bind (λ _ d. d.random_addrs ≡ before) (call-Gives (λ x. x ≡ before) _)
        λ binder.
          Gives-bind (Fresh (λ x. x ≡ before) addr)
            (try_ports-Fresh (λ x. x ≡ before) 5 binder addr)
            λ port. record {
              at = λ d h. (
                ap (member (address drv addr port)) (sym h.1) ∙ h.0,
                (λ i. h.1 i ++ (address drv addr port ∷ [])),
              );
            }

  reserve_random_port-IsDistinct :
      (addr : Bytes)
      → Keeps (λ (d : Device Net). IsDistinct d.random_addrs) (reserve_random_port drv addr)
  unfolding reserve_random_port
  reserve_random_port-IsDistinct addr = Keeps-bind _ _ (call-Keeps IsDistinct _) λ binder.
      Keeps-after (λ (d : Device Net). IsDistinct d.random_addrs) (Fresh IsDistinct addr) _ _
        (try_ports-Keeps IsDistinct 5 binder addr) (try_ports-Fresh IsDistinct 5 binder addr)
        λ port t h. IsDistinct-append (address drv addr port) t.random_addrs h.0 h.1

  -- A device that reserves ports for both of its sockets: the true entries are for the in socket.
  pub reserve_all : List (Bool × Bytes) → Device Net → Device Net
  reserve_all [] d = d
  reserve_all ((true, addr) ∷ rs) d = reserve_all rs (bind_in_to_random_port drv addr d).1
  reserve_all ((false, addr) ∷ rs) d = reserve_all rs (bind_out_to_random_port drv addr d).1

  bind_to_random_port-IsDistinct :
      (b : Bool) (addr : Bytes)
      → Keeps
          (λ (d : Device Net). IsDistinct d.random_addrs)
          (if b then bind_in_to_random_port drv addr else bind_out_to_random_port drv addr)
  unfolding bind_in_to_random_port bind_out_to_random_port bind_in bind_out
  bind_to_random_port-IsDistinct true addr =
      Keeps-bind _ _ (reserve_random_port-IsDistinct addr) (λ port. record { at = λ s h. h })
  bind_to_random_port-IsDistinct false addr =
      Keeps-bind _ _ (reserve_random_port-IsDistinct addr) (λ port. record { at = λ s h. h })

  -- If the reserved addresses of a device are distinct, then after any sequence of
  -- `bind_in_to_random_port` and `bind_out_to_random_port` calls, failing calls included, they are.
  pub reserve_all-IsDistinct :
      (rs : List (Bool × Bytes)) (d : Device Net)
      → IsDistinct d.random_addrs
      → IsDistinct (reserve_all rs d).random_addrs
  unfolding reserve_all
  reserve_all-IsDistinct [] d h = h
  reserve_all-IsDistinct ((true, addr) ∷ rs) d h =
      reserve_all-IsDistinct rs _ ((bind_to_random_port-IsDistinct true addr).at d h)
  reserve_all-IsDistinct ((false, addr) ∷ rs) d h =
      reserve_all-IsDistinct rs _ ((bind_to_random_port-IsDistinct false addr).at d h)
