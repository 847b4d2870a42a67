-- ===== src/Device/Setup.antt =====
-- The order in which a device prepares its sockets (`_setup_sockets`), and its run (`run`).
use pyzmq.Base.{ℕ, ◌≡◌, refl, sym, ◌∙◌, List, [], ◌∷◌, ◌++◌, Result, ok, err, Bytes}
use pyzmq.Base.Exec.{Exec, pure, ◌>>◌, continue}
use pyzmq.Device.{
  Driver, Device, Op, setsockopt, bind, connect, call, set_all, bind_all, connect_all, prepare,
}

-- One operation on one socket after another, up to the first that raises.
pub perform_all : {Net : Type 0} → Driver Net → List (ℕ × Op) → Exec (Device Net) (Unit {0})
perform_all drv [] = pure tt
perform_all drv (o ∷ os) = call drv (drv.apply o.0 o.1) >> perform_all drv os

unfoldable pub on_socket : {A : Type 0} → ℕ → (A → Op) → List A → List (ℕ × Op)
on_socket n f [] = []
on_socket n f (x ∷ xs) = (n, f x) ∷ on_socket n f xs

-- All options of both sockets, then all binds, then all connects; the in socket goes first.
pub planned : {Net : Type 0} → Device Net → ℕ → ℕ → List (ℕ × Op)
planned d ins outs =
    on_socket ins (λ o. setsockopt o.0 o.1) d.in_sockopts
    ++ (on_socket outs (λ o. setsockopt o.0 o.1) d.out_sockopts
        ++ (on_socket ins bind d.in_binds
            ++ (on_socket outs bind d.out_binds
                ++ (on_socket ins connect d.in_connects ++ on_socket outs connect d.out_connects))))

module _ {S A : Type 0} where
  continue_same :
      (r : Result A) (f g : A → Exec S (Unit {0})) (s : S)
      → ((a : A) (t : S) → f a t ≡ g a t)
      → continue r f s ≡ continue r g s
  continue_same (ok a) f g s h = h a s
  continue_same (err e) f g s h = refl

  continue_assoc :
      (r : Result A) (f : A → Exec S (Unit {0})) (k : Exec S (Unit {0})) (s : S)
      → continue (continue r f s).0 (λ _. k) (continue r f s).1 ≡ continue r (λ a. f a >> k) s
  continue_assoc (ok a) f k s = refl
  continue_assoc (err e) f k s = refl

module _ {Net : Type 0} (drv : Driver Net) where
  perform_all-append :
      (xs ys : List (ℕ × Op)) (s : Device Net)
      → perform_all drv (xs ++ ys) s ≡ (perform_all drv xs >> perform_all drv ys) s
  unfolding perform_all
  perform_all-append [] ys s = refl
  perform_all-append (x ∷ xs) ys s =
      continue_same (call drv (drv.apply x.0 x.1) s).0 _ _ (call drv (drv.apply x.0 x.1) s).1
        (λ _ t. perform_all-append xs ys t)
      ∙ sym (
          continue_assoc (call drv (drv.apply x.0 x.1) s).0 (λ _. perform_all drv xs)
            (perform_all drv ys) (call drv (drv.apply x.0 x.1) s).1)

  -- A loop of the device, then the operations that follow it.
  loop_then :
      {A : Type 0} (n : ℕ) (f : A → Op) (loop : List A → Exec (Device Net) (Unit {0}))
      → ((s : Device Net) → loop [] s ≡ (ok tt, s))
      → ((x : A) (xs : List A) (s : Device Net)
          → loop (x ∷ xs) s ≡ (call drv (drv.apply n (f x)) >> loop xs) s)
      → (xs : List A) (rest : List (ℕ × Op)) (k : Exec (Device Net) (Unit {0}))
      → ((s : Device Net) → k s ≡ perform_all drv rest s)
      → (s : Device Net) → (loop xs >> k) s ≡ perform_all drv (on_socket n f xs ++ rest) s
  unfolding perform_all on_socket
  loop_then n f loop base more [] rest k h s = rw (base s) (h s)
  loop_then n f loop base more (x ∷ xs) rest k h s = rw (more x xs s) (
      continue_assoc (call drv (drv.apply n (f x)) s).0 (λ _. loop xs) k
        (call drv (drv.apply n (f x)) s).1
      ∙ continue_same (call drv (drv.apply n (f x)) s).0 _ _ (call drv (drv.apply n (f x)) s).1
          (λ _ t. loop_then n f loop base more xs rest k h t))

  connect_all-perform_all :
      (n : ℕ) (xs : List Bytes) (s : Device Net)
      → connect_all drv n xs s ≡ perform_all drv (on_socket n connect xs) s
  unfolding connect_all perform_all on_socket
  connect_all-perform_all n [] s = refl
  connect_all-perform_all n (x ∷ xs) s =
      continue_same (call drv (drv.apply n (connect x)) s).0 _ _
        (call drv (drv.apply n (connect x)) s).1 (λ _ t. connect_all-perform_all n xs t)

  -- For all sockets, queued operations and states of the backend, the loops of `_setup_sockets` have
  -- the result and the effect of performing the planned sequence up to its first operation that
  -- raises: the options of both sockets before all binds, and those before all connects.
  pub prepare-planned :
      (d : Device Net) (ins outs : ℕ) (s : Device Net)
      → prepare drv d ins outs s ≡ perform_all drv (planned d ins outs) s
  unfolding prepare planned set_all bind_all connect_all
  prepare-planned d ins outs =
      loop_then ins (λ o. setsockopt o.0 o.1) (set_all drv ins) (λ s. refl) (λ x xs s. refl)
        d.in_sockopts _ _
        (loop_then outs (λ o. setsockopt o.0 o.1) (set_all drv outs) (λ s. refl) (λ x xs s. refl)
          d.out_sockopts _ _
          (loop_then ins bind (bind_all drv ins) (λ s. refl) (λ x xs s. refl) d.in_binds _ _
            (loop_then outs bind (bind_all drv outs) (λ s. refl) (λ x xs s. refl) d.out_binds _ _
              (loop_then ins connect (connect_all drv ins) (λ s. refl) (λ x xs s. refl)
                d.in_connects _ _ (connect_all-perform_all outs d.out_connects)))))
