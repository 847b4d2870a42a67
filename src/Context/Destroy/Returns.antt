-- ===== src/Context/Destroy/Returns.antt =====
-- When the backend raises nothing, the steps of `Context.destroy` return.
use pyzmq.Base.{
  ℕ, ◌≡◌, refl, ap, ◌∙◌, Bool, true, false, not, Option, none, some, List, [], ◌∷◌, Result, ok,
  if◌then◌else◌,
}
use pyzmq.Base.Exec.{Exec, pure, ◌>>=◌, ◌>>◌, when, continue-ok}
use pyzmq.Context.{
  Driver, member, call, rm_socket, mark_closed, is_closed, close_handle, close_socket, dispose,
  dispose_all, term,
}

-- No call that `destroy` makes raises.
pub record NeverRaises {Net : Type 0} (drv : Driver Net) : Type 0 where
  pub tested : (n : ℕ) (net : Net) → (b : Bool) × ((drv.is_not_socket n net).0 ≡ ok b)
  pub lingers : (n v : ℕ) (net : Net) → (drv.setsockopt n drv.linger_option v net).0 ≡ ok tt
  pub closes : (n : ℕ) (net : Net) → (drv.close n net).0 ≡ ok tt
  pub terminates : (net : Net) → (drv.term net).0 ≡ ok tt

module _ {S A : Type 0} where
  pub record Returns (m : Exec S A) : Type 0 where
    pub at : (s : S) → (a : A) × ((m s).0 ≡ ok a)

module _ {S A B : Type 0} where
  Returns-bind :
      (m : Exec S A) (f : A → Exec S B) → Returns m → ((a : A) → Returns (f a)) → Returns (m >>= f)
  Returns-bind m f h k = record {
    at = λ s.
        let (a, e) = h.at s in
        let (b, e') = (k a).at (m s).1 in
        (b, ap (λ (r : Result B × S). r.0) (continue-ok (m s).0 f (m s).1 a e) ∙ e');
  }

  Returns-then : (m : Exec S A) (k : Exec S B) → Returns m → Returns k → Returns (m >> k)
  Returns-then m k h h' = Returns-bind m (λ _. k) h (λ _. h')

Returns-pure : {S A : Type 0} (a : A) → Returns (pure {S = S} a)
Returns-pure a = record { at = λ s. (a, refl) }

Returns-when : {S : Type 0} (b : Bool) (m : Exec S (Unit {0})) → Returns m → Returns (when b m)
Returns-when true m h = h
Returns-when false m h = Returns-pure tt

if-Returns :
    {S A : Type 0} (b : Bool) (x y : Result A × S)
    → ((a : A) × (x.0 ≡ ok a))
    → ((a : A) × (y.0 ≡ ok a))
    → (a : A) × ((if b then x else y).0 ≡ ok a)
if-Returns true x y h k = h
if-Returns false x y h k = k

module _ {Net : Type 0} (drv : Driver Net) (never : NeverRaises drv) where
  is_closed-Returns : (n : ℕ) → Returns (is_closed drv n)
  unfolding is_closed call mark_closed
  is_closed-Returns n = record {
    at = λ s.
        if-Returns (member n s.closed_sockets) _ _ (true, refl)
          ((Returns-bind (call drv (drv.is_not_socket n)) _
              (record { at = λ s. never.tested n s.net })
              (λ b.
                Returns-then (when b (mark_closed drv n)) _
                  (Returns-when b (mark_closed drv n) (record { at = λ s. (tt, refl) }))
                  (Returns-pure b))).at
            s);
  }

  close_socket-Returns : (n : ℕ) → Returns (close_socket drv n)
  unfolding close_socket rm_socket close_handle call mark_closed
  close_socket-Returns n = record { at = λ s. (tt, never.closes n s.net) }

  dispose-Returns : (linger : Option ℕ) (n : ℕ) → Returns (dispose drv linger n)
  unfolding dispose call
  dispose-Returns none n =
      Returns-bind (is_closed drv n) _ (is_closed-Returns n)
        (λ b. Returns-when (not b) (close_socket drv n) (close_socket-Returns n))
  dispose-Returns (some v) n = Returns-bind (is_closed drv n) _ (is_closed-Returns n) (λ b.
      Returns-when (not b) (call drv (drv.setsockopt n drv.linger_option v) >> close_socket drv n) (
        Returns-then (call drv (drv.setsockopt n drv.linger_option v)) _
          (record { at = λ s. (tt, never.lingers n v s.net) }) (close_socket-Returns n)))

  pub dispose_all-Returns : (linger : Option ℕ) (ns : List ℕ) → Returns (dispose_all drv linger ns)
  unfolding dispose_all
  dispose_all-Returns linger [] = Returns-pure tt
  dispose_all-Returns linger (n ∷ ns) =
      Returns-then (dispose drv linger n) _ (dispose-Returns linger n)
        (dispose_all-Returns linger ns)

  pub dispose_all-term-Returns :
      (linger : Option ℕ) (ns : List ℕ) → Returns (dispose_all drv linger ns >> term drv)
  unfolding term call
  dispose_all-term-Returns linger ns =
      Returns-then (dispose_all drv linger ns) _ (dispose_all-Returns linger ns) (
        Returns-then (call drv drv.term) _ (record { at = λ s. (tt, never.terminates s.net) })
          (record { at = λ s. (tt, refl) }))
