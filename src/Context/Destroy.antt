-- ===== src/Context/Destroy.antt =====
-- Shutting a context down (`Context.destroy`), over a backend of which every call may raise.
pub mod Steps
pub mod Returns
use pyzmq.Base.{
  ℕ, ◌≡◌, refl, sym, ◌∙◌, inl, inr, ◌⊎◌, Bool, true, false, not, Bool-cases, Option, none, some,
  List, [], ◌∷◌, All, Result, ok, err, Error, Result-cases, arith, if◌then◌else◌,
}
use mathlib.Core.Path.{subst}
use pyzmq.Base.Exec.{continue, Exec, ◌>>◌, Keeps}
use pyzmq.Base.Gives.{Gives}
use pyzmq.Base.Post.{post_ok}
use pyzmq.Context.{Driver, Context, dispose_all, destroy, term, call}
use pyzmq.Context.Destroy.Steps.{
  IsMarked, IsMarked-Lasting, empty-Lasting, closed-Lasting, dispose_all-Keeps, dispose_all-Gives,
}
use pyzmq.Context.Destroy.Returns.{NeverRaises, dispose_all-term-Returns}

-- What `destroy` does to the sockets whichever way it ends: the set of sockets is empty, and what was
-- closed stays closed.
pub record IsEmptied {Net : Type 0} (s t : Context Net) : Type 0 where
  pub emptied : t.sockets ≡ []
  pub still_closed : (m : ℕ) → IsMarked m s → IsMarked m t

-- The context is terminated and each of its sockets closed.
pub record IsShutDown {Net : Type 0} (s : Context Net) (r : Result (Unit {0}) × Context Net)
    : Type 0 where
  pub returned : r.0 ≡ ok tt
  pub terminated : r.1.closed ≡ true
  pub sockets_closed : All (λ n. IsMarked n r.1) s.sockets
  pub is_emptied : IsEmptied s r.1

-- An exception left the context open.
pub record IsAborted {Net : Type 0} (s : Context Net) (r : Result (Unit {0}) × Context Net)
    : Type 0 where
  pub raised : (e : Error) × (r.0 ≡ err e)
  pub still_open : r.1.closed ≡ false
  pub is_emptied : IsEmptied s r.1

if-false : {A : Type 0} (b : Bool) (x y : A) → b ≡ false → (if b then x else y) ≡ y
if-false b x y h = rw h refl

module _ {Net : Type 0} (drv : Driver Net) where
  term-ends :
      (s t : Context Net)
      → IsEmptied s t
      → t.closed ≡ false
      → All (λ n. IsMarked n t) s.sockets
      → IsShutDown s (term drv t) ⊎ IsAborted s (term drv t)
  unfolding term call
  term-ends s t h o a = elim (Result-cases (drv.term t.net).0) [
    | inl (x, e) ↦ rw e (
        inl (record {
          returned = refl;
          terminated = refl;
          sockets_closed = a;
          is_emptied = record { emptied = h.emptied; still_closed = h.still_closed };
        }))
    | inr (x, e) ↦ rw e (
        inr (record {
          raised = (x, refl);
          still_open = o;
          is_emptied = record { emptied = h.emptied; still_closed = h.still_closed };
        }))
  ]

  ends :
      (linger : Option ℕ) (s t : Context Net) (r : Result (Unit {0}))
      → IsEmptied s t
      → t.closed ≡ false
      → (r ≡ ok tt → All (λ n. IsMarked n t) s.sockets)
      → IsShutDown s (continue r (λ _. term drv) t) ⊎ IsAborted s (continue r (λ _. term drv) t)
  ends linger s t (ok u) h o a = term-ends s t h o (a refl)
  ends linger s t (err e) h o a =
      inr (record { raised = (e, refl); still_open = o; is_emptied = h })

  -- However the backend answers, `destroy` of an open context either shuts it down, that is, closes
  -- each socket of its set and terminates the context, or raises and leaves the context open. In both
  -- cases the set of sockets is empty afterwards, and what was closed before stays closed.
  pub destroy-ends :
      (linger : Option ℕ) (s : Context Net)
      → s.closed ≡ false
      → IsShutDown s (destroy drv linger s) ⊎ IsAborted s (destroy drv linger s)
  unfolding destroy
  destroy-ends linger s h =
      let t = record s { sockets = [] } in
      let all_of = dispose_all drv linger s.sockets in
      subst (λ r. IsShutDown s r ⊎ IsAborted s r) (sym (if-false _ _ _ h))
        (ends linger s (all_of t).1 (all_of t).0
          (record {
            emptied = (dispose_all-Keeps drv empty-Lasting linger s.sockets).at t refl;
            still_closed =
                λ m k. (dispose_all-Keeps drv (IsMarked-Lasting m) linger s.sockets).at t k;
          })
          ((dispose_all-Keeps drv (closed-Lasting false) linger s.sockets).at t h)
          (λ e.
            post_ok (λ _ u. All (λ n. IsMarked n u) s.sockets) (all_of t).0 (all_of t).1 tt
              ((dispose_all-Gives drv linger s.sockets).at t tt) e))

  destroy-returns :
      (linger : Option ℕ) (s : Context Net)
      → NeverRaises drv
      → s.closed ≡ false
      → (u : Unit {0}) × ((destroy drv linger s).0 ≡ ok u)
  unfolding destroy
  destroy-returns linger s never h =
      subst (λ (r : Result (Unit {0}) × Context Net). (u : Unit {0}) × (r.0 ≡ ok u))
        (sym (if-false _ _ _ h))
        ((dispose_all-term-Returns drv never linger s.sockets).at (record s { sockets = [] }))

  -- If no call of the backend raises, then `destroy` of an open context returns, every socket of its
  -- set is closed, the context is terminated, its set of sockets is empty, and sockets that were closed
  -- before stay closed.
  pub destroy-IsShutDown :
      (linger : Option ℕ) (s : Context Net)
      → NeverRaises drv
      → s.closed ≡ false
      → IsShutDown s (destroy drv linger s)
  destroy-IsShutDown linger s never h = elim (destroy-ends linger s h) [
    | inl done ↦ done
    | inr aborted ↦
        let (e, raised) = aborted.raised in
        let (u, returned) = destroy-returns linger s never h in absurd (cc)
  ]
