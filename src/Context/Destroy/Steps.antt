-- ===== src/Context/Destroy/Steps.antt =====
-- What the steps of `Context.destroy` leave as it was, and what they reach when they return.
use pyzmq.Base.{
  ℕ, ◌≡◌, refl, Bool, true, false, not, Option, none, some, List, [], ◌∷◌, All, Result, ok, err,
  arith,
}
use pyzmq.Base.Exec.{
  Exec, pure, ◌>>◌, when, Keeps, Keeps-pure, Keeps-bind, Keeps-then, Keeps-if, kept-if,
}
use pyzmq.Base.Gives.{Gives, Gives-bind, Gives-pure, Gives-Keeps, Gives-weaken}
use pyzmq.Base.Post.{Post, Post-if, always}
use pyzmq.Context.{
  Driver, Context, member, discard, call, rm_socket, mark_closed, is_closed, close_handle,
  close_socket, dispose, dispose_all,
}

-- A socket is marked as closed.
abbrev pub IsMarked : {Net : Type 0} → ℕ → Context Net → Type 0
IsMarked n s = member n s.closed_sockets ≡ true

-- What no step undoes: a predicate that survives the backend's calls, the removal of a socket from the
-- set, and a mark.
pub record Lasting {Net : Type 0} (P : Context Net → Type 0) : Type 0 where
  pub backend : (s : Context Net) (net : Net) → P s → P (record s { net = net })
  pub removal : (n : ℕ) (s : Context Net) → P s → P (record s { sockets = discard n s.sockets })
  pub mark :
      (n : ℕ) (s : Context Net) → P s → P (record s { closed_sockets = n ∷ s.closed_sockets })

pub IsMarked-Lasting : {Net : Type 0} (m : ℕ) → Lasting (IsMarked {Net = Net} m)
unfolding member
IsMarked-Lasting m = record {
  backend = λ s net h. h;
  removal = λ n s h. h;
  mark = λ n s h. ground (arith, h);
}

pub empty-Lasting : {Net : Type 0} → Lasting (λ (s : Context Net). s.sockets ≡ [])
unfolding discard
empty-Lasting = record { backend = λ s net h. h; removal = λ n s h. rw h refl; mark = λ n s h. h }

pub closed-Lasting : {Net : Type 0} (b : Bool) → Lasting (λ (s : Context Net). s.closed ≡ b)
closed-Lasting b = record { backend = λ s net h. h; removal = λ n s h. h; mark = λ n s h. h }

module _ {Net : Type 0} (drv : Driver Net) where
  module _ {P : Context Net → Type 0} (lasting : Lasting P) where
    call-Keeps : {A : Type 0} (f : Net → Result A × Net) → Keeps P (call drv f)
    unfolding call
    call-Keeps f = record { at = λ s h. lasting.backend s (f s.net).1 h }

    mark_closed-Keeps : (n : ℕ) → Keeps P (mark_closed drv n)
    unfolding mark_closed
    mark_closed-Keeps n = record { at = λ s h. lasting.mark n s h }

    is_closed-Keeps : (n : ℕ) → Keeps P (is_closed drv n)
    unfolding is_closed
    is_closed-Keeps n = record {
      at = λ s h.
          kept-if P (member n s.closed_sockets) _ _ (λ _. h)
            (λ _.
              (Keeps-bind (call drv (drv.is_not_socket n)) _ (call-Keeps (drv.is_not_socket n))
                  (λ b.
                    Keeps-then (when b (mark_closed drv n)) _
                      (Keeps-if b (mark_closed drv n) _ (mark_closed-Keeps n) (Keeps-pure tt))
                      (Keeps-pure b))).at
                s h);
    }

    close_socket-Keeps : (n : ℕ) → Keeps P (close_socket drv n)
    unfolding close_socket rm_socket close_handle call mark_closed
    close_socket-Keeps n = record {
      at = λ s h.
          let net = (drv.close n s.net).1 in
          let removed = record s { sockets = discard n s.sockets } in
          lasting.mark n (record removed { net = net })
            (lasting.backend removed net (lasting.removal n s h));
    }

    dispose-Keeps : (linger : Option ℕ) (n : ℕ) → Keeps P (dispose drv linger n)
    unfolding dispose
    dispose-Keeps none n =
        Keeps-bind (is_closed drv n) _ (is_closed-Keeps n)
          (λ b. Keeps-if (not b) (close_socket drv n) _ (close_socket-Keeps n) (Keeps-pure tt))
    dispose-Keeps (some v) n = Keeps-bind (is_closed drv n) _ (is_closed-Keeps n) (λ b.
        Keeps-if (not b) (call drv (drv.setsockopt n drv.linger_option v) >> close_socket drv n) _
          (Keeps-then (call drv (drv.setsockopt n drv.linger_option v)) _
            (call-Keeps (drv.setsockopt n drv.linger_option v)) (close_socket-Keeps n))
          (Keeps-pure tt))

    pub dispose_all-Keeps : (linger : Option ℕ) (ns : List ℕ) → Keeps P (dispose_all drv linger ns)
    unfolding dispose_all
    dispose_all-Keeps linger [] = Keeps-pure tt
    dispose_all-Keeps linger (n ∷ ns) =
        Keeps-then (dispose drv linger n) _ (dispose-Keeps linger n) (dispose_all-Keeps linger ns)

  abbrev pub Anything : Context Net → Type 0
  Anything s = Unit {0}

  is_marked : (n : ℕ) (ns : List ℕ) → member n (n ∷ ns) ≡ true
  unfolding member
  is_marked n ns = ground arith

  IsMarked-when :
      (n : ℕ) (b : Bool)
      → Gives Anything (when b (mark_closed drv n) >> pure b) (λ b t. b ≡ true → IsMarked n t)
  unfolding mark_closed
  IsMarked-when n true = record { at = λ s _ _. is_marked n s.closed_sockets }
  IsMarked-when n false = record { at = λ s _ h. absurd (cc) }

  is_closed-Gives : (n : ℕ) → Gives Anything (is_closed drv n) (λ b t. b ≡ true → IsMarked n t)
  unfolding is_closed
  is_closed-Gives n = record {
    at = λ s _.
        Post-if (λ b t. b ≡ true → IsMarked n t) (member n s.closed_sockets) _ _ (λ h _. h)
          (λ _.
            (Gives-bind {P = Anything} (λ _. Anything) {m = call drv (drv.is_not_socket n)}
                (record { at = λ s _. always (call drv (drv.is_not_socket n) s).0 _ })
                (IsMarked-when n)).at
              s tt);
  }

  post_state :
      {A : Type 0} (Q : Context Net → Type 0) (r : Result A) (t : Context Net)
      → Q t
      → Post (λ _. Q) r t
  post_state Q (ok a) t h = h
  post_state Q (err e) t h = tt

  close_socket-Gives : (n : ℕ) → Gives Anything (close_socket drv n) (λ _. IsMarked n)
  unfolding close_socket rm_socket close_handle call mark_closed
  close_socket-Gives n = record {
    at = λ s _. post_state (IsMarked n) (drv.close n s.net).0 _ (is_marked n s.closed_sockets);
  }

  closing-Gives :
      (linger : Option ℕ) (n : ℕ)
      → Gives {A = Unit {0}} Anything
          (elim linger as (λ _. Exec (Context Net) (Unit {0})) [
            | none ↦ close_socket drv n
            | some v ↦ call drv (drv.setsockopt n drv.linger_option v) >> close_socket drv n
          ])
          (λ _. IsMarked n)
  closing-Gives none n = close_socket-Gives n
  closing-Gives (some v) n =
      let set = call drv (drv.setsockopt n drv.linger_option v) in
      Gives-bind {P = Anything} (λ _. Anything) {m = set}
        (record { at = λ s _. always (set s).0 _ }) (λ _. close_socket-Gives n)

  unless_closed :
      (linger : Option ℕ) (n : ℕ) (b : Bool)
      → Gives {A = Unit {0}}
          (λ t. b ≡ true → IsMarked n t)
          (when (not b) (elim linger as (λ _. Exec (Context Net) (Unit {0})) [
            | none ↦ close_socket drv n
            | some v ↦ call drv (drv.setsockopt n drv.linger_option v) >> close_socket drv n
          ]))
          (λ _. IsMarked n)
  unless_closed linger n true = record { at = λ s h. h refl }
  unless_closed linger n false =
      Gives-weaken {P = Anything} (λ s h. tt) (λ _ t h. h) (closing-Gives linger n)

  dispose-Gives :
      (linger : Option ℕ) (n : ℕ) → Gives Anything (dispose drv linger n) (λ _. IsMarked n)
  unfolding dispose
  dispose-Gives linger n =
      Gives-bind {P = Anything} (λ b t. b ≡ true → IsMarked n t) {m = is_closed drv n}
        (is_closed-Gives n) (unless_closed linger n)

  -- When the loop returns, every socket is marked.
  pub dispose_all-Gives :
      (linger : Option ℕ) (ns : List ℕ)
      → Gives Anything (dispose_all drv linger ns) (λ _ t. All (λ n. IsMarked n t) ns)
  unfolding dispose_all
  dispose_all-Gives linger [] = Gives-pure tt (λ s h. tt)
  dispose_all-Gives linger (n ∷ ns) =
      Gives-bind {P = Anything} (λ _. IsMarked n) {m = dispose drv linger n}
        (dispose-Gives linger n)
        (λ _.
          Gives-weaken (λ s h. (tt, h)) (λ _ t h. (h.1, h.0))
            (Gives-Keeps (IsMarked n) (dispose_all-Gives linger ns)
              (dispose_all-Keeps (IsMarked-Lasting n) linger ns)))
