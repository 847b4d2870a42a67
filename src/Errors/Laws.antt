-- ===== src/Errors/Laws.antt =====
-- What the check of return codes raises, and when.
use pyzmq.Base.{
  ℕ, ◌≡◌, ◌↔◌, ◌⊎◌, ◌≢◌, refl, sym, ap, ◌∙◌, Bool, true, false, not, ◌&&◌, Option, some, List, [],
  ◌∷◌, ◌++◌, arith, ◌==◌, inl, inr,
}
use mathlib.Core.Path.{subst}
use pyzmq.Base.Int.{ℤ, pos, negsuc}
use pyzmq.Errors.{Errnos, Raised, errno_of, raised, is_minus_one, known_errno, check_rc, tuple_less}

errno_of-raised : (n : Errnos) (e : ℕ) → errno_of n (raised n e) ≡ e
unfolding errno_of raised
errno_of-raised n e = ground arith

minus_one : (rc : ℤ) → is_minus_one rc ≡ true → rc ≡ negsuc 0
unfolding is_minus_one
minus_one (pos n) h = absurd (cc)
minus_one (negsuc n) h = ground arith

raises :
    (n : Errnos) (z : ℕ) (rc : ℤ) (errno : Option ℕ) (strict : Bool) (r : Raised)
    → check_rc n z rc errno strict ≡ some r
    → (is_minus_one rc ≡ true)
      × (raised n (known_errno z errno) ≡ r)
      × ((known_errno z errno == 0 && not strict) ≡ false)
unfolding check_rc
raises n z rc errno strict r h = (ground arith, ground arith, ground arith)

counts : (e : ℕ) (strict : Bool) → (e == 0 && not strict) ≡ false → (e ≢ 0) ⊎ (strict ≡ true)
counts e true h = inr refl
counts e false h = inl (ground arith)

counted : (e : ℕ) (strict : Bool) → (e ≢ 0) ⊎ (strict ≡ true) → (e == 0 && not strict) ≡ false
counted e strict (inl h) = ground arith
counted e strict (inr h) = ground arith

raising :
    (n : Errnos) (z : ℕ) (rc : ℤ) (errno : Option ℕ) (strict : Bool) (e : ℕ)
    → rc ≡ negsuc 0
    → known_errno z errno ≡ e
    → (e ≢ 0) ⊎ (strict ≡ true)
    → check_rc n z rc errno strict ≡ some (raised n e)
unfolding check_rc is_minus_one
raising n z rc errno strict e minus same counting = rw (minus, same, counted e strict counting) refl

-- `_check_rc` raises exactly where the return code is -1 and either there is an error number or an
-- error without a number counts, and the exception then carries that number, given or asked for.
pub check_rc_iff :
    (n : Errnos) (zmq_errno : ℕ) (rc : ℤ) (errno : Option ℕ) (strict : Bool) (e : ℕ)
    → ((r : Raised) × (check_rc n zmq_errno rc errno strict ≡ some r) × (errno_of n r ≡ e))
      ↔ (rc ≡ negsuc 0) × (known_errno zmq_errno errno ≡ e) × ((e ≢ 0) ⊎ (strict ≡ true))
check_rc_iff n z rc errno strict e = (there, back)
  where
    there :
        (r : Raised) × (check_rc n z rc errno strict ≡ some r) × (errno_of n r ≡ e)
        → (rc ≡ negsuc 0) × (known_errno z errno ≡ e) × ((e ≢ 0) ⊎ (strict ≡ true))
    there (r, h, k) =
        let (minus, is_raised, counting) = raises n z rc errno strict r h in
        let same : known_errno z errno ≡ e =
          sym (errno_of-raised n (known_errno z errno)) ∙ ap (errno_of n) is_raised ∙ k in
        (
          minus_one rc minus,
          same,
          subst (λ x. (x ≢ 0) ⊎ (strict ≡ true)) same
              (counts (known_errno z errno) strict counting),
        )

    back :
        (rc ≡ negsuc 0) × (known_errno z errno ≡ e) × ((e ≢ 0) ⊎ (strict ≡ true))
        → (r : Raised) × (check_rc n z rc errno strict ≡ some r) × (errno_of n r ≡ e)
    back (minus, same, counting) =
        (raised n e, raising n z rc errno strict e minus same counting, errno_of-raised n e)

-- The lexicographic order of versions: a common prefix, and then either the end of the first or a
-- smaller number.
pub tuple_less-append :
    (common xs ys : List ℕ) → tuple_less (common ++ xs) (common ++ ys) ≡ tuple_less xs ys
unfolding tuple_less
tuple_less-append [] xs ys = refl
tuple_less-append (c ∷ cs) xs ys = ground (arith, tuple_less-append cs xs ys)

pub tuple_less_trichotomy :
    (xs ys : List ℕ) → tuple_less xs ys ≡ false → tuple_less ys xs ≡ false → xs ≡ ys
unfolding tuple_less
tuple_less_trichotomy [] [] h k = refl
tuple_less_trichotomy [] (y ∷ ys) h k = absurd (cc)
tuple_less_trichotomy (x ∷ xs) [] h k = absurd (cc)
tuple_less_trichotomy (x ∷ xs) (y ∷ ys) h k = ground (arith, tuple_less_trichotomy xs ys)
