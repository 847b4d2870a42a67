-- ===== src/Poller/Invariant.antt =====
-- The invariant of `Poller`: `_map` holds the position of each registered socket, and no other.
use pyzmq.Base.{
  ℕ, zero, suc, ◌≡◌, ◌<◌, refl, inl, inr, true, false, none, some, List, [], ◌∷◌, ◌++◌, ok, err,
  key_error, if◌then◌else◌, ◌==◌, ==_iff, nat_eq, lt→ltb, set, length, drop, erase_idx, arith,
  Bool-cases, Option-cases,
}
use pyzmq.Base.Dict
use pyzmq.Base.Dict.{lookup-insert, lookup-remove}
use pyzmq.Poller.{Poller, init, shift, unregister, contains}
use pyzmq.Poller.Shift.{
  index_of, listed, IsDistinct, IsDistinct-drop-erase, listed_before, erased_unlisted,
  index_of-erase, index_of-tail, shiftable, shift_lem,
}

pub record IsValid (p : Poller) : Type 0 where
  pub distinct : IsDistinct p.sockets
  pub indexed : (t : ℕ) → Dict.lookup t p.map ≡ index_of t p.sockets

index_of-append :
    (s t f : ℕ) (xs : List (ℕ × ℕ))
    → index_of t (xs ++ ((s, f) ∷ []))
      ≡ (if listed t xs then index_of t xs else if s == t then some (length xs) else none)
unfolding index_of
index_of-append s t f [] = ground arith
index_of-append s t f ((j, g) ∷ r) = ground (arith, index_of-append s t f r)

IsDistinct-append :
    (s f : ℕ) (xs : List (ℕ × ℕ))
    → IsDistinct xs
    → listed s xs ≡ false
    → IsDistinct (xs ++ ((s, f) ∷ []))
unfolding index_of
IsDistinct-append s f [] d h = (refl, tt)
IsDistinct-append s f ((j, g) ∷ r) (new, d) h = (
  ground (arith, index_of-append s j f r, ==_iff s j, ==_iff j s),
  IsDistinct-append s f r d (ground arith),
)

-- A write at the position of a socket moves nothing.
index_of-set :
    (s t f i : ℕ) (xs : List (ℕ × ℕ))
    → index_of s xs ≡ some i
    → index_of t (set xs i (s, f)) ≡ index_of t xs
unfolding index_of
index_of-set s t f i [] h = refl
index_of-set s t f zero ((j, g) ∷ r) h = ground arith
index_of-set s t f (suc i) ((j, g) ∷ r) h = rw (index_of-set s t f i r (index_of-tail s j g i r h))

IsDistinct-set :
    (s f i : ℕ) (xs : List (ℕ × ℕ))
    → IsDistinct xs
    → index_of s xs ≡ some i
    → IsDistinct (set xs i (s, f))
unfolding index_of
IsDistinct-set s f i [] d h = tt
IsDistinct-set s f zero ((j, g) ∷ r) d h = ground (arith, ==_iff j s)
IsDistinct-set s f (suc i) ((j, g) ∷ r) (new, d) h =
    let tail = index_of-tail s j g i r h in
    (rw (index_of-set s j f i r tail) new, IsDistinct-set s f i r d tail)

listed-erase :
    (t i : ℕ) (xs : List (ℕ × ℕ)) → listed t xs ≡ false → listed t (erase_idx xs i) ≡ false
unfolding index_of
listed-erase t i [] h = refl
listed-erase t zero ((j, g) ∷ r) h = ground arith
listed-erase t (suc i) ((j, g) ∷ r) h = ground (arith, listed-erase t i r)

IsDistinct-erase : (i : ℕ) (xs : List (ℕ × ℕ)) → IsDistinct xs → IsDistinct (erase_idx xs i)
IsDistinct-erase i [] d = tt
IsDistinct-erase zero ((j, g) ∷ r) d = d.1
IsDistinct-erase (suc i) ((j, g) ∷ r) (new, d) = (listed-erase j i r new, IsDistinct-erase i r d)

pub index_of-lt : (s i : ℕ) (xs : List (ℕ × ℕ)) → index_of s xs ≡ some i → i < length xs
unfolding index_of
index_of-lt s i [] h = absurd (ground arith)
index_of-lt s zero ((j, g) ∷ r) h = omega arith
index_of-lt s (suc i) ((j, g) ∷ r) h = omega (arith, index_of-lt s i r (index_of-tail s j g i r h))

pub init-IsValid : IsValid init
unfolding init index_of Dict.lookup
init-IsValid = record { distinct = tt; indexed = λ t. refl }

-- `unregister` of a registered socket: no error, and the entry is erased.
module _ (s i : ℕ) (p : Poller) (v : IsValid p) (at : index_of s p.sockets ≡ some i) where
  abbrev behind : List (ℕ × ℕ)
  behind = drop i (erase_idx p.sockets i)

  found_behind :
      (t : ℕ) → listed t behind ≡ true → (j : ℕ) × (Dict.lookup t (Dict.remove s p.map) ≡ some j)
  found_behind t h = elim (Bool-cases (s == t)) [
    | inl e ↦ absurd (ground (arith, erased_unlisted s i p.sockets v.distinct at, ==_iff s t))
    | inr e ↦ elim (Option-cases (index_of t p.sockets)) [
      | inl o ↦ absurd (ground (arith, listed_before t i p.sockets h))
      | inr (j, o) ↦ (j, simp (lookup-remove, e, v.indexed, o))
    ]
  ]

  lowered :
      ((shift behind (Dict.remove s p.map)).0 ≡ ok tt)
      × ((t : ℕ)
          → Dict.lookup t (shift behind (Dict.remove s p.map)).1
            ≡ index_of t (erase_idx p.sockets i))
  lowered =
      let (done, found) =
        shift_lem behind (Dict.remove s p.map) (IsDistinct-drop-erase i p.sockets v.distinct)
          (shiftable behind (Dict.remove s p.map) found_behind) in
      (
        done,
        λ t. ground (
          arith,
          found t,
          lookup-remove s t p.map,
          v.indexed t,
          index_of-erase s t i p.sockets v.distinct at,
        ),
      )

  pub unregister_found :
      ((unregister s p).0 ≡ ok tt)
      × ((unregister s p).1.sockets ≡ erase_idx p.sockets i)
      × IsValid (unregister s p).1
  unfolding unregister
  unregister_found =
      rw (v.indexed s, at, unregister)
        (rw (lt→ltb i (length p.sockets) (index_of-lt s i p.sockets at)) (
          lowered.0,
          refl,
          record { distinct = IsDistinct-erase i p.sockets v.distinct; indexed = lowered.1 },
        ))

pub not_indexed :
    (s : ℕ) (p : Poller) → IsValid p → contains s p ≡ false → index_of s p.sockets ≡ none
unfolding contains
not_indexed s p v h = ground (arith, v.indexed s)

-- `unregister` of a socket that is not registered raises `KeyError` and changes nothing.
pub unregister_missing :
    (s : ℕ) (p : Poller) → IsValid p → contains s p ≡ false → unregister s p ≡ (err key_error, p)
unfolding unregister
unregister_missing s p v h = rw (v.indexed s, not_indexed s p v h, unregister)

module _ (s f : ℕ) (p : Poller) (v : IsValid p) where
  pub register_new :
      index_of s p.sockets ≡ none
      → IsValid (record {
        sockets = p.sockets ++ ((s, f) ∷ []);
        map = Dict.insert s (length p.sockets) p.map;
      })
  register_new e = record {
    distinct = IsDistinct-append s f p.sockets v.distinct (rw e);
    indexed = λ t. ground (
      arith,
      lookup-insert s t (length p.sockets) p.map,
      v.indexed t,
      index_of-append s t f p.sockets,
      ==_iff s t,
    );
  }

  pub register_old :
      (i : ℕ)
      → index_of s p.sockets ≡ some i
      → IsValid (record p { sockets = set p.sockets i (s, f) })
  register_old i e = record {
    distinct = IsDistinct-set s f i p.sockets v.distinct e;
    indexed = λ t. rw (index_of-set s t f i p.sockets e) (v.indexed t);
  }
