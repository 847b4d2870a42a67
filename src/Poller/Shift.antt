-- ===== src/Poller/Shift.antt =====
-- The loop of `Poller.unregister` that moves the positions behind a removed entry, and the
-- position of a socket in a list.
use pyzmq.Base.{
  ℕ, zero, suc, ◌-◌, ◌≡◌, refl, inl, inr, Bool, true, false, Option, none, some, List, [], ◌∷◌, ok,
  if◌then◌else◌, ◌==◌, ==_iff, nat_eq, drop, erase_idx, arith, Bool-cases,
}
use pyzmq.Base.Dict
use pyzmq.Base.Dict.{Dict, lookup-insert, lookup-remove}
use pyzmq.Poller.{shift}

abbrev pub after_head : Option ℕ → Option ℕ
after_head none = none
after_head (some i) = some (suc i)

-- The first position of a socket.
unfoldable pub index_of : ℕ → List (ℕ × ℕ) → Option ℕ
index_of s [] = none
index_of s ((j, f) ∷ r) = if j == s then some 0 else after_head (index_of s r)

abbrev pub is_some : Option ℕ → Bool
is_some none = false
is_some (some i) = true

-- Whether a list has an entry for the socket.
abbrev pub listed : ℕ → List (ℕ × ℕ) → Bool
listed s xs = is_some (index_of s xs)

-- No socket stands in two entries.
abbrev pub IsDistinct : List (ℕ × ℕ) → Type 0
IsDistinct [] = Unit {0}
IsDistinct ((j, f) ∷ r) = (listed j r ≡ false) × IsDistinct r

listed-drop-erase :
    (t i : ℕ) (xs : List (ℕ × ℕ)) → listed t xs ≡ false → listed t (drop i (erase_idx xs i)) ≡ false
unfolding index_of
listed-drop-erase t zero [] h = refl
listed-drop-erase t (suc i) [] h = refl
listed-drop-erase t zero ((j, f) ∷ r) h = ground arith
listed-drop-erase t (suc i) ((j, f) ∷ r) h = ground (arith, listed-drop-erase t i r)

-- The entries behind an erased one keep distinct sockets, and stood at positions above 0.
pub IsDistinct-drop-erase :
    (i : ℕ) (xs : List (ℕ × ℕ)) → IsDistinct xs → IsDistinct (drop i (erase_idx xs i))
IsDistinct-drop-erase zero [] d = tt
IsDistinct-drop-erase (suc i) [] d = tt
IsDistinct-drop-erase zero ((j, f) ∷ r) d = d.1
IsDistinct-drop-erase (suc i) ((j, f) ∷ r) d = IsDistinct-drop-erase i r d.1

abbrev pub before : Option ℕ → Option ℕ
before none = none
before (some i) = some (i - 1)

behind_positive :
    (t i : ℕ) (xs : List (ℕ × ℕ))
    → IsDistinct xs
    → listed t (drop i (erase_idx xs i)) ≡ true
    → after_head (before (index_of t xs)) ≡ index_of t xs
unfolding index_of
behind_positive t zero [] d h = ground arith
behind_positive t (suc i) [] d h = ground arith
behind_positive t zero ((j, f) ∷ r) d h = ground arith
behind_positive t (suc i) ((j, f) ∷ r) d h = ground (arith, listed-drop-erase t i r)

pub listed_before :
    (t i : ℕ) (xs : List (ℕ × ℕ)) → listed t (drop i (erase_idx xs i)) ≡ true → listed t xs ≡ true
listed_before t i xs h = elim (Bool-cases (listed t xs)) [
  | inl e ↦ e
  | inr e ↦ ground (arith, listed-drop-erase t i xs e)
]

pub erased_unlisted :
    (s i : ℕ) (xs : List (ℕ × ℕ))
    → IsDistinct xs
    → index_of s xs ≡ some i
    → listed s (drop i (erase_idx xs i)) ≡ false
unfolding index_of
erased_unlisted s i [] d h = absurd (ground arith)
erased_unlisted s zero ((j, f) ∷ r) d h = ground (arith, ==_iff j s)
erased_unlisted s (suc i) ((j, f) ∷ r) d h = erased_unlisted s i r d.1 (ground arith)

pub index_of-tail :
    (s j f i : ℕ) (r : List (ℕ × ℕ))
    → index_of s ((j, f) ∷ r) ≡ some (suc i)
    → index_of s r ≡ some i
unfolding index_of
index_of-tail s j f i r h = ground arith

-- Where a socket stands after an entry was erased.
pub index_of-erase :
    (s t i : ℕ) (xs : List (ℕ × ℕ))
    → IsDistinct xs
    → index_of s xs ≡ some i
    → index_of t (erase_idx xs i) ≡ (
        if s == t
        then none
        else if listed t (drop i (erase_idx xs i))
        then before (index_of t xs)
        else index_of t xs)
unfolding index_of
index_of-erase s t i [] d h = absurd (ground arith)
index_of-erase s t zero ((j, f) ∷ r) d h = ground arith
index_of-erase s t (suc i) ((j, f) ∷ r) d h =
    elim (Bool-cases (listed t (drop i (erase_idx r i)))) [
      | inl e ↦ ground (
        arith,
        index_of-erase s t i r d.1 (index_of-tail s j f i r h),
        behind_positive t i r d.1 e,
        listed_before t i r e,
      )
      | inr e ↦ ground (arith, index_of-erase s t i r d.1 (index_of-tail s j f i r h))
    ]

-- The positions that the loop is to lower: each is in the map, at a positive position.
abbrev pub IsShiftable : List (ℕ × ℕ) → Dict ℕ ℕ → Type 0
IsShiftable [] m = Unit {0}
IsShiftable ((k, f) ∷ r) m = ((i : ℕ) × (Dict.lookup k m ≡ some i)) × IsShiftable r m

IsShiftable-insert :
    (k v : ℕ) (ys : List (ℕ × ℕ)) (m : Dict ℕ ℕ)
    → IsShiftable ys m
    → IsShiftable ys (Dict.insert k v m)
IsShiftable-insert k v [] m h = tt
IsShiftable-insert k v ((j, f) ∷ r) m ((i, e), h) = elim (Bool-cases (k == j)) [
  | inl c ↦ ((v, simp (lookup-insert, c)), IsShiftable-insert k v r m h)
  | inr c ↦ ((i, simp (lookup-insert, c, e)), IsShiftable-insert k v r m h)
]

pub shiftable :
    (ys : List (ℕ × ℕ)) (m : Dict ℕ ℕ)
    → ((t : ℕ) → listed t ys ≡ true → (i : ℕ) × (Dict.lookup t m ≡ some i))
    → IsShiftable ys m
unfolding index_of
shiftable [] m h = tt
shiftable ((k, f) ∷ r) m h =
    (h k (rw ((==_iff k k).1 refl)), shiftable r m (λ t e. h t (ground (arith, e))))

-- The loop ends without an error, and lowers the positions of the sockets that it meets by one.
pub shift_lem :
    (ys : List (ℕ × ℕ)) (m : Dict ℕ ℕ)
    → IsDistinct ys
    → IsShiftable ys m
    → ((shift ys m).0 ≡ ok tt)
      × ((t : ℕ)
          → Dict.lookup t (shift ys m).1
            ≡ (if listed t ys then before (Dict.lookup t m) else Dict.lookup t m))
unfolding shift index_of
shift_lem [] m d h = (refl, λ t. refl)
shift_lem ((k, f) ∷ r) m (new, d) ((i, e), h) =
    let (done, found) =
      shift_lem r (Dict.insert k (i - 1) m) d (IsShiftable-insert k (i - 1) r m h) in
    rw (e, shift) (done, λ t. rw (found t, lookup-insert) (ground (arith, ==_iff k t)))
