-- ===== src/Cffi/Poll/Results.antt =====
-- What `zmq_poll` answers: the polled objects that have events.
use pyzmq.Base.{
  ℕ, ◌≡◌, refl, sym, ap, ◌∙◌, Bool, true, false, some, List, [], ◌∷◌, ok, if◌then◌else◌, ltb, ◌==◌,
  ==_iff, Bool-cases, inl, inr,
}
use pyzmq.Base.Dict
use pyzmq.Base.Dict.{Dict}
use pyzmq.Cffi.Poll.{
  Target, socket, descriptor, file, Object, socket_object, fd_object, pointer, number, key_beq,
  key_eq, Known, make_item, make_items, remember, remember_all, object_of, known_object,
  cons_result, collect, set_revents, make_zmq_pollitem, make_zmq_pollitem_fromfd,
}

-- The object that stands for a target in the answer.
pub answered : Target → Object
answered (socket o p) = socket_object o
answered (descriptor n) = fd_object n
answered (file n) = fd_object n

-- The targets that have events, in their order, with the events.
pub ready : List (Target × ℕ) → List ℕ → List (Object × ℕ)
unfolding answered
ready [] rs = []
ready ((t, flags) ∷ ts) [] = []
ready ((t, flags) ∷ ts) (r ∷ rs) =
    let rest = ready ts rs in if ltb 0 r then (answered t, r) ∷ rest else rest

if-ok : {A : Type 0} (b : Bool) (x y : A) → (if b then ok x else ok y) ≡ ok (if b then x else y)
if-ok true x y = refl
if-ok false x y = refl

-- One pointer is the pointer of one socket.
abbrev pub IsOwned : (ℕ → ℕ) → Target → Type 0
IsOwned owner (socket o p) = owner p ≡ o
IsOwned owner _ = Unit {0}

module _ (owner : ℕ → ℕ) where
  -- The dictionary knows the pointer of a socket by the socket that owns it.
  pub Knows : Known → ℕ → Type 0
  Knows known p =
      (flags : ℕ) × (Dict.lookup (pointer p) known ≡ some (socket_object (owner p), flags))

  KnowsTarget : Known → Target → Type 0
  KnowsTarget known (socket o p) = Knows known p
  KnowsTarget known _ = Unit {0}

  remember-Knows :
      (t : Target) (flags : ℕ) (known : Known) (p : ℕ)
      → IsOwned owner t
      → Knows known p
      → Knows (remember t flags known) p
  unfolding remember Knows key_beq
  remember-Knows (socket o q) flags known p owned (f, h) = elim (Bool-cases (q == p)) [
    | inl e ↦ (
      flags,
      Dict.lookup-insert (pointer q) (pointer p) (socket_object o, flags) known
          ∙ rw e
              (ap (λ x. some (socket_object x, flags)) (sym owned ∙ ap owner ((==_iff q p).0 e))),
    )
    | inr e ↦
        (f, Dict.lookup-insert (pointer q) (pointer p) (socket_object o, flags) known ∙ rw e h)
  ]
  remember-Knows (descriptor n) flags known p owned (f, h) =
      (f, Dict.lookup-insert (number n) (pointer p) (fd_object n, flags) known ∙ h)
  remember-Knows (file n) flags known p owned (f, h) =
      (f, Dict.lookup-insert (number n) (pointer p) (fd_object n, flags) known ∙ h)

  remember-KnowsTarget :
      (t : Target) (flags : ℕ) (known : Known)
      → IsOwned owner t
      → KnowsTarget (remember t flags known) t
  unfolding remember Knows KnowsTarget key_beq
  remember-KnowsTarget (socket o p) flags known owned = (
    flags,
    Dict.lookup-insert (pointer p) (pointer p) (socket_object o, flags) known
        ∙ rw ((==_iff p p).1 refl, owned) refl,
  )
  remember-KnowsTarget (descriptor n) flags known owned = tt
  remember-KnowsTarget (file n) flags known owned = tt

  abbrev pub AllOwned : List (Target × ℕ) → Type 0
  AllOwned [] = Unit {0}
  AllOwned ((t, flags) ∷ ts) = IsOwned owner t × AllOwned ts

  AllKnown : Known → List (Target × ℕ) → Type 0
  unfolding KnowsTarget
  AllKnown known [] = Unit {0}
  AllKnown known ((t, flags) ∷ ts) = KnowsTarget known t × AllKnown known ts

  remember_all-Knows :
      (ts : List (Target × ℕ)) (known : Known) (p : ℕ)
      → AllOwned ts
      → Knows known p
      → Knows (remember_all ts known) p
  unfolding remember_all
  remember_all-Knows [] known p o h = h
  remember_all-Knows ((t, flags) ∷ ts) known p (o, os) h =
      remember_all-Knows ts (remember t flags known) p os (remember-Knows t flags known p o h)

  remember_all-KnowsTarget :
      (t : Target) (ts : List (Target × ℕ)) (known : Known)
      → AllOwned ts
      → KnowsTarget known t
      → KnowsTarget (remember_all ts known) t
  unfolding KnowsTarget
  remember_all-KnowsTarget (socket o p) ts known os h = remember_all-Knows ts known p os h
  remember_all-KnowsTarget (descriptor n) ts known os h = tt
  remember_all-KnowsTarget (file n) ts known os h = tt

  remember_all-AllKnown :
      (ts : List (Target × ℕ)) (known : Known) → AllOwned ts → AllKnown (remember_all ts known) ts
  unfolding remember_all AllKnown
  remember_all-AllKnown [] known os = tt
  remember_all-AllKnown ((t, flags) ∷ ts) known (o, os) = (
    remember_all-KnowsTarget t ts (remember t flags known) os
        (remember-KnowsTarget t flags known o),
    remember_all-AllKnown ts (remember t flags known) os,
  )

  object_of-make_item :
      (t : Target) (flags r : ℕ) (known : Known)
      → IsOwned owner t
      → KnowsTarget known t
      → object_of known (record (make_item t flags) { revents = r }) ≡ ok (answered t)
  unfolding object_of known_object make_item make_zmq_pollitem make_zmq_pollitem_fromfd answered
      KnowsTarget Knows
  object_of-make_item (socket o p) flags r known owned (f, h) =
      ap known_object h ∙ ap (λ x. ok (socket_object x)) owned
  object_of-make_item (descriptor n) flags r known owned h = refl
  object_of-make_item (file n) flags r known owned h = refl

  collect-nothing : (ts : List (Target × ℕ)) (known : Known) → collect known (make_items ts) ≡ ok []
  unfolding collect make_items make_item make_zmq_pollitem make_zmq_pollitem_fromfd
  collect-nothing [] known = refl
  collect-nothing ((socket o p, flags) ∷ ts) known = collect-nothing ts known
  collect-nothing ((descriptor n, flags) ∷ ts) known = collect-nothing ts known
  collect-nothing ((file n, flags) ∷ ts) known = collect-nothing ts known

  collect-known :
      (ts : List (Target × ℕ)) (rs : List ℕ) (known : Known)
      → AllOwned ts
      → AllKnown known ts
      → collect known (set_revents (make_items ts) rs) ≡ ok (ready ts rs)
  unfolding collect make_items set_revents ready AllKnown cons_result
  collect-known [] rs known os ks = refl
  collect-known ((t, flags) ∷ ts) [] known os ks = collect-nothing ((t, flags) ∷ ts) known
  collect-known ((t, flags) ∷ ts) (r ∷ rs) known (o, os) (k, ks) =
      rw (object_of-make_item t flags r known o k, collect-known ts rs known os ks)
        (if-ok (ltb 0 r) ((answered t, r) ∷ ready ts rs) (ready ts rs))

  -- If each pointer is the pointer of one socket, then of any targets, a target that occurs more than
  -- once included, the answer has exactly those with events, in their order: sockets as objects,
  -- everything else as its descriptor.
  pub collect-ready :
      (ts : List (Target × ℕ)) (rs : List ℕ)
      → AllOwned ts
      → collect (remember_all ts []) (set_revents (make_items ts) rs) ≡ ok (ready ts rs)
  collect-ready ts rs os =
      collect-known ts rs (remember_all ts []) os (remember_all-AllKnown ts [] os)
