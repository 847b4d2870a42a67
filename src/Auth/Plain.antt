-- ===== src/Auth/Plain.antt =====
-- PLAIN authentication (`_authenticate_plain`) against the password tables.
use pyzmq.Base.{
  ◌≡◌, refl, ◌↔◌, inl, inr, true, false, some, [], arith, bytes_beq_iff, bytes_eq, is_empty,
  Bool-cases, Option-cases,
}
use pyzmq.Base.Dict
use pyzmq.Base.Dict.{Dict, lookup-is_empty}
use pyzmq.Auth.{Text, Authenticator, or_default, authenticate_plain, check_password}

-- The tables hold this password of the user, under the domain, or under "*" for an empty domain.
abbrev pub Knows : Text → Text → Text → Authenticator → Type 0
Knows domain username password a =
    (t : Dict Text Text) × (Dict.lookup (or_default domain) a.passwords ≡ some t)
    × (Dict.lookup username t ≡ some password)

check_password_sound :
    (username password : Text) (t : Dict Text Text)
    → (check_password username password t).0 ≡ true
    → Dict.lookup username t ≡ some password
unfolding check_password
check_password_sound username password t h = elim (Option-cases (Dict.lookup username t)) [
  | inl e ↦ absurd (let g : false ≡ true = rw (e, check_password) at h in cc)
  | inr (expected, e) ↦ ground (arith, e, bytes_beq_iff password expected)
]

authenticate_plain_sound :
    (domain username password : Text) (a : Authenticator)
    → (authenticate_plain domain username password a).0 ≡ true
    → Knows domain username password a
unfolding authenticate_plain
authenticate_plain_sound domain username password a h = elim (Bool-cases (is_empty a.passwords)) [
  | inl none_set ↦ absurd (let g : false ≡ true = rw none_set at h in cc)
  | inr some_set ↦ elim (Option-cases (Dict.lookup (or_default domain) a.passwords)) [
    | inl e ↦ absurd (ground (arith, e))
    | inr (t, e) ↦ (t, e, check_password_sound username password t (ground (arith, e)))
  ]
]

authenticate_plain_complete :
    (domain username password : Text) (a : Authenticator)
    → Knows domain username password a
    → authenticate_plain domain username password a ≡ (true, [])
unfolding authenticate_plain check_password
authenticate_plain_complete domain username password a (t, e, f) =
    rw (lookup-is_empty (or_default domain) a.passwords e) (
      rw (e, authenticate_plain)
        (rw (f, check_password) (rw ((bytes_beq_iff password password).1 refl))))

pub authenticate_plain_iff :
    (domain username password : Text) (a : Authenticator)
    → ((authenticate_plain domain username password a).0 ≡ true) ↔ Knows domain username password a
authenticate_plain_iff domain username password a = (
  authenticate_plain_sound domain username password a,
  λ k. rw (authenticate_plain_complete domain username password a k),
)
