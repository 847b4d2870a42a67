-- ===== src/Auth/Zap/Access.antt =====
-- Who is granted access by the ZAP handler: the decision against a specification by rules.
use pyzmq.Base.{
  ◌≡◌, refl, sym, ◌↔◌, ◌⊎◌, ◌∙◌, inl, inr, Bool, true, false, List, [], ◌∷◌, Result, ok, err, arith,
  bytes_eq, bytes_beq, bytes_beq_iff, Bytes, codes, is_empty, Bool-cases, Result-cases,
}
use pyzmq.Z85
use pyzmq.Auth.{Text, Answer, Codec, Authenticator, member, authenticate_curve, curve_user_id}
use pyzmq.Auth.Plain.{Knows, authenticate_plain_iff}
use pyzmq.Auth.Curve.{KeyAllowed, accepted, authenticate_curve_iff}
use pyzmq.Auth.Zap.{
  screen, Decision, decided, invalid_credentials, raised, plain_decision, curve_answered,
  curve_decision, gssapi_decision, by_mechanism, decide,
}

-- The address is kept out by the whitelist, or by the blacklist where there is no whitelist.
abbrev pub IsBarred : Text → Authenticator → Type 0
IsBarred address a =
    (is_empty a.whitelist ≡ false) × (member address a.whitelist ≡ false)
    ⊎ (is_empty a.whitelist ≡ true) × (member address a.blacklist ≡ true)

-- A list lets the address in by name, or by not naming it.
abbrev pub IsListed : Text → Authenticator → Type 0
IsListed address a =
    (is_empty a.whitelist ≡ false) × (member address a.whitelist ≡ true)
    ⊎ (is_empty a.whitelist ≡ true)
      × (is_empty a.blacklist ≡ false)
      × (member address a.blacklist ≡ false)

-- The mechanism is none of the four that the handler knows.
abbrev pub IsUnknown : Bytes → Type 0
IsUnknown mechanism =
    (bytes_eq.beq mechanism (codes "NULL") ≡ false)
    × (bytes_eq.beq mechanism (codes "PLAIN") ≡ false)
    × (bytes_eq.beq mechanism (codes "CURVE") ≡ false)
    × (bytes_eq.beq mechanism (codes "GSSAPI") ≡ false)

-- What a client must present, mechanism by mechanism.
pub data Granted (c : Codec) (domain address : Text) (mechanism : Bytes) (credentials : List Bytes)
    (a : Authenticator) : Type 0 where
  null : mechanism ≡ codes "NULL" → Granted c domain address mechanism credentials a
  plain :
      (u p : Bytes)
      → mechanism ≡ codes "PLAIN"
      → credentials ≡ u ∷ p ∷ []
      → Knows domain (c.decode u) (c.decode p) a
      → Granted c domain address mechanism credentials a
  curve :
      (key z : Bytes)
      → mechanism ≡ codes "CURVE"
      → credentials ≡ key ∷ []
      → KeyAllowed domain key a
      → Z85.encode key ≡ ok z
      → Granted c domain address mechanism credentials a
  gssapi :
      (principal : Bytes)
      → mechanism ≡ codes "GSSAPI"
      → credentials ≡ principal ∷ []
      → Granted c domain address mechanism credentials a
  unknown :
      IsUnknown mechanism → IsListed address a → Granted c domain address mechanism credentials a

-- Whether a decision grants access.
abbrev pub grants : Decision → Bool
grants (decided allowed reason user) = allowed
grants invalid_credentials = false
grants (raised e) = false

member-nonempty : (x : Text) (xs : List Text) → member x xs ≡ true → is_empty xs ≡ false
unfolding member
member-nonempty x [] h = ground arith
member-nonempty x (y ∷ ys) h = refl

screen-denied :
    (address : Text) (a : Authenticator) → ((screen address a).denied ≡ true) ↔ IsBarred address a
unfolding screen
screen-denied address a =
    ((λ h. ground arith), (λ h. ground (arith, member-nonempty address a.blacklist)))

screen-allowed :
    (address : Text) (a : Authenticator) → ((screen address a).allowed ≡ true) ↔ IsListed address a
unfolding screen
screen-allowed address a = ((λ h. ground arith), (λ h. ground arith))

curve_answered_sound :
    (key : Bytes) (r : Result Answer)
    → grants (curve_answered key r) ≡ true
    → (accepted r ≡ true) × (z : Bytes) × (Z85.encode key ≡ ok z)
unfolding curve_answered curve_user_id
curve_answered_sound key (err e) h = absurd (ground arith)
curve_answered_sound key (ok (false, reason)) h = absurd (ground arith)
curve_answered_sound key (ok (true, reason)) h = elim (Result-cases (Z85.encode key)) [
  | inl (z, e) ↦ (refl, z, e)
  | inr (x, e) ↦ absurd (ground (arith, e))
]

curve_answered_complete :
    (key z : Bytes) (r : Result Answer)
    → accepted r ≡ true
    → Z85.encode key ≡ ok z
    → grants (curve_answered key r) ≡ true
unfolding curve_answered curve_user_id
curve_answered_complete key z (err e) h ez = absurd (ground arith)
curve_answered_complete key z (ok (false, reason)) h ez = absurd (ground arith)
curve_answered_complete key z (ok (true, reason)) h ez = ground (arith, ez)

module _ (c : Codec) (domain address : Text) (a : Authenticator) where
  plain_decision_sound :
      (mechanism : Bytes) (credentials : List Bytes)
      → mechanism ≡ codes "PLAIN"
      → grants (plain_decision c domain credentials a) ≡ true
      → Granted c domain address mechanism credentials a
  unfolding plain_decision
  plain_decision_sound m [] e h = absurd (ground arith)
  plain_decision_sound m (u ∷ []) e h = absurd (ground arith)
  plain_decision_sound m (u ∷ p ∷ []) e h =
      Granted.plain u p e refl ((authenticate_plain_iff domain (c.decode u) (c.decode p) a).0 h)
  plain_decision_sound m (u ∷ p ∷ q ∷ r) e h = absurd (ground arith)

  curve_decision_sound :
      (mechanism : Bytes) (credentials : List Bytes)
      → mechanism ≡ codes "CURVE"
      → grants (curve_decision domain credentials a) ≡ true
      → Granted c domain address mechanism credentials a
  unfolding curve_decision
  curve_decision_sound m [] e h = absurd (ground arith)
  curve_decision_sound m (key ∷ []) e h =
      let (yes_key, z, ez) = curve_answered_sound key (authenticate_curve domain key a) h in
      Granted.curve key z e refl ((authenticate_curve_iff domain key a).0 yes_key) ez
  curve_decision_sound m (u ∷ p ∷ r) e h = absurd (ground arith)

  gssapi_decision_sound :
      (mechanism : Bytes) (credentials : List Bytes)
      → mechanism ≡ codes "GSSAPI"
      → grants (gssapi_decision domain credentials) ≡ true
      → Granted c domain address mechanism credentials a
  unfolding gssapi_decision
  gssapi_decision_sound m [] e h = absurd (ground arith)
  gssapi_decision_sound m (u ∷ []) e h = Granted.gssapi u e refl
  gssapi_decision_sound m (u ∷ p ∷ r) e h = absurd (ground arith)

  named : (m : Bytes) (name : Bytes) → bytes_eq.beq m name ≡ true → m ≡ name
  named m name h = (bytes_beq_iff m name).0 h

  by_mechanism_sound :
      (mechanism : Bytes) (credentials : List Bytes)
      → grants (by_mechanism c (screen address a) domain mechanism credentials a) ≡ true
      → Granted c domain address mechanism credentials a
  unfolding by_mechanism
  by_mechanism_sound m creds h = elim (Bool-cases (bytes_eq.beq m (codes "NULL"))) [
    | inl n ↦ Granted.null (named m (codes "NULL") n)
    | inr n ↦ elim (Bool-cases (bytes_eq.beq m (codes "PLAIN"))) [
      | inl p ↦ plain_decision_sound m creds (named m (codes "PLAIN") p) (rw (n, p) at h)
      | inr p ↦ elim (Bool-cases (bytes_eq.beq m (codes "CURVE"))) [
        | inl k ↦ curve_decision_sound m creds (named m (codes "CURVE") k) (rw (n, p, k) at h)
        | inr k ↦ elim (Bool-cases (bytes_eq.beq m (codes "GSSAPI"))) [
          | inl g ↦
              gssapi_decision_sound m creds (named m (codes "GSSAPI") g) (rw (n, p, k, g) at h)
          | inr g ↦
              Granted.unknown (n, p, k, g) ((screen-allowed address a).0 (rw (n, p, k, g) at h))
        ]
      ]
    ]
  ]

  unknown_complete :
      (mechanism : Bytes) (credentials : List Bytes)
      → IsUnknown mechanism
      → IsListed address a
      → grants (by_mechanism c (screen address a) domain mechanism credentials a) ≡ true
  unfolding by_mechanism
  unknown_complete m creds (n, p, k, g) l = rw (n, p, k, g) ((screen-allowed address a).1 l)

  by_mechanism_complete :
      (mechanism : Bytes) (credentials : List Bytes)
      → Granted c domain address mechanism credentials a
      → grants (by_mechanism c (screen address a) domain mechanism credentials a) ≡ true
  unfolding by_mechanism bytes_beq
  by_mechanism_complete m creds (Granted.null e) = rw e (ground arith)
  by_mechanism_complete m creds (Granted.plain u p e f k) =
      rw (e, f)
        (unfold plain_decision in (authenticate_plain_iff domain (c.decode u) (c.decode p) a).1 k)
  by_mechanism_complete m creds (Granted.curve key z e f k ez) =
      rw (e, f)
        (unfold curve_decision in
          curve_answered_complete key z (authenticate_curve domain key a)
            ((authenticate_curve_iff domain key a).1 k) ez)
  by_mechanism_complete m creds (Granted.gssapi u e f) = rw (e, f) (unfold gssapi_decision in refl)
  by_mechanism_complete m creds (Granted.unknown u l) = unknown_complete m creds u l

  -- The decision grants access exactly when the address is not barred and the client presents what
  -- its mechanism asks for: nothing for NULL, a known user and password for PLAIN, an allowed key
  -- with a Z85 form for CURVE, a principal for GSSAPI, and for a mechanism of any other name only
  -- an address that a list lets in.
  pub decide_iff :
      (mechanism : Bytes) (credentials : List Bytes)
      → (grants (decide c domain address mechanism credentials a) ≡ true)
        ↔ (¬ IsBarred address a) × Granted c domain address mechanism credentials a
  unfolding decide
  decide_iff m creds = elim (Bool-cases (screen address a).denied) [
    | inl d ↦ (
      (λ h. absurd (let g : false ≡ true = rw d at h in cc)),
      λ h. absurd (h.0 ((screen-denied address a).0 d)),
    )
    | inr d ↦ (
      (λ h. (
        (λ b. let g : true ≡ false = sym ((screen-denied address a).1 b) ∙ d in absurd (cc)),
        by_mechanism_sound m creds (rw d at h),
      )),
      λ h. rw d (by_mechanism_complete m creds h.1),
    )
  ]
