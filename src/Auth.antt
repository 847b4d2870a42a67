-- ===== src/Auth.antt =====
-- zmq/auth/base.py, class Authenticator: ZAP authentication. Texts are lists of code points. The
-- codec of `encoding`, the file system behind `load_certificates` and the callbacks of credentials
-- providers are parameters; log calls are left out. The ZAP socket is the list of the messages
-- that were sent on it.
pub mod Plain
pub mod Curve
pub mod Zap
pub mod Lists
pub mod Thread
pub mod Tests
use pyzmq.Base.{
  ℕ, Bool, true, false, not, ◌&&◌, Option, none, some, List, [], ◌∷◌, ◌++◌, Result, ok, err,
  attribute_error, value_error, if◌then◌else◌, Eq, bytes_eq, Bytes, codes, is_empty,
}
use pyzmq.Base.Dict
use pyzmq.Base.Dict.{Dict}
use pyzmq.Z85

abbrev pub Text : Type 0
Text = Bytes

-- `bytes.decode(encoding, 'replace')` and `str.encode(encoding, 'replace')`, which never raise
pub record Codec : Type 0 where
  pub decode : Bytes → Text
  pub encode : Text → Bytes

pub data UserId : Type 0 where
  text raw : Bytes → UserId

-- The `callback(domain, key)` of a credentials provider.
abbrev pub Provider : Type 0
Provider = Text → Bytes → Bool

pub record Authenticator : Type 0 where
  pub allow_any : Bool
  pub credentials_providers : Dict Text Provider
  pub zap_socket : Option (List (List Bytes))
  pub whitelist : List Text
  pub blacklist : List Text
  pub passwords : Dict Text (Dict Text Text)
  pub certs : Dict Text (Dict Bytes Bool)

-- `__init__`
pub init : Authenticator
init = record {
  allow_any = false;
  credentials_providers = [];
  zap_socket = none;
  whitelist = [];
  blacklist = [];
  passwords = [];
  certs = [];
}

-- A method returns its result, or the exception, with the object as it stands then.
abbrev pub Step : Type 0
Step = Result (Unit {0}) × Authenticator

pub start : Authenticator → Authenticator
start a = record a { zap_socket = some [] }

pub stop : Authenticator → Authenticator
stop a = record a { zap_socket = none }

pub member : Text → List Text → Bool
member x [] = false
member x (y ∷ ys) = if bytes_eq.beq x y then true else member x ys

-- `self.whitelist.update(addresses)`; a set, whose order and repetitions are not observed
pub allow : List Text → Authenticator → Step
allow addresses a =
    if is_empty a.blacklist
    then (ok tt, record a { whitelist = addresses ++ a.whitelist })
    else (err value_error, a)

pub deny : List Text → Authenticator → Step
deny addresses a =
    if is_empty a.whitelist
    then (ok tt, record a { blacklist = addresses ++ a.blacklist })
    else (err value_error, a)

pub configure_plain : Text → Dict Text Text → Authenticator → Authenticator
configure_plain domain passwords a =
    if is_empty passwords
    then a
    else record a { passwords = Dict.insert domain passwords a.passwords }

abbrev pub curve_allow_any : Text
curve_allow_any = codes "*"

abbrev pub default_domain : Text
default_domain = codes "*"

-- A failure to load the certificates is logged and swallowed.
pub configure_curve :
    (Text → Result (Dict Bytes Bool)) → Text → Text → Authenticator → Authenticator
configure_curve load_certificates domain location a =
    if bytes_eq.beq location curve_allow_any
    then record a { allow_any = true }
    else elim (load_certificates location) [
      | ok loaded ↦ record a { allow_any = false; certs = Dict.insert domain loaded a.certs }
      | err e ↦ record a { allow_any = false }
    ]

pub configure_curve_callback : Text → Option Provider → Authenticator → Authenticator
configure_curve_callback domain none a = record a { allow_any = false }
configure_curve_callback domain (some provider) a = record a {
  allow_any = false;
  credentials_providers = Dict.insert domain provider a.credentials_providers;
}

-- `z85.encode(client_public_key).decode('ascii')`; the characters of Z85 are ASCII
pub curve_user_id : Bytes → Result Text
curve_user_id client_public_key = Z85.encode client_public_key

-- `if not domain: domain = '*'`
pub or_default : Text → Text
or_default [] = default_domain
or_default (c ∷ cs) = c ∷ cs

-- The answers of the `_authenticate_…` methods: allowed or not, and the reason.
abbrev pub Answer : Type 0
Answer = Bool × Bytes

check_password : Text → Text → Dict Text Text → Answer
check_password username password table = elim (Dict.lookup username table) [
  | none ↦ (false, codes "Invalid username")
  | some expected ↦
      if bytes_eq.beq password expected then (true, []) else (false, codes "Invalid password")
]

pub authenticate_plain : Text → Text → Text → Authenticator → Answer
unfolding check_password
authenticate_plain domain username password a =
    if is_empty a.passwords
    then (false, codes "No passwords defined")
    else elim (Dict.lookup (or_default domain) a.passwords) [
      | none ↦ (false, codes "Invalid domain")
      | some table ↦ check_password username password table
    ]

accept_key : Bool → Answer
accept_key true = (true, codes "OK")
accept_key false = (false, codes "Unknown key")

-- `self.certs[domain].get(z85_client_key)`, as a truth value
known_key : Bytes → Dict Bytes Bool → Bool
known_key key table = elim (Dict.lookup key table) [ none ↦ false | some b ↦ b ]

-- `z85.encode(client_key)`, which may raise, and the test on the result.
with_key : Bytes → (Bytes → Bool) → Result Answer
unfolding accept_key
with_key client_key test = elim (Z85.encode client_key) [
  | ok key ↦ ok (accept_key (test key))
  | err e ↦ err e
]

pub authenticate_curve : Text → Bytes → Authenticator → Result Answer
unfolding with_key known_key
authenticate_curve domain client_key a =
    if a.allow_any
    then ok (true, codes "OK")
    else if not (is_empty a.credentials_providers)
    then elim (Dict.lookup (or_default domain) a.credentials_providers) [
      | none ↦ ok (false, codes "Unknown domain")
      | some callback ↦ with_key client_key (callback (or_default domain))
    ]
    else elim (Dict.lookup (or_default domain) a.certs) [
      | none ↦ ok (false, codes "Unknown domain")
      | some table ↦ with_key client_key (λ key. known_key key table)
    ]

pub authenticate_gssapi : Text → Bytes → Answer
authenticate_gssapi domain principal = (true, codes "OK")
