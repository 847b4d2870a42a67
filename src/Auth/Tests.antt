-- ===== src/Auth/Tests.antt =====
-- An authenticator with a password table for "*", no lists, and one certificate.
use pyzmq.Base.{
  ◌≡◌, refl, ◌↔◌, Bool, true, some, List, [], ◌∷◌, Result, err, Bytes, codes, bytes_eq, os_error,
}
use pyzmq.Base.Dict.{Dict}
use pyzmq.Auth.{Text, Codec, Authenticator, init}
use pyzmq.Auth.Lists.{allows, denies, configures_plain, run, IsExclusive, run-IsExclusive}
use pyzmq.Auth.Zap.{decide, handle_zap_message, version}
use pyzmq.Auth.Zap.Access.{IsBarred, Granted, grants, decide_iff}
use pyzmq.Auth.Zap.Reply.{Replies, handle_zap_message-Replies}

-- ASCII texts
abbrev ascii : Codec
ascii = record { decode = λ b. b; encode = λ t. t }

abbrev users : Dict Text Text
users = (codes "admin", codes "secret") ∷ []

abbrev guarded : Authenticator
guarded = record init {
  zap_socket = some [];
  passwords = (codes "*", users) ∷ [];
  certs = (codes "*", (codes "key", true) ∷ []) ∷ [];
}

abbrev login : List Bytes
login = codes "admin" ∷ codes "pass" ∷ []

decide_iff_example :
    (grants (decide ascii [] (codes "10.0.0.1") (codes "PLAIN") login guarded) ≡ true)
    ↔ (¬ IsBarred (codes "10.0.0.1") guarded)
      × Granted ascii [] (codes "10.0.0.1") (codes "PLAIN") login guarded
decide_iff_example = decide_iff ascii [] (codes "10.0.0.1") guarded (codes "PLAIN") login

abbrev request : List Bytes
request = version ∷ codes "1" ∷ [] ∷ codes "10.0.0.1" ∷ [] ∷ codes "NULL" ∷ []

handle_zap_message-Replies_example :
    Replies
      (codes "1")
      (decide ascii [] (codes "10.0.0.1") (codes "NULL") [] guarded)
      guarded
      []
      (handle_zap_message ascii request guarded)
handle_zap_message-Replies_example =
    handle_zap_message-Replies ascii (codes "1") [] (codes "10.0.0.1") [] (codes "NULL") [] guarded
      [] refl tt

abbrev missing : Text → Result (Dict Bytes Bool)
missing location = err os_error

run-IsExclusive_example : IsExclusive (
    run missing init (
      allows (codes "10.0.0.1" ∷ [])
      ∷ denies (codes "10.0.0.2" ∷ [])
      ∷ configures_plain [] users
      ∷ []))
run-IsExclusive_example = run-IsExclusive missing (
    allows (codes "10.0.0.1" ∷ [])
    ∷ denies (codes "10.0.0.2" ∷ [])
    ∷ configures_plain [] users
    ∷ [])
