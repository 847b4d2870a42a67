-- ===== src/Auth/Thread/Tests.antt =====
-- ASCII texts, and passwords as JSON of one user, whose name and password are single characters.
use pyzmq.Base.{
  ◌≡◌, refl, some, List, [], ◌∷◌, Result, ok, err, value_error, os_error, false, Bytes, codes, Bool,
}
use pyzmq.Base.Dict.{Dict}
use pyzmq.Auth.{Text, init}
use pyzmq.Auth.Lists.{Call, allows, configures_plain, run}
use pyzmq.Auth.Thread.{Codec, each, handle_all}
use pyzmq.Auth.Thread.Front
use pyzmq.Auth.Thread.Commands.{IsFaithful, message, handle_all-run}

abbrev dump : Dict Text Text → Result Bytes
dump ((u ∷ [], p ∷ []) ∷ []) = ok (u ∷ p ∷ [])
dump _ = err value_error

abbrev load_text : Bytes → Result (Dict Text Text)
load_text (u ∷ p ∷ []) = ok ((u ∷ [], p ∷ []) ∷ [])
load_text _ = err value_error

abbrev ascii : Codec
ascii = record { encode = λ t. ok t; decode = λ b. ok b; dumps = dump; loads = load_text }

dump-load_text : (t : Dict Text Text) (b : Bytes) → dump t ≡ ok b → load_text b ≡ ok t
dump-load_text ((u ∷ [], p ∷ []) ∷ []) b h = cc
dump-load_text _ b h = absurd (cc)

ascii-IsFaithful : IsFaithful ascii
ascii-IsFaithful = record { decodes = λ t b h. cc; loads_back = dump-load_text }

abbrev missing : Text → Result (Dict Bytes Bool)
missing location = err os_error

abbrev table : Dict Text Text
table = (codes "u", codes "p") ∷ []

abbrev calls : List Call
calls = allows (codes "10.0.0.1" ∷ []) ∷ configures_plain (codes "*") table ∷ []

abbrev messages : List (List Bytes)
messages =
    (codes "ALLOW" ∷ codes "10.0.0.1" ∷ []) ∷ (codes "PLAIN" ∷ codes "*" ∷ codes "up" ∷ []) ∷ []

abbrev plain_call : Call
plain_call = configures_plain (codes "*") table

sent_plain : message ascii plain_call ≡ some (ok (codes "PLAIN" ∷ codes "*" ∷ codes "up" ∷ []))
unfolding message Front.configure_plain
sent_plain = refl

sent_allow :
    message ascii (allows (codes "10.0.0.1" ∷ []))
    ≡ some (ok (codes "ALLOW" ∷ codes "10.0.0.1" ∷ []))
unfolding message Front.allow each
sent_allow = refl

handle_all-run_example : handle_all ascii missing messages init ≡ (ok false, run missing init calls)
handle_all-run_example =
    handle_all-run ascii ascii-IsFaithful missing calls messages init (sent_allow, (sent_plain, tt))
