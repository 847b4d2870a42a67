-- ===== src/Certs.antt =====
-- zmq/auth/certs.py: the text of a certificate file, and reading it back. Files are parameters: a file is
-- the bytes that were written, a directory the certificate files in it. A text is the list of its code
-- points. What an exception leaves in a file that was opened for writing is left out.
pub mod Strips
pub mod Create
pub mod Created
pub mod Reads
pub mod RoundTrip
pub mod Tests
use pyzmq.Base.{
  ℕ, Bool, true, false, not, ◌&&◌, ◌||◌, Option, none, some, List, [], ◌∷◌, ◌++◌, map, Result, ok,
  err, ◌>>=◌, value_error, index_error, os_error, if◌then◌else◌, ◌==◌, bytes_eq, Bytes, codes,
  is_empty,
}
use pyzmq.Base.Dict
use pyzmq.Base.Dict.{Dict}

-- What the code uses of Python's texts: `bytes.decode` with the encoding, what `write` of a file that
-- was opened as UTF-8 text puts into the file, and `str.format` with the time. Each may raise.
pub record Codec : Type 0 where
  pub decode : Bytes → Result Bytes
  pub encode : Bytes → Result Bytes
  pub format : Bytes → Result Bytes

-- A `str`, by its code points, or `bytes`.
pub data Text : Type 0 where
  str raw_bytes : Bytes → Text

-- `if isinstance(x, bytes): x = x.decode(encoding)`
unfoldable pub decoded : Codec → Text → Result Bytes
decoded c (str t) = ok t
decoded c (raw_bytes b) = c.decode b

pub decoded_secret : Codec → Option Text → Result (Option Bytes)
unfolding decoded
decoded_secret c none = ok none
decoded_secret c (some t) = decoded c t >>= λ b. ok (some b)

unfoldable pub metadata_line : Bytes → Bytes → Bytes
metadata_line k v = codes "    " ++ k ++ codes " = " ++ v

pub key_line : Bytes → Bytes → Bytes
key_line name key = codes "    " ++ (name ++ (codes " = \"" ++ (key ++ codes "\"")))

-- `if secret_key:`
pub secret_lines : Option Bytes → List Bytes
unfolding key_line
secret_lines none = []
secret_lines (some []) = []
secret_lines (some (c ∷ cs)) = key_line (codes "secret-key") (c ∷ cs) ∷ []

-- Writing a line, and a line feed.
unfoldable pub write_line : Codec → Bytes → Result Bytes
write_line c line = c.encode (line ++ (b'\n' ∷ []))

pub write_lines : Codec → List Bytes → Result Bytes
unfolding write_line
write_lines c [] = ok []
write_lines c (line ∷ lines) = write_line c line >>= λ b. write_lines c lines >>= λ bs. ok (b ++ bs)

-- `for k, v in metadata.items()`
pub write_metadata : Codec → List (Text × Text) → Result Bytes
unfolding write_line decoded metadata_line
write_metadata c [] = ok []
write_metadata c ((k, v) ∷ metadata) = decoded c k >>= λ k'. decoded c v >>= λ v'.
    write_line c (metadata_line k' v') >>= λ b. write_metadata c metadata >>= λ bs. ok (b ++ bs)

-- `_write_key_file`: what is in the file when it returns
pub write_key_file : Codec → Bytes → Text → Option Text → List (Text × Text) → Result Bytes
unfolding decoded decoded_secret key_line secret_lines write_lines write_metadata
write_key_file c banner public_key secret_key metadata = decoded c public_key >>= λ p.
    decoded_secret c secret_key >>= λ s. c.format banner >>= λ text. c.encode text >>= λ first.
    write_lines c (codes "metadata" ∷ []) >>= λ second. write_metadata c metadata >>= λ third.
    write_lines c (codes "curve" ∷ key_line (codes "public-key") p ∷ secret_lines s) >>= λ fourth.
    ok (first ++ (second ++ (third ++ fourth)))

-- `for line in f`: a line without its line feed
pub add_to_line : ℕ → List Bytes → List Bytes
add_to_line c [] = (c ∷ []) ∷ []
add_to_line c (line ∷ lines) = (c ∷ line) ∷ lines

pub lines_of : Bytes → List Bytes
unfolding add_to_line
lines_of [] = []
lines_of (c ∷ cs) = let rest = lines_of cs in if c == b'\n' then [] ∷ rest else add_to_line c rest

-- `bytes.strip` of the bytes that a test accepts
unfoldable pub strip_left : (ℕ → Bool) → Bytes → Bytes
strip_left p [] = []
strip_left p (c ∷ cs) = let rest = strip_left p cs in if p c then rest else c ∷ cs

unfoldable pub strip_right : (ℕ → Bool) → Bytes → Bytes
strip_right p [] = []
strip_right p (c ∷ cs) =
    let rest = strip_right p cs in if p c && is_empty rest then [] else c ∷ rest

unfoldable pub strip : (ℕ → Bool) → Bytes → Bytes
unfolding strip_left strip_right
strip p b = strip_right p (strip_left p b)

-- ASCII white space
unfoldable pub is_space : ℕ → Bool
is_space c = c == 32 || c == 9 || c == 10 || c == 13 || c == 11 || c == 12

-- One of the bytes of b' \t\'"'
unfoldable pub is_quote : ℕ → Bool
is_quote c = c == 32 || c == 9 || c == 39 || c == 34

unfoldable pub starts_with : Bytes → Bytes → Bool
starts_with [] b = true
starts_with (p ∷ ps) [] = false
starts_with (p ∷ ps) (c ∷ cs) = p == c && starts_with ps cs

-- `line.split(b"=", 1)[1]`
pub after_equals : Bytes → Result Bytes
after_equals [] = err index_error
after_equals (c ∷ cs) = let rest = after_equals cs in if c == b'=' then ok cs else rest

-- The keys that were found so far.
abbrev pub Keys : Type 0
Keys = Option Bytes × Option Bytes

pub value_of : Bytes → Result Bytes
unfolding after_equals strip is_quote
value_of line = after_equals line >>= λ value. ok (strip is_quote value)

pub take_public : Bytes → Keys → Result Keys
unfolding value_of starts_with
take_public line (pub_key, sec_key) =
    if starts_with (codes "public-key") line
    then (value_of line >>= λ v. ok (some v, sec_key))
    else ok (pub_key, sec_key)

pub take_secret : Bytes → Keys → Result Keys
unfolding value_of starts_with
take_secret line (pub_key, sec_key) =
    if starts_with (codes "secret-key") line
    then (value_of line >>= λ v. ok (pub_key, some v))
    else ok (pub_key, sec_key)

pub is_found : Option Bytes → Bool
is_found none = false
is_found (some []) = false
is_found (some (c ∷ cs)) = true

-- The loop: it ends when both keys are found.
pub read_line : Bytes → Keys → Result Keys
unfolding take_public take_secret strip is_space
read_line raw keys =
    let line = strip is_space raw in
    if starts_with (codes "#") line then ok keys else (take_public line keys >>= take_secret line)

pub go_on : (Keys → Result Keys) → Keys → Result Keys
unfolding is_found
go_on rest keys = if is_found keys.0 && is_found keys.1 then ok keys else rest keys

pub read_lines : List Bytes → Keys → Result Keys
unfolding read_line go_on
read_lines [] keys = ok keys
read_lines (line ∷ lines) keys = read_line line keys >>= go_on (read_lines lines)

pub require_public : Keys → Result (Bytes × Option Bytes)
require_public (none, sec_key) = err value_error
require_public (some p, sec_key) = ok (p, sec_key)

-- `load_certificate`; `none` is a file that does not exist
pub load_certificate : Option Bytes → Result (Bytes × Option Bytes)
unfolding read_lines require_public lines_of
load_certificate none = err os_error
load_certificate (some text) = read_lines (lines_of text) (none, none) >>= require_public

-- `load_certificates`, of the certificate files of a directory
pub load_all : List Bytes → Dict Bytes Bool → Result (Dict Bytes Bool)
unfolding load_certificate
load_all [] certs = ok certs
load_all (text ∷ texts) certs = load_certificate (some text) >>= λ (pub_key, sec_key).
    load_all texts (if is_empty pub_key then certs else Dict.insert pub_key true certs)

pub load_certificates : Option (List Bytes) → Result (Dict Bytes Bool)
unfolding load_all
load_certificates none = err os_error
load_certificates (some texts) = load_all texts []
