-- ===== src/Certs/Reads.antt =====
-- Loading a certificate whose lines are known.
use pyzmq.Base.{
  ℕ, ◌≡◌, refl, ap, ◌∙◌, false, Option, none, some, List, [], ◌∷◌, ◌++◌, Result, ok, ◌>>=◌, ◌==◌,
  Bytes, codes, All, Bool-cases, inl, inr,
}
use pyzmq.Certs.{
  key_line, secret_lines, strip_left, strip_right, strip, is_space, is_quote, starts_with,
  after_equals, Keys, value_of, take_public, take_secret, is_found, read_line, go_on, read_lines,
  require_public, load_certificate,
}
use pyzmq.Certs.Strips.{text_of, IsLine, lines_of-text_of, strip_right-append, strip_between}

-- A key has bytes, and none of them is a quote, white space or a line feed.
abbrev pub IsKey : Bytes → Type 0
IsKey [] = ⊥
IsKey (c ∷ cs) = All (λ c. ((is_quote c) ≡ false) × ((c == b'\n') ≡ false)) (c ∷ cs)

-- A line, stripped, names no key.
abbrev pub IsPlain : Bytes → Type 0
IsPlain line =
    (starts_with (codes "public-key") (strip is_space line) ≡ false)
    × (starts_with (codes "secret-key") (strip is_space line) ≡ false)
    × IsLine line

read_line-plain : (line : Bytes) (keys : Keys) → IsPlain line → read_line line keys ≡ ok keys
unfolding read_line take_public take_secret
read_line-plain line keys (h, k, _) =
    elim (Bool-cases (starts_with (codes "#") (strip is_space line))) [
      | inl c ↦ rw c refl
      | inr c ↦ rw (c, h, k) refl
    ]

read_lines-plain :
    (lines rest : List Bytes)
    → All IsPlain lines
    → read_lines (lines ++ rest) (none, none) ≡ read_lines rest (none, none)
unfolding read_lines go_on is_found
read_lines-plain [] rest h = refl
read_lines-plain (line ∷ lines) rest (h, hs) =
    rw (read_line-plain line (none, none) h) (read_lines-plain lines rest hs)

not_quotes :
    (xs : Bytes)
    → All (λ c. ((is_quote c) ≡ false) × ((c == b'\n') ≡ false)) xs
    → All (λ c. is_quote c ≡ false) xs
not_quotes [] h = tt
not_quotes (x ∷ xs) (h, hs) = (h.0, not_quotes xs hs)

not_feeds : (xs : Bytes) → All (λ c. ((is_quote c) ≡ false) × ((c == b'\n') ≡ false)) xs → IsLine xs
not_feeds [] h = tt
not_feeds (x ∷ xs) (h, hs) = (h.1, not_feeds xs hs)

quoted :
    (x : ℕ) (xs : Bytes)
    → IsKey (x ∷ xs)
    → strip is_quote (codes " \"" ++ ((x ∷ xs) ++ codes "\"")) ≡ x ∷ xs
unfolding is_quote
quoted x xs h = strip_between is_quote 32 34 x xs refl refl (not_quotes (x ∷ xs) h)

stripped_public :
    (key : Bytes)
    → strip is_space (key_line (codes "public-key") key)
      ≡ codes "public-key = \"" ++ (key ++ codes "\"")
unfolding key_line strip strip_left is_space strip_right
stripped_public key = rw (strip_right-append is_space key 34 refl) refl

stripped_secret :
    (key : Bytes)
    → strip is_space (key_line (codes "secret-key") key)
      ≡ codes "secret-key = \"" ++ (key ++ codes "\"")
unfolding key_line strip strip_left is_space strip_right
stripped_secret key = rw (strip_right-append is_space key 34 refl) refl

read_line-public :
    (x : ℕ) (xs : Bytes)
    → IsKey (x ∷ xs)
    → read_line (key_line (codes "public-key") (x ∷ xs)) (none, none) ≡ ok (some (x ∷ xs), none)
unfolding read_line take_public take_secret starts_with value_of after_equals
read_line-public x xs h =
    rw (stripped_public (x ∷ xs)) (ap (λ v. ok (some v, none)) (quoted x xs h))

read_line-secret :
    (x : ℕ) (xs : Bytes) (p : Option Bytes)
    → IsKey (x ∷ xs)
    → read_line (key_line (codes "secret-key") (x ∷ xs)) (p, none) ≡ ok (p, some (x ∷ xs))
unfolding read_line take_public take_secret starts_with value_of after_equals
read_line-secret x xs p h = rw (stripped_secret (x ∷ xs)) (ap (λ v. ok (p, some v)) (quoted x xs h))

curve_line : IsPlain (codes "curve")
unfolding starts_with strip strip_left strip_right is_space
curve_line = (refl, refl, (refl, (refl, (refl, (refl, (refl, tt))))))

metadata_line : IsPlain (codes "metadata")
unfolding starts_with strip strip_left strip_right is_space
metadata_line = (refl, refl, (refl, (refl, (refl, (refl, (refl, (refl, (refl, (refl, tt)))))))))

-- A secret key, where there is one.
abbrev pub IsSecret : Option Bytes → Type 0
IsSecret none = Unit {0}
IsSecret (some key) = IsKey key

read_lines-first :
    (line : Bytes) (lines : List Bytes) (keys keys' : Keys)
    → read_line line keys ≡ ok keys'
    → read_lines (line ∷ lines) keys ≡ go_on (read_lines lines) keys'
unfolding read_lines
read_lines-first line lines keys keys' h =
    ap (λ (r : Result Keys). r >>= go_on (read_lines lines)) h

read_keys :
    (x : ℕ) (xs : Bytes) (secret : Option Bytes)
    → IsKey (x ∷ xs)
    → IsSecret secret
    → read_lines (key_line (codes "public-key") (x ∷ xs) ∷ secret_lines secret) (none, none)
      ≡ ok (some (x ∷ xs), secret)
unfolding read_lines go_on is_found secret_lines
read_keys x xs none h k =
    read_lines-first (key_line (codes "public-key") (x ∷ xs)) [] (none, none) (some (x ∷ xs), none)
      (read_line-public x xs h)
read_keys x xs (some []) h k = absurd k
read_keys x xs (some (y ∷ ys)) h k =
    read_lines-first (key_line (codes "public-key") (x ∷ xs))
      (key_line (codes "secret-key") (y ∷ ys) ∷ []) (none, none) (some (x ∷ xs), none)
      (read_line-public x xs h)
    ∙ read_lines-first (key_line (codes "secret-key") (y ∷ ys)) [] (some (x ∷ xs), none)
        (some (x ∷ xs), some (y ∷ ys)) (read_line-secret y ys (some (x ∷ xs)) k)

-- The lines of a certificate file.
unfoldable pub file_lines : List Bytes → List Bytes → Bytes → Option Bytes → List Bytes
file_lines banner metadata public_key secret_key =
    banner
    ++ (codes "metadata"
        ∷ (metadata
            ++ (codes "curve"
                ∷ key_line (codes "public-key") public_key
                ∷ secret_lines secret_key)))

read_file :
    (banner metadata : List Bytes) (x : ℕ) (xs : Bytes) (secret : Option Bytes)
    → All IsPlain banner
    → All IsPlain metadata
    → IsKey (x ∷ xs)
    → IsSecret secret
    → read_lines (file_lines banner metadata (x ∷ xs) secret) (none, none)
      ≡ ok (some (x ∷ xs), secret)
unfolding file_lines
read_file banner metadata x xs secret b m h k =
    read_lines-plain banner _ b
    ∙ read_lines-plain (codes "metadata" ∷ []) _ (metadata_line, tt)
    ∙ read_lines-plain metadata _ m
    ∙ read_lines-plain (codes "curve" ∷ []) _ (curve_line, tt)
    ∙ read_keys x xs secret h k

IsLine-append : (a b : Bytes) → IsLine a → IsLine b → IsLine (a ++ b)
IsLine-append [] b h k = k
IsLine-append (x ∷ xs) b (h, hs) k = (h, IsLine-append xs b hs k)

key_line-IsLine : (name key : Bytes) → IsLine name → IsLine key → IsLine (key_line name key)
unfolding key_line
key_line-IsLine name key h k = (
  refl,
  (
    refl,
    (
      refl,
      (
        refl,
        IsLine-append name _ h
            (refl, (refl, (refl, (refl, IsLine-append key (codes "\"") k (refl, tt))))),
      ),
    ),
  ),
)

secret_lines-IsLine : (secret : Option Bytes) → IsSecret secret → All IsLine (secret_lines secret)
unfolding secret_lines
secret_lines-IsLine none k = tt
secret_lines-IsLine (some []) k = absurd k
secret_lines-IsLine (some (y ∷ ys)) k = (
  key_line-IsLine (codes "secret-key") (y ∷ ys)
      (refl, (refl, (refl, (refl, (refl, (refl, (refl, (refl, (refl, (refl, tt))))))))))
      (not_feeds (y ∷ ys) k),
  tt,
)

All-IsLine :
    (lines rest : List Bytes) → All IsPlain lines → All IsLine rest → All IsLine (lines ++ rest)
All-IsLine [] rest h k = k
All-IsLine (line ∷ lines) rest (h, hs) k = (h.2, All-IsLine lines rest hs k)

public-IsLine : (key : Bytes) → IsKey key → IsLine (key_line (codes "public-key") key)
public-IsLine [] h = absurd h
public-IsLine (x ∷ xs) h =
    key_line-IsLine (codes "public-key") (x ∷ xs)
      (refl, (refl, (refl, (refl, (refl, (refl, (refl, (refl, (refl, (refl, tt))))))))))
      (not_feeds (x ∷ xs) h)

-- Loading the text of these lines gives the keys.
pub load_certificate-text_of :
    (banner metadata : List Bytes) (key : Bytes) (secret : Option Bytes)
    → All IsPlain banner
    → All IsPlain metadata
    → IsKey key
    → IsSecret secret
    → load_certificate (some (text_of (file_lines banner metadata key secret))) ≡ ok (key, secret)
unfolding load_certificate require_public file_lines
load_certificate-text_of banner metadata [] secret b m h k = absurd h
load_certificate-text_of banner metadata (x ∷ xs) secret b m h k =
    rw
      (
        lines_of-text_of (file_lines banner metadata (x ∷ xs) secret) (
            All-IsLine banner _ b (
              metadata_line.2,
              All-IsLine metadata _ m
                  (curve_line.2, (public-IsLine (x ∷ xs) h, secret_lines-IsLine secret k)),
            )),
        read_file banner metadata x xs secret b m h k,
      )
      refl
