-- ===== src/Certs/Created.antt =====
-- The files that `create_certificates` writes.
use pyzmq.Base.{
  ◌≡◌, refl, sym, ap, ◌∙◌, Bool, true, not, ◌&&◌, ◌||◌, ◌==◌, ==_iff, nat_eq, Option, none, some,
  List, [], ◌∷◌, ◌++◌, ok, Bytes, codes, All, arith,
}
use mathlib.Core.Path.{subst}
use mathlib.Core.List.{append_assoc}
use pyzmq.Certs.{
  Codec, Text, raw_bytes, write_key_file, load_certificate, starts_with, strip, strip_left,
  strip_right, is_space,
}
use pyzmq.Certs.Create.{secret_banner, public_banner, create_certificates}
use pyzmq.Certs.Strips.{text_of, IsLine}
use pyzmq.Certs.Reads.{IsKey, IsSecret, IsPlain}
use pyzmq.Certs.RoundTrip.{
  is_ascii, IsAscii, IsAsciiSecret, IsAscii-append, IsAsciiCompatible, contents, secret_contents,
  metadata_lines, load_certificate-write_key_file,
}

-- Neither brace is in the text.
unfoldable pub no_braces : Bytes → Bool
no_braces [] = true
no_braces (c ∷ cs) = not (c == b'{' || c == b'}') && no_braces cs

-- What Python documents of `str.format` with the time, whose text is `now`: the field is replaced, and
-- all else but braces is copied.
pub record IsFormat (c : Codec) (now : Bytes) : Type 0 where
  pub copies : (t : Bytes) → no_braces t ≡ true → c.format t ≡ ok t
  pub replaces :
      (before after : Bytes)
      → no_braces before ≡ true
      → no_braces after ≡ true
      → c.format (before ++ (codes "{0}" ++ after)) ≡ ok (before ++ (now ++ after))

pub first_line : Bytes → Bytes
first_line now = codes "#   ****  Generated on " ++ (now ++ codes " by pyzmq  ****")

pub public_lines : List Bytes
public_lines =
    codes "#   ZeroMQ CURVE Public Certificate"
    ∷ codes "#   Exchange securely, or use a secure mechanism to verify the contents"
    ∷ codes "#   of this file after exchange. Store public certificates in your home"
    ∷ codes "#   directory, in the .curve subdirectory."
    ∷ []
    ∷ []

pub secret_text_lines : List Bytes
secret_text_lines =
    codes "#   ZeroMQ CURVE **Secret** Certificate"
    ∷ codes "#   DO NOT PROVIDE THIS FILE TO OTHER USERS nor change its permissions."
    ∷ []
    ∷ []

secret_banner_lem :
    secret_banner
    ≡ codes "#   ****  Generated on "
      ++ (codes "{0}" ++ (codes " by pyzmq  ****" ++ (b'\n' ∷ text_of secret_text_lines)))
unfolding secret_banner text_of secret_text_lines
secret_banner_lem = refl

public_banner_lem :
    public_banner
    ≡ codes "#   ****  Generated on "
      ++ (codes "{0}" ++ (codes " by pyzmq  ****" ++ (b'\n' ∷ text_of public_lines)))
unfolding public_banner text_of public_lines
public_banner_lem = refl

unfoldable pub has_no_feed : Bytes → Bool
has_no_feed [] = true
has_no_feed (c ∷ cs) = not (c == b'\n') && has_no_feed cs

has_no_feed-IsLine : (line : Bytes) → has_no_feed line ≡ true → IsLine line
unfolding has_no_feed
has_no_feed-IsLine [] h = tt
has_no_feed-IsLine (c ∷ cs) h = (ground (arith, h), has_no_feed-IsLine cs (ground (arith, h)))

-- An empty line, or a comment on one line.
is_comment : Bytes → Bool
unfolding has_no_feed
is_comment [] = true
is_comment (c ∷ cs) = c == b'#' && has_no_feed cs

all_comments : List Bytes → Bool
unfolding is_comment
all_comments [] = true
all_comments (line ∷ lines) = is_comment line && all_comments lines

hash-IsPlain : (line : Bytes) → IsLine line → IsPlain (b'#' ∷ line)
unfolding starts_with strip strip_left strip_right is_space
hash-IsPlain line h = (refl, refl, (refl, h))

empty-IsPlain : IsPlain []
unfolding starts_with strip strip_left strip_right
empty-IsPlain = (refl, refl, tt)

-- A comment names no key.
is_comment-IsPlain : (line : Bytes) → is_comment line ≡ true → IsPlain line
unfolding is_comment
is_comment-IsPlain [] h = empty-IsPlain
is_comment-IsPlain (c ∷ cs) h =
    subst (λ x. IsPlain (x ∷ cs)) (sym ((==_iff c b'#').0 (ground (arith, h))))
      (hash-IsPlain cs (has_no_feed-IsLine cs (ground (arith, h))))

all_comments-IsPlain : (lines : List Bytes) → all_comments lines ≡ true → All IsPlain lines
unfolding all_comments
all_comments-IsPlain [] h = tt
all_comments-IsPlain (line ∷ lines) h =
    (is_comment-IsPlain line (ground (arith, h)), all_comments-IsPlain lines (ground (arith, h)))

has_no_feed-append :
    (a b : Bytes) → has_no_feed a ≡ true → has_no_feed b ≡ true → has_no_feed (a ++ b) ≡ true
unfolding has_no_feed
has_no_feed-append [] b h k = k
has_no_feed-append (x ∷ xs) b h k = ground (arith, has_no_feed-append xs b, h, k)

no_braces-append :
    (a b : Bytes) → no_braces a ≡ true → no_braces b ≡ true → no_braces (a ++ b) ≡ true
unfolding no_braces
no_braces-append [] b h k = k
no_braces-append (x ∷ xs) b h k = ground (arith, no_braces-append xs b, h, k)

all_comments_of :
    (now : Bytes) (rest : List Bytes)
    → has_no_feed now ≡ true
    → all_comments rest ≡ true
    → all_comments (first_line now ∷ rest) ≡ true
unfolding all_comments is_comment first_line has_no_feed
all_comments_of now rest h k = rw (has_no_feed-append now (codes " by pyzmq  ****") h refl, k) refl

first_line-no_braces : (now : Bytes) → no_braces now ≡ true → no_braces (first_line now) ≡ true
unfolding first_line no_braces
first_line-no_braces now h = no_braces-append now (codes " by pyzmq  ****") h refl

first_line-IsAscii : (now : Bytes) → IsAscii now → IsAscii (first_line now)
unfolding first_line is_ascii
first_line-IsAscii now h = IsAscii-append now (codes " by pyzmq  ****") h refl

-- The lines after the first one of either banner.
public_rest :
    (all_comments public_lines ≡ true)
    × (no_braces (b'\n' ∷ text_of public_lines) ≡ true)
    × IsAscii (b'\n' ∷ text_of public_lines)
unfolding public_lines all_comments is_comment has_no_feed no_braces is_ascii text_of
public_rest = (refl, refl, refl)

secret_rest :
    (all_comments secret_text_lines ≡ true)
    × (no_braces (b'\n' ∷ text_of secret_text_lines) ≡ true)
    × IsAscii (b'\n' ∷ text_of secret_text_lines)
unfolding secret_text_lines all_comments is_comment has_no_feed no_braces is_ascii text_of
secret_rest = (refl, refl, refl)

-- What is known of a banner's template: its lines after the first one are comments without braces.
record IsTemplate (banner : Bytes) (rest : List Bytes) : Type 0 where
  shape :
      banner
      ≡ codes "#   ****  Generated on "
        ++ (codes "{0}" ++ (codes " by pyzmq  ****" ++ (b'\n' ∷ text_of rest)))
  comments : all_comments rest ≡ true
  braces : no_braces (b'\n' ∷ text_of rest) ≡ true
  ascii : IsAscii (b'\n' ∷ text_of rest)

public-IsTemplate : IsTemplate public_banner public_lines
public-IsTemplate = record {
  shape = public_banner_lem;
  comments = public_rest.0;
  braces = public_rest.1;
  ascii = public_rest.2;
}

secret-IsTemplate : IsTemplate secret_banner secret_text_lines
secret-IsTemplate = record {
  shape = secret_banner_lem;
  comments = secret_rest.0;
  braces = secret_rest.1;
  ascii = secret_rest.2;
}

module _ (c : Codec) (now : Bytes) (formats : IsFormat c now) (plain : no_braces now ≡ true)
    {banner : Bytes} {rest : List Bytes} (template : IsTemplate banner rest) where
  banner_text : Bytes
  banner_text = text_of (first_line now ∷ rest)

  banner_text-no_braces : no_braces banner_text ≡ true
  unfolding banner_text text_of
  banner_text-no_braces =
      no_braces-append (first_line now) _ (first_line-no_braces now plain) template.braces

  banner_text-IsAscii : IsAscii now → IsAscii banner_text
  unfolding banner_text text_of
  banner_text-IsAscii h =
      IsAscii-append (first_line now) _ (first_line-IsAscii now h) template.ascii

  formatted : c.format banner ≡ ok banner_text
  unfolding banner_text text_of first_line no_braces
  formatted =
      let before = codes "#   ****  Generated on " in
      let after = codes " by pyzmq  ****" in
      let tail = b'\n' ∷ text_of rest in
      ap (λ t. c.format t) template.shape
      ∙ formats.replaces before (after ++ tail) refl
          (no_braces-append after tail refl template.braces)
      ∙ ap ok (
          sym (
            append_assoc before (now ++ after) tail
            ∙ ap (λ t. before ++ t) (append_assoc now after tail)))

  -- A key file with this banner, written and loaded.
  file_with :
      (public_key : Text) (secret_key : Option Text) (metadata : List (Text × Text))
      → IsAsciiCompatible c
      → IsAscii now
      → has_no_feed now ≡ true
      → All (λ e. IsAscii (contents e.0) × IsAscii (contents e.1)) metadata
      → All IsPlain (metadata_lines metadata)
      → IsKey (contents public_key)
      → IsAscii (contents public_key)
      → IsSecret (secret_contents secret_key)
      → IsAsciiSecret secret_key
      → (file : Bytes) × (write_key_file c banner_text public_key secret_key metadata ≡ ok file)
        × (load_certificate (some file) ≡ ok (contents public_key, secret_contents secret_key))
  unfolding banner_text
  file_with public_key secret_key metadata ascii a l m q =
      load_certificate-write_key_file c banner_text (first_line now ∷ rest) public_key secret_key
        metadata ascii (formats.copies banner_text banner_text-no_braces) (banner_text-IsAscii a)
        (all_comments-IsPlain (first_line now ∷ rest)
          (all_comments_of now rest l template.comments))
        m q

-- Where ASCII stands for itself and the text of the time is ASCII without braces and line feeds,
-- `create_certificates` returns for a pair of keys that are ASCII, not empty, and have no blanks, tabs,
-- quotes or line feeds, and for metadata in ASCII whose lines name no key and have no line feed within
-- them: loading the public file gives the public key alone, and loading the secret one both keys.
pub create_certificates_loads :
    (c : Codec) (now public_key secret_key : Bytes) (metadata : List (Text × Text))
    → IsAsciiCompatible c
    → IsFormat c now
    → IsAscii now × (no_braces now ≡ true) × (has_no_feed now ≡ true)
    → All (λ e. IsAscii (contents e.0) × IsAscii (contents e.1)) metadata
    → All IsPlain (metadata_lines metadata)
    → IsKey public_key × IsAscii public_key
    → IsKey secret_key × IsAscii secret_key
    → (files : Bytes × Bytes) × (create_certificates c (public_key, secret_key) metadata ≡ ok files)
      × (load_certificate (some files.0) ≡ ok (public_key, none))
      × (load_certificate (some files.1) ≡ ok (public_key, some secret_key))
unfolding create_certificates contents secret_contents metadata_lines
create_certificates_loads c now public_key secret_key metadata ascii formats (a, b, l) m q (h, h')
      (k, k') =
    let key = raw_bytes public_key in
    let (public_file, wrote, loads) =
      file_with c now formats b public-IsTemplate key none [] ascii a l tt tt h h' tt tt in
    let (secret_file, wrote', loads') =
      file_with c now formats b secret-IsTemplate key (some (raw_bytes secret_key)) metadata ascii a
        l m q h h' k k' in
    (
      (public_file, secret_file),
      rw
          (
            formatted c now formats b public-IsTemplate,
            wrote,
            formatted c now formats b secret-IsTemplate,
            wrote',
          )
          refl,
      loads,
      loads',
    )
