-- ===== src/Certs/RoundTrip.antt =====
-- Loading the certificate file that was written.
use pyzmq.Base.{
  ◌≡◌, refl, sym, ap, Bool, true, ◌&&◌, Option, none, some, List, [], ◌∷◌, ◌++◌, ok, Bytes, codes,
  All, ltb, arith,
}
use mathlib.Core.List.{append_assoc}
use pyzmq.Certs.{
  Codec, Text, str, raw_bytes, decoded, decoded_secret, metadata_line, key_line, secret_lines,
  write_line, write_lines, write_metadata, write_key_file, load_certificate,
}
use pyzmq.Certs.Strips.{text_of}
use pyzmq.Certs.Reads.{IsKey, IsSecret, IsPlain, file_lines, load_certificate-text_of}

unfoldable pub is_ascii : Bytes → Bool
is_ascii [] = true
is_ascii (c ∷ cs) = ltb c 128 && is_ascii cs

abbrev pub IsAscii : Bytes → Type 0
IsAscii b = is_ascii b ≡ true

-- What Python documents of an encoding like UTF-8, where lines end in a line feed: ASCII bytes stand for
-- themselves.
pub record IsAsciiCompatible (c : Codec) : Type 0 where
  pub decodes : (b : Bytes) → IsAscii b → c.decode b ≡ ok b
  pub encodes : (t : Bytes) → IsAscii t → c.encode t ≡ ok t

-- The bytes or the code points of a text.
unfoldable pub contents : Text → Bytes
contents (str t) = t
contents (raw_bytes b) = b

unfoldable pub secret_contents : Option Text → Option Bytes
secret_contents none = none
secret_contents (some t) = some (contents t)

unfoldable pub metadata_lines : List (Text × Text) → List Bytes
metadata_lines [] = []
metadata_lines ((k, v) ∷ metadata) =
    metadata_line (contents k) (contents v) ∷ metadata_lines metadata

abbrev pub IsAsciiSecret : Option Text → Type 0
IsAsciiSecret none = Unit {0}
IsAsciiSecret (some t) = IsAscii (contents t)

pub IsAscii-append : (a b : Bytes) → IsAscii a → IsAscii b → IsAscii (a ++ b)
unfolding is_ascii
IsAscii-append [] b h k = k
IsAscii-append (x ∷ xs) b h k = ground (arith, IsAscii-append xs b, h, k)

secret_name : IsAscii (codes "secret-key")
unfolding is_ascii
secret_name = refl

public_name : IsAscii (codes "public-key")
unfolding is_ascii
public_name = refl

headings : IsAscii (codes "metadata") × IsAscii (codes "curve")
unfolding is_ascii
headings = (refl, refl)

key_line-IsAscii : (name key : Bytes) → IsAscii name → IsAscii key → IsAscii (key_line name key)
unfolding key_line is_ascii
key_line-IsAscii name key h k = IsAscii-append name _ h (IsAscii-append key (codes "\"") k refl)

metadata_line-IsAscii : (k v : Bytes) → IsAscii k → IsAscii v → IsAscii (metadata_line k v)
unfolding metadata_line is_ascii
metadata_line-IsAscii k v h h' =
    IsAscii-append (codes "    " ++ k ++ codes " = ") v
      (IsAscii-append (codes "    " ++ k) (codes " = ") (IsAscii-append (codes "    ") k refl h)
        refl)
      h'

secret_line-IsAscii : (b : Bytes) → IsAscii b → All IsAscii (secret_lines (some b))
unfolding secret_lines
secret_line-IsAscii [] h = tt
secret_line-IsAscii (x ∷ xs) h = (key_line-IsAscii (codes "secret-key") (x ∷ xs) secret_name h, tt)

secret_lines-IsAscii :
    (secret : Option Text)
    → IsAsciiSecret secret
    → All IsAscii (secret_lines (secret_contents secret))
unfolding secret_lines secret_contents
secret_lines-IsAscii none h = tt
secret_lines-IsAscii (some t) h = secret_line-IsAscii (contents t) h

text_of-append : (a b : List Bytes) → text_of (a ++ b) ≡ text_of a ++ text_of b
unfolding text_of
text_of-append [] b = refl
text_of-append (l ∷ ls) b =
    rw (text_of-append ls b) (sym (append_assoc l (b'\n' ∷ text_of ls) (text_of b)))

module _ (c : Codec) (ascii : IsAsciiCompatible c) where
  decoded-contents : (t : Text) → IsAscii (contents t) → decoded c t ≡ ok (contents t)
  unfolding decoded contents
  decoded-contents (str t) h = refl
  decoded-contents (raw_bytes b) h = ascii.decodes b h

  decoded_secret-contents :
      (secret : Option Text)
      → IsAsciiSecret secret
      → decoded_secret c secret ≡ ok (secret_contents secret)
  unfolding decoded_secret secret_contents
  decoded_secret-contents none h = refl
  decoded_secret-contents (some t) h = rw (decoded-contents t h) refl

  write_line-text : (l : Bytes) → IsAscii l → write_line c l ≡ ok (l ++ (b'\n' ∷ []))
  unfolding write_line is_ascii
  write_line-text l h = ascii.encodes _ (IsAscii-append l (b'\n' ∷ []) h refl)

  write_lines-text_of : (ls : List Bytes) → All IsAscii ls → write_lines c ls ≡ ok (text_of ls)
  unfolding write_lines text_of
  write_lines-text_of [] h = refl
  write_lines-text_of (l ∷ ls) (h, hs) =
      rw (write_line-text l h, write_lines-text_of ls hs)
        (ap ok (append_assoc l (b'\n' ∷ []) (text_of ls)))

  write_metadata-text_of :
      (metadata : List (Text × Text))
      → All (λ e. IsAscii (contents e.0) × IsAscii (contents e.1)) metadata
      → write_metadata c metadata ≡ ok (text_of (metadata_lines metadata))
  unfolding write_metadata metadata_lines text_of
  write_metadata-text_of [] h = refl
  write_metadata-text_of ((k, v) ∷ metadata) ((hk, hv), hs) =
      rw
        (
          decoded-contents k hk,
          decoded-contents v hv,
          write_line-text (metadata_line (contents k) (contents v))
              (metadata_line-IsAscii _ _ hk hv),
          write_metadata-text_of metadata hs,
        )
        (ap ok (append_assoc (metadata_line (contents k) (contents v)) (b'\n' ∷ []) _))

  -- What was written is the text of the file's lines.
  write_key_file-text_of :
      (banner : Bytes) (lines : List Bytes) (public_key : Text) (secret_key : Option Text)
      (metadata : List (Text × Text))
      → c.format banner ≡ ok (text_of lines)
      → IsAscii (text_of lines)
      → All (λ e. IsAscii (contents e.0) × IsAscii (contents e.1)) metadata
      → IsAscii (contents public_key)
      → IsAsciiSecret secret_key
      → write_key_file c banner public_key secret_key metadata
        ≡ ok (
            text_of (
              file_lines lines
                (metadata_lines metadata)
                (contents public_key)
                (secret_contents secret_key)))
  unfolding write_key_file file_lines
  write_key_file-text_of banner lines public_key secret_key metadata f a m h k =
      let key = contents public_key in
      let name = codes "public-key" in
      let last = codes "curve" ∷ key_line name key ∷ secret_lines (secret_contents secret_key) in
      let tail = metadata_lines metadata ++ last in
      rw
        (
          decoded-contents public_key h,
          decoded_secret-contents secret_key k,
          f,
          ascii.encodes (text_of lines) a,
          write_lines-text_of (codes "metadata" ∷ []) (headings.0, tt),
          write_metadata-text_of metadata m,
          write_lines-text_of last (
            headings.1,
            (key_line-IsAscii name key public_name h, secret_lines-IsAscii secret_key k),
          ),
        )
        (ap ok (
          rw
            (
              text_of-append lines (codes "metadata" ∷ tail),
              text_of-append (codes "metadata" ∷ []) tail,
              text_of-append (metadata_lines metadata) last,
            )
            refl))

-- Where ASCII stands for itself: if the formatted banner consists of lines, and neither these nor the
-- lines of the metadata name a key or have a line feed within them, and everything is ASCII, then
-- writing a certificate with a public key and a secret key or none returns, and loading the file gives
-- these keys back, where the keys, given as `str` or as `bytes`, are not empty and have no blanks, tabs,
-- quotes or line feeds.
pub load_certificate-write_key_file :
    (c : Codec) (banner : Bytes) (lines : List Bytes) (public_key : Text) (secret_key : Option Text)
    (metadata : List (Text × Text))
    → IsAsciiCompatible c
    → c.format banner ≡ ok (text_of lines)
    → IsAscii (text_of lines)
    → All IsPlain lines
    → All (λ e. IsAscii (contents e.0) × IsAscii (contents e.1)) metadata
    → All IsPlain (metadata_lines metadata)
    → IsKey (contents public_key)
    → IsAscii (contents public_key)
    → IsSecret (secret_contents secret_key)
    → IsAsciiSecret secret_key
    → (file : Bytes) × (write_key_file c banner public_key secret_key metadata ≡ ok file)
      × (load_certificate (some file) ≡ ok (contents public_key, secret_contents secret_key))
load_certificate-write_key_file c banner lines public_key secret_key metadata ascii f a p m q h h' k
      k' =
    (
      _,
      write_key_file-text_of c ascii banner lines public_key secret_key metadata f a m h' k',
      load_certificate-text_of lines (metadata_lines metadata) (contents public_key)
          (secret_contents secret_key) p q h k,
    )
