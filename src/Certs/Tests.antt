-- ===== src/Certs/Tests.antt =====
-- A certificate with a comment, an empty line, one entry of metadata and both keys, over a codec for
-- ASCII texts, with a banner without braces.
use pyzmq.Base.{
  ◌≡◌, refl, none, some, List, [], ◌∷◌, ok, err, value_error, Result, Bytes, codes, All,
  if◌then◌else◌, ◌==◌, nat_eq, ℕ, Bool, true, false, not, ◌&&◌, ◌||◌, ◌++◌, ap, arith,
}
use pyzmq.Certs.{
  Codec, Text, str, raw_bytes, metadata_line, write_key_file, load_certificate, starts_with, strip,
  strip_left, strip_right, is_space, is_quote,
}
use pyzmq.Certs.Create.{create_certificates}
use pyzmq.Certs.Created.{no_braces, has_no_feed, IsFormat, create_certificates_loads}
use pyzmq.Certs.Strips.{text_of}
use pyzmq.Certs.Reads.{IsPlain, IsKey}
use pyzmq.Certs.RoundTrip.{
  is_ascii, IsAscii, IsAsciiCompatible, contents, secret_contents, metadata_lines,
  load_certificate-write_key_file,
}

abbrev strict : Bytes → Result Bytes
strict b = if is_ascii b then ok b else err value_error

abbrev ascii : Codec
ascii = record { decode = strict; encode = strict; format = λ t. ok t }

ascii-IsAsciiCompatible : IsAsciiCompatible ascii
ascii-IsAsciiCompatible = record { decodes = λ b h. rw h refl; encodes = λ t h. rw h refl }

abbrev lines : List Bytes
lines = codes "# h" ∷ [] ∷ []

abbrev metadata : List (Text × Text)
metadata = (str (codes "n"), raw_bytes (codes "v")) ∷ []

lines-IsPlain : All IsPlain lines
unfolding starts_with strip strip_left strip_right is_space
lines-IsPlain = ((refl, refl, (refl, (refl, (refl, tt)))), ((refl, refl, tt), tt))

lines-IsAscii : IsAscii (text_of lines)
unfolding is_ascii text_of
lines-IsAscii = refl

metadata-IsPlain : All IsPlain (metadata_lines metadata)
unfolding metadata_lines metadata_line contents starts_with strip strip_left strip_right is_space
metadata-IsPlain =
    ((refl, refl, (refl, (refl, (refl, (refl, (refl, (refl, (refl, (refl, (refl, tt)))))))))), tt)

metadata-IsAscii : All (λ e. IsAscii (contents e.0) × IsAscii (contents e.1)) metadata
unfolding is_ascii contents
metadata-IsAscii = ((refl, refl), tt)

public-IsKey : IsKey (codes "a=")
unfolding is_quote
public-IsKey = ((refl, refl), ((refl, refl), tt))

public-IsAscii : IsAscii (codes "a=") × IsAscii (codes "#b")
unfolding is_ascii
public-IsAscii = (refl, refl)

secret-IsKey : IsKey (codes "#b")
unfolding is_quote
secret-IsKey = ((refl, refl), ((refl, refl), tt))

load_certificate-write_key_file_example :
    (file : Bytes) × (write_key_file ascii
        (text_of lines)
        (raw_bytes (codes "a="))
        (some (str (codes "#b")))
        metadata
      ≡ ok file)
    × (load_certificate (some file) ≡ ok (codes "a=", some (codes "#b")))
unfolding contents secret_contents
load_certificate-write_key_file_example =
    load_certificate-write_key_file ascii (text_of lines) lines (raw_bytes (codes "a="))
      (some (str (codes "#b"))) metadata ascii-IsAsciiCompatible refl lines-IsAscii lines-IsPlain
      metadata-IsAscii metadata-IsPlain public-IsKey public-IsAscii.0 secret-IsKey public-IsAscii.1

not_brace : (c : ℕ) (b : Bool) → (not (c == b'{' || c == b'}') && b) ≡ true → (c == b'{') ≡ false
not_brace c b h = ground (arith, h)

-- The first field of a template replaced.
filled : Bytes → Bytes → Bytes
filled now [] = []
filled now (c ∷ []) = c ∷ []
filled now (c ∷ d ∷ []) = c ∷ d ∷ []
filled now (c ∷ d ∷ e ∷ cs) =
    let rest = filled now (d ∷ e ∷ cs) in if c == b'{' then now ++ cs else c ∷ rest

filled-copies : (now t : Bytes) → no_braces t ≡ true → filled now t ≡ t
unfolding filled no_braces
filled-copies now [] h = refl
filled-copies now (c ∷ []) h = refl
filled-copies now (c ∷ d ∷ []) h = refl
filled-copies now (c ∷ d ∷ e ∷ cs) h =
    rw (not_brace c (no_braces (d ∷ e ∷ cs)) h, filled-copies now (d ∷ e ∷ cs) (ground (arith, h)))
      refl

filled-replaces :
    (now before after : Bytes)
    → no_braces before ≡ true
    → filled now (before ++ (codes "{0}" ++ after)) ≡ before ++ (now ++ after)
unfolding filled no_braces
filled-replaces now [] after h = refl
filled-replaces now (c ∷ []) after h =
    rw (not_brace c true h) (ap (λ t. c ∷ t) (filled-replaces now [] after refl))
filled-replaces now (c ∷ d ∷ []) after h =
    rw (not_brace c (no_braces (d ∷ [])) h)
      (ap (λ t. c ∷ t) (filled-replaces now (d ∷ []) after (ground (arith, h))))
filled-replaces now (c ∷ d ∷ e ∷ cs) after h =
    rw (not_brace c (no_braces (d ∷ e ∷ cs)) h)
      (ap (λ t. c ∷ t) (filled-replaces now (d ∷ e ∷ cs) after (ground (arith, h))))

abbrev noon : Bytes
noon = codes "2024-01-01 12:00"

abbrev filling : Codec
filling = record ascii { format = λ t. ok (filled noon t) }

filling-IsFormat : IsFormat filling noon
filling-IsFormat = record {
  copies = λ t h. ap ok (filled-copies noon t h);
  replaces = λ before after h k. ap ok (filled-replaces noon before after h);
}

noon_is_plain : IsAscii noon × (no_braces noon ≡ true) × (has_no_feed noon ≡ true)
unfolding is_ascii no_braces has_no_feed
noon_is_plain = (refl, refl, refl)

create_certificates_loads_example :
    (files : Bytes × Bytes) × (create_certificates filling (codes "a=", codes "#b") metadata
      ≡ ok files)
    × (load_certificate (some files.0) ≡ ok (codes "a=", none))
    × (load_certificate (some files.1) ≡ ok (codes "a=", some (codes "#b")))
create_certificates_loads_example =
    create_certificates_loads filling noon (codes "a=") (codes "#b") metadata
      (record {
        decodes = ascii-IsAsciiCompatible.decodes;
        encodes = ascii-IsAsciiCompatible.encodes;
      })
      filling-IsFormat noon_is_plain metadata-IsAscii metadata-IsPlain
      (public-IsKey, public-IsAscii.0) (secret-IsKey, public-IsAscii.1)
