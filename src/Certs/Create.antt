-- ===== src/Certs/Create.antt =====
-- `create_certificates` of zmq/auth/certs.py: what is in the two files. The key pair is an argument, and
-- `format` has the time.
use pyzmq.Base.{none, some, List, [], ◌++◌, Bytes, codes, Result, ok, ◌>>=◌}
use pyzmq.Certs.{Codec, Text, raw_bytes, write_key_file}

unfoldable pub secret_banner : Bytes
secret_banner =
    codes "#   ****  Generated on {0} by pyzmq  ****\n"
    ++ codes "#   ZeroMQ CURVE **Secret** Certificate\n"
    ++ codes "#   DO NOT PROVIDE THIS FILE TO OTHER USERS nor change its permissions.\n"
    ++ codes "\n"

unfoldable pub public_banner : Bytes
public_banner =
    codes "#   ****  Generated on {0} by pyzmq  ****\n"
    ++ codes "#   ZeroMQ CURVE Public Certificate\n"
    ++ codes "#   Exchange securely, or use a secure mechanism to verify the contents\n"
    ++ codes "#   of this file after exchange. Store public certificates in your home\n"
    ++ codes "#   directory, in the .curve subdirectory.\n"
    ++ codes "\n"

-- The public file and the secret one, which alone has the metadata. The banners are formatted here, and
-- again when they are written.
unfoldable pub create_certificates :
    Codec → Bytes × Bytes → List (Text × Text) → Result (Bytes × Bytes)
unfolding secret_banner public_banner
create_certificates c (public_key, secret_key) metadata = c.format public_banner >>= λ public_text.
    write_key_file c public_text (raw_bytes public_key) none [] >>= λ public_file.
    c.format secret_banner >>= λ secret_text.
    write_key_file c secret_text (raw_bytes public_key) (some (raw_bytes secret_key)) metadata
    >>= λ secret_file. ok (public_file, secret_file)
