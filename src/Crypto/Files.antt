-- ===== src/Crypto/Files.antt =====
-- EncryptFile and DecryptFile of internal/crypto/crypto.go: a source file into a destination file.
-- The deferred removal of the destination reads the variable `err`, which the stream sets and
-- `return dst.Sync()` does not.
use ilove_convertion.Base.{ℕ, Bool, true, false, Option, none, some, [], if◌then◌else◌}
use ilove_convertion.Crypto.{Bytes, Aead, CryptoError, Sink, encrypt_stream, decrypt_stream}

pub data FileError : Type 0 where
  open_source create_dest sync_dest : FileError
  stream : CryptoError → FileError
  no_result : FileError

-- What the file system does: whether the destination is created, how many bytes it takes, whether
-- it is synced.
pub record FileEvents : Type 0 where
  pub create : Bool
  pub room : ℕ
  pub sync : Bool

-- The destination after the stream, and the error.
after_stream : Bool → Option (Sink × Option CryptoError) → Option Bytes × Option FileError
after_stream sync none = (none, some no_result)
after_stream sync (some (d, some e)) = (none, some (stream e))
after_stream true (some (d, none)) = (some d.written, none)
after_stream false (some (d, none)) = (some d.written, some sync_dest)

abbrev pub empty_sink : ℕ → Sink
empty_sink room = record { written = []; room = room }

-- The source is `none` if it cannot be opened; `old` is the destination before.
unfoldable pub encrypt_file :
    Aead
    → Bytes
    → Option Bytes
    → FileEvents
    → Option Bytes
    → Option Bytes
    → Option Bytes × Option FileError
unfolding after_stream
encrypt_file a key rng ev none old = (old, some open_source)
encrypt_file a key rng ev (some bs) old =
    if ev.create
    then after_stream ev.sync
        (encrypt_stream a key rng (record { content = bs; fails = false }) (empty_sink ev.room))
    else (old, some create_dest)

unfoldable pub decrypt_file :
    Aead → Bytes → FileEvents → Option Bytes → Option Bytes → Option Bytes × Option FileError
unfolding after_stream
decrypt_file a key ev none old = (old, some open_source)
decrypt_file a key ev (some bs) old =
    if ev.create
    then after_stream ev.sync
        (decrypt_stream a key (record { content = bs; fails = false }) (empty_sink ev.room))
    else (old, some create_dest)
