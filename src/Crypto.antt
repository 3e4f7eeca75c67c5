-- ===== src/Crypto.antt =====
-- internal/crypto/crypto.go: EncryptStream, DecryptStream, chunkNonce and DeriveKey.
-- A file is a base nonce of 12 bytes and then one AES-GCM ciphertext for each chunk of at most
-- 64 KiB, under the base nonce xor the chunk number. AES-GCM, HKDF and the random source are
-- parameters. An io.Reader is the bytes that it still gives, and whether it fails once they are
-- read; an io.Writer is the bytes written, and how many more it takes before it fails.
pub mod Nonce
pub mod Opened
pub mod Io
mod Cut
mod Decrypt
mod Encrypt
pub mod RoundTrip
pub mod Total
pub mod Files
use Prim.Native.Nat.{bit_xor}
use ilove_convertion.Base.{
  ℕ, zero, suc, ◌+◌, ◌-◌, ◌*◌, ◌/◌, ◌%◌, ◌^◌, ◌≡◌, Bool, true, false, Option, none, some, List, [],
  ◌∷◌, ◌++◌, Str, codes, leb, ◌==◌, if◌then◌else◌, length, take, drop, get_or, set, is_empty,
}

abbrev pub Bytes : Type 0
Bytes = List ℕ

abbrev pub chunk_size : ℕ
chunk_size = 64 * 1024

abbrev pub nonce_size : ℕ
nonce_size = 12

abbrev pub tag_size : ℕ
tag_size = 16

abbrev pub hkdf_info : Str
hkdf_info = codes "fileforge-file-encryption"

-- crypto/aes with crypto/cipher's GCM: `new_cipher` accepts a key, `seal` and `open` take the key,
-- the nonce and the text; `open` is `none` where authentication fails.
pub record Aead : Type 0 where
  pub new_cipher : Bytes → Bool
  pub seal : Bytes → Bytes → Bytes → Bytes
  pub unseal : Bytes → Bytes → Bytes → Option Bytes

-- What the code relies on: GCM opens what it sealed, and a ciphertext is its text and a tag.
pub record IsAead (a : Aead) : Type 0 where
  pub unseal-seal : (k n m : Bytes) → a.unseal k n (a.seal k n m) ≡ some m
  pub length-seal : (k n m : Bytes) → length (a.seal k n m) ≡ length m + tag_size

pub data CryptoError : Type 0 where
  bad_cipher nonce_generation write_nonce read_nonce : CryptoError
  write_chunk read_chunk decrypt_chunk : ℕ → CryptoError

pub record Source : Type 0 where
  pub content : Bytes
  pub fails : Bool

pub record Sink : Type 0 where
  pub written : Bytes
  pub room : ℕ

-- A result of the write, and whether it took every byte.
pub write : Sink → Bytes → Sink × Bool
write d bs =
    if leb (length bs) d.room
    then (record d { written = d.written ++ bs; room = d.room - length bs }, true)
    else (record d { written = d.written ++ take d.room bs; room = 0 }, false)

-- The error of io.ReadFull.
pub data ReadError : Type 0 where
  filled eof unexpected_eof failed : ReadError

read_end : Bool → Bytes → ReadError
read_end true _ = failed
read_end false [] = eof
read_end false (_ ∷ _) = unexpected_eof

-- io.ReadFull(src, buf) for a buffer of `n` bytes: the bytes read, the error, the source after it.
pub read_full : ℕ → Source → Bytes × ReadError × Source
unfolding read_end
read_full n s =
    if leb n (length s.content)
    then (take n s.content, filled, record s { content = drop n s.content })
    else (s.content, read_end s.fails s.content, record s { content = [] })

xor_at : ℕ → ℕ → Bytes → Bytes
xor_at i v nonce = set nonce i (bit_xor (get_or nonce i 0) v)

-- The conversion `byte(x)`.
abbrev byte : ℕ → ℕ
byte x = x % 256

pub chunk_nonce : Bytes → ℕ → Bytes
unfolding xor_at
chunk_nonce base_nonce idx = xor_at 11 (byte idx) (
    xor_at 10 (byte (idx / 2 ^ 8))
      (xor_at 9 (byte (idx / 2 ^ 16)) (xor_at 8 (byte (idx / 2 ^ 24)) base_nonce)))

-- `chunkIdx++` on a uint32.
abbrev pub next_idx : ℕ → ℕ
next_idx idx = (idx + 1) % 2 ^ 32

module _ (a : Aead) (key base_nonce : Bytes) (size : ℕ) where
  -- The body under `if n > 0` in EncryptStream.
  pub encrypt_chunk : Bytes → ℕ → Sink → Sink × ℕ × Option CryptoError
  encrypt_chunk chunk idx dst =
      let (dst', taken) = write dst (a.seal key (chunk_nonce base_nonce idx) chunk) in
      if is_empty chunk
      then (dst, idx, none)
      else if taken
      then (dst', next_idx idx, none)
      else (dst', idx, some (write_chunk idx))

  -- What a loop does behind its `if n > 0`: leave, fail, or read on.
  abbrev pub after_chunk :
      Sink × ℕ × Option CryptoError
      → ReadError
      → (ℕ → Sink → Option (Sink × Option CryptoError))
      → Option (Sink × Option CryptoError)
  after_chunk (dst, idx, some e) _ again = some (dst, some e)
  after_chunk (dst, idx, none) eof again = some (dst, none)
  after_chunk (dst, idx, none) unexpected_eof again = some (dst, none)
  after_chunk (dst, idx, none) failed again = some (dst, some (read_chunk idx))
  after_chunk (dst, idx, none) filled again = again idx dst

  -- The loop of EncryptStream over buffers of `size` bytes; `none` means that the fuel ran out.
  pub encrypt_loop : ℕ → Source → ℕ → Sink → Option (Sink × Option CryptoError)
  encrypt_loop zero src idx dst = none
  encrypt_loop (suc fuel) src idx dst =
      let (chunk, e, src') = read_full size src in
      after_chunk (encrypt_chunk chunk idx dst) e (λ i d. encrypt_loop fuel src' i d)

  -- The body under `if n > 0` in DecryptStream.
  pub decrypt_write : Option Bytes → ℕ → Sink → Sink × ℕ × Option CryptoError
  decrypt_write none idx dst = (dst, idx, some (decrypt_chunk idx))
  decrypt_write (some plaintext) idx dst =
      let (dst', taken) = write dst plaintext in
      if taken then (dst', next_idx idx, none) else (dst', idx, some (write_chunk idx))

  pub open_chunk : Bytes → ℕ → Sink → Sink × ℕ × Option CryptoError
  unfolding decrypt_write
  open_chunk chunk idx dst =
      if is_empty chunk
      then (dst, idx, none)
      else decrypt_write (a.unseal key (chunk_nonce base_nonce idx) chunk) idx dst

  -- The loop of DecryptStream over buffers of `size` bytes and a tag.
  pub decrypt_loop : ℕ → Source → ℕ → Sink → Option (Sink × Option CryptoError)
  decrypt_loop zero src idx dst = none
  decrypt_loop (suc fuel) src idx dst =
      let (chunk, e, src') = read_full (size + tag_size) src in
      after_chunk (open_chunk chunk idx dst) e (λ i d. decrypt_loop fuel src' i d)

-- One round more than the bytes that the source holds: each round but the last reads one.
abbrev pub rounds : Source → ℕ
rounds src = suc (length src.content)

-- EncryptStream; `rng` is what rand.Read gives, `none` if it fails.
pub encrypt_stream :
    Aead → Bytes → Option Bytes → Source → Sink → Option (Sink × Option CryptoError)
encrypt_stream a key none src dst =
    some (dst, some (if a.new_cipher key then nonce_generation else bad_cipher))
encrypt_stream a key (some base_nonce) src dst =
    let (dst', taken) = write dst base_nonce in
    if a.new_cipher key
    then if taken
      then encrypt_loop a key base_nonce chunk_size (rounds src) src 0 dst'
      else some (dst', some write_nonce)
    else some (dst, some bad_cipher)

-- DecryptStream. An empty source is no error: the read of the nonce then gives io.EOF.
after_nonce : Aead → Bytes → Bytes × ReadError × Source → Sink → Option (Sink × Option CryptoError)
after_nonce a key (base_nonce, filled, src) dst =
    decrypt_loop a key base_nonce chunk_size (rounds src) src 0 dst
after_nonce a key (_, eof, src) dst = some (dst, none)
after_nonce a key (_, unexpected_eof, src) dst = some (dst, some read_nonce)
after_nonce a key (_, failed, src) dst = some (dst, some read_nonce)

pub decrypt_stream : Aead → Bytes → Source → Sink → Option (Sink × Option CryptoError)
unfolding after_nonce
decrypt_stream a key src dst =
    if a.new_cipher key
    then after_nonce a key (read_full nonce_size src) dst
    else some (dst, some bad_cipher)

-- DeriveKey; `hkdf` gives the 32 bytes that are read from HKDF-SHA256 for a secret, a salt and an
-- info text.
unfoldable pub derive_key : (Bytes → Bytes → Bytes → Bytes) → Bytes → Str → Option Bytes
derive_key hkdf master_key job_id =
    if length master_key == 32 then some (hkdf master_key job_id hkdf_info) else none
