-- ===== src/Crypto/RoundTrip.antt =====
-- EncryptStream and DecryptStream against a description of the file format.
pub mod Tests
use ilove_convertion.Base.{
  ℕ, suc, ◌+◌, ◌-◌, ◌*◌, ◌/◌, ◌≤◌, ◌≡◌, ap, ◌∙◌, true, List, [], ◌++◌, append_assoc, length,
  length-append, take, take-append_left, arith, none, some,
}
use ilove_convertion.Crypto.{
  Bytes, Aead, IsAead, Sink, tag_size, chunk_size, nonce_size, encrypt_stream, decrypt_stream,
  after_nonce,
}
use ilove_convertion.Crypto.Cut.{
  cut, cut-IsCut, cut_fuel, cut-append, seal_all-append, concat, concat-cut, seal_all,
  length-seal_all, length_of_IsCut,
}
use ilove_convertion.Crypto.Io.{advance, source, write_fits, advance-append, read_exact}
use ilove_convertion.Crypto.Decrypt.{decrypt_loop-seal_all}
use ilove_convertion.Crypto.Encrypt.{encrypt_loop_lem}

-- The chunks of a text.
abbrev pub chunks : Bytes → List Bytes
chunks bs = cut (suc (length bs)) chunk_size bs

-- The length of the file for a text: the nonce, the text, and a tag for each chunk.
abbrev pub file_length : ℕ → ℕ
file_length n = nonce_size + n + tag_size * ((n + (chunk_size - 1)) / chunk_size)

length-le-mul : (n : ℕ) → n ≤ n * chunk_size
length-le-mul n = omega arith

module _ (a : Aead) (key : Bytes) where
  -- The file that a text becomes: the nonce, and the ciphertext of each chunk.
  abbrev pub file : Bytes → Bytes → Bytes
  file nonce bs = nonce ++ seal_all a key nonce 0 (chunks bs)

  pub length-file :
      IsAead a
      → (nonce bs : Bytes) → length nonce ≡ nonce_size
      → length (file nonce bs) ≡ file_length (length bs)
  length-file law nonce bs l =
      let whole : concat (chunks bs) ≡ bs =
        concat-cut (suc (length bs)) chunk_size bs (omega arith) (omega arith) in
      let count =
        length_of_IsCut chunk_size (chunks bs)
          (cut-IsCut (suc (length bs)) chunk_size bs (omega arith)) in
      omega (
        arith,
        length-append {0} nonce (seal_all a key nonce 0 (chunks bs)),
        length-seal_all a key nonce law 0 (chunks bs),
        ap length whole,
        count,
      )

  -- Into a sink with room for the whole file, EncryptStream writes the file of the text.
  pub encrypt_stream_lem :
      (nonce bs : Bytes) (d : Sink)
      → a.new_cipher key ≡ true
      → length (file nonce bs) ≤ d.room
      → encrypt_stream a key (some nonce) (source bs) d ≡ some (advance d (file nonce bs), none)
  unfolding encrypt_stream
  encrypt_stream_lem nonce bs d k room =
      let body = seal_all a key nonce 0 (chunks bs) in
      let parts = length-append {0} nonce body in
      rw (write_fits d nonce (omega arith), k)
        (encrypt_loop_lem a key nonce chunk_size (omega arith) (suc (length bs)) 0 bs
            (advance d nonce) (omega arith) (omega arith)
          ∙ ap (λ s. some (s, none)) (advance-append d nonce body))

  pub decrypt_stream_lem :
      (law : IsAead a) (nonce bs : Bytes) (d : Sink)
      → a.new_cipher key ≡ true
      → length nonce ≡ nonce_size
      → length bs ≤ d.room
      → decrypt_stream a key (source (file nonce bs)) d ≡ some (advance d bs, none)
  unfolding decrypt_stream after_nonce
  decrypt_stream_lem law nonce bs d k l room =
      let body = seal_all a key nonce 0 (chunks bs) in
      let is_cut = cut-IsCut (suc (length bs)) chunk_size bs (omega arith) in
      let whole : concat (chunks bs) ≡ bs =
        concat-cut (suc (length bs)) chunk_size bs (omega arith) (omega arith) in
      rw (k, read_exact nonce_size nonce body l)
        (decrypt_loop-seal_all a key nonce chunk_size law (chunks bs) (suc (length body)) 0 d is_cut
            (omega (arith, length-seal_all a key nonce law 0 (chunks bs)))
            (omega (arith, ap length whole))
          ∙ ap (λ t. some (advance d t, none)) whole)

-- With AES-GCM as `IsAead` says, an accepted key and a nonce of 12 bytes, EncryptStream into an
-- empty sink with room for `file_length` bytes succeeds and writes exactly that many bytes, and
-- DecryptStream on what it wrote appends the text to any sink with room for it, with no error.
pub decrypt_stream-encrypt_stream :
    (a : Aead) (key nonce bs : Bytes) (room : ℕ) (d : Sink)
    → IsAead a
    → a.new_cipher key ≡ true
    → length nonce ≡ nonce_size
    → file_length (length bs) ≤ room
    → length bs ≤ d.room
    → (out : Sink) × (encrypt_stream a key
          (some nonce)
          (source bs)
          (record { written = []; room = room })
        ≡ some (out, none))
      × (length out.written ≡ file_length (length bs))
      × (decrypt_stream a key (source out.written) d ≡ some (advance d bs, none))
decrypt_stream-encrypt_stream a key nonce bs room d law k l fits fits' =
    let size = length-file a key law nonce bs l in
    let empty : Sink = record { written = []; room = room } in
    (
      advance empty (file a key nonce bs),
      encrypt_stream_lem a key nonce bs empty k (omega arith),
      size,
      decrypt_stream_lem a key law nonce bs d k l fits',
    )

-- With AES-GCM as `IsAead` says, an accepted key, a nonce of 12 bytes and a sink with room, a file
-- that is cut off behind any of its full chunks decrypts with no error, to the text before the
-- cut: for a text `x ++ y` where `x` fills k chunks, the first `file_length (length x)` bytes of
-- its file give `x`.
pub truncation_undetected :
    (a : Aead) (key nonce x y : Bytes) (k : ℕ) (d : Sink)
    → IsAead a
    → a.new_cipher key ≡ true
    → length nonce ≡ nonce_size
    → length x ≡ k * chunk_size
    → length x ≤ d.room
    → decrypt_stream a key (source (take (file_length (length x)) (file a key nonce (x ++ y)))) d
      ≡ some (advance d x, none)
truncation_undetected a key nonce x y k d law ok l full room =
    rw prefix (decrypt_stream_lem a key law nonce x d ok l room)
  where
    whole : length (x ++ y) ≡ length x + length y
    whole = length-append x y

    split : (rest : List Bytes) × (chunks (x ++ y) ≡ chunks x ++ rest)
    split =
        let s =
          cut-append k (suc (length (x ++ y))) chunk_size x y (omega arith) full (omega arith) in
        (
          s.0,
          s.1
              ∙ ap (λ cs. cs ++ s.0)
                  (cut_fuel (suc (length (x ++ y))) (suc (length x)) chunk_size x (omega arith)
                    (omega (arith, whole)) (omega arith)),
        )

    prefix : take (file_length (length x)) (file a key nonce (x ++ y)) ≡ file a key nonce x
    prefix =
        let (rest, e) = split in
        let tail = seal_all-append a key nonce 0 (chunks x) rest in
        rw (e, tail.1)
          (rw (← append_assoc nonce (seal_all a key nonce 0 (chunks x)) tail.0) (
            take-append_left (file_length (length x)) (file a key nonce x) tail.0
              (length-file a key law nonce x l)))
