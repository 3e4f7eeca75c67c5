-- ===== src/Crypto/RoundTrip/Tests.antt =====
-- The round trip at concrete data, with a stand-in for AES-GCM that puts a fixed tag in front.
use ilove_convertion.Base.{
  ℕ, ◌≡◌, ◌≢◌, ◌⊎◌, ◌*◌, length-replicate, refl, true, [], ◌++◌, length, take, drop, replicate, leb,
  if◌then◌else◌, none, some, arith, codes,
}
use ilove_convertion.Crypto.{
  Bytes, Aead, IsAead, Sink, chunk_nonce, chunk_size, encrypt_stream, decrypt_stream, read_full,
  decrypt_loop, open_chunk, write,
}
use ilove_convertion.Crypto.Io.{source, advance}
use ilove_convertion.Crypto.Nonce.{chunk_nonce_distinct}
use ilove_convertion.Crypto.Opened.{Opened, decrypt_stream-Opened}
use ilove_convertion.Crypto.Total.{Returns, encrypt_stream-Returns, decrypt_stream-Returns}
use ilove_convertion.Crypto.RoundTrip.{
  file, file_length, decrypt_stream-encrypt_stream, truncation_undetected,
}

abbrev pub toy : Aead
toy = record {
  new_cipher = λ k. true;
  seal = λ k n m. replicate 16 7 ++ m;
  unseal = λ k n c. if leb 16 (length c) then some (drop 16 c) else none;
}

toy_opens : (k n m : Bytes) → toy.unseal k n (toy.seal k n m) ≡ some m
toy_opens k n m = ground arith

pub toy-IsAead : IsAead toy
toy-IsAead = record { unseal-seal = toy_opens; length-seal = λ k n m. omega arith }

abbrev pub toy_nonce : Bytes
toy_nonce = replicate 12 3

abbrev sink : Sink
sink = record { written = []; room = 1000 }

round_trip_example :
    (out : Sink) × (encrypt_stream toy [] (some toy_nonce) (source (codes "hello")) sink
      ≡ some (out, none))
    × (length out.written ≡ file_length 5)
    × (decrypt_stream toy [] (source out.written) sink ≡ some (advance sink (codes "hello"), none))
round_trip_example =
    decrypt_stream-encrypt_stream toy [] toy_nonce (codes "hello") 1000 sink toy-IsAead refl refl
      (omega arith) (omega arith)

chunk_nonce_distinct_example : chunk_nonce toy_nonce 1 ≢ chunk_nonce toy_nonce 257
chunk_nonce_distinct_example =
    chunk_nonce_distinct toy_nonce 1 257 refl (omega arith) (omega arith) (omega arith)
      (omega arith)

block : Bytes
block = replicate chunk_size 9

length-block : length block ≡ 1 * chunk_size
unfolding block
length-block = length-replicate {A = ℕ} chunk_size 9

abbrev wide : Sink
wide = record { written = []; room = 100000 }

truncation_example :
    decrypt_stream toy []
      (source (take (file_length (length block)) (file toy [] toy_nonce (block ++ codes "tail"))))
      wide
    ≡ some (advance wide block, none)
truncation_example =
    truncation_undetected toy [] toy_nonce block (codes "tail") 1 wide toy-IsAead refl refl
      length-block (rw length-block (omega arith))

encrypt_stream-Returns_example : Returns (encrypt_stream toy [] none (source (codes "x")) sink)
encrypt_stream-Returns_example = encrypt_stream-Returns toy [] none (source (codes "x")) sink

decrypt_stream-Returns_example : Returns (decrypt_stream toy [] (source (codes "bad")) sink)
decrypt_stream-Returns_example = decrypt_stream-Returns toy [] (source (codes "bad")) sink

-- A file of one chunk that no EncryptStream wrote.
abbrev foreign : Bytes
foreign = toy_nonce ++ (replicate 16 8 ++ codes "hi")

foreign_opens : decrypt_stream toy [] (source foreign) sink ≡ some (advance sink (codes "hi"), none)
unfolding decrypt_stream read_full decrypt_loop open_chunk write
foreign_opens = refl

opened_example :
    (codes "hi" ≡ [])
    ⊎ ((nonce : Bytes) × (bs : Bytes) × (out : Bytes) × (foreign ≡ nonce ++ bs)
        × (length nonce ≡ 12)
        × (codes "hi" ≡ out)
        × Opened toy [] nonce 0 bs out)
opened_example =
    decrypt_stream-Opened toy [] (source foreign) sink (advance sink (codes "hi"), none)
      foreign_opens
