-- ===== src/Crypto/Total.antt =====
-- Both streams return, whatever the source, the sink and the cipher do.
use ilove_convertion.Base.{
  ℕ, zero, suc, ◌+◌, ◌<◌, ◌≡◌, refl, Bool, true, false, [], ◌∷◌, length, length-drop, leb, leb→le,
  tests, arith, Option, none, some, Bool-cases, inl, inr,
}
use ilove_convertion.Crypto.{
  Bytes, Aead, Source, Sink, CryptoError, tag_size, chunk_size, nonce_size, ReadError, filled, eof,
  unexpected_eof, failed, read_full, read_end, after_chunk, encrypt_loop, decrypt_loop,
  encrypt_stream, decrypt_stream, after_nonce, rounds, write,
}

abbrev pub Outcome : Type 0
Outcome = Sink × Option CryptoError

abbrev pub Returns : Option Outcome → Type 0
Returns o = (r : Outcome) × (o ≡ some r)

-- A full read leaves less to read.
read_progress :
    (n : ℕ) (s : Source)
    → 0 < n
    → (read_full n s).1 ≡ filled
    → length (read_full n s).2.content < length s.content
unfolding read_full
read_progress n s h e = elim (Bool-cases (leb n (length s.content))) [
  | inl t ↦ rw t (rw length-drop (omega (tests, leb→le _ _ t)))
  | inr f ↦ absurd (short s.fails s.content (rw f at e))
]
  where
    short : (b : Bool) (bs : Bytes) → read_end b bs ≡ filled → ⊥
    short true bs e = unfold read_end in cc
    short false [] e = unfold read_end in cc
    short false (x ∷ bs) e = unfold read_end in cc

after_chunk-Returns :
    (p : Sink × ℕ × Option CryptoError) (e : ReadError) (again : ℕ → Sink → Option Outcome)
    → (e ≡ filled → (i : ℕ) (d : Sink) → Returns (again i d))
    → (a : Aead) (key base_nonce : Bytes) (size : ℕ)
    → Returns (after_chunk a key base_nonce size p e again)
after_chunk-Returns (d, i, some x) e again h a key base_nonce size = ((d, some x), refl)
after_chunk-Returns (d, i, none) filled again h a key base_nonce size = h refl i d
after_chunk-Returns (d, i, none) eof again h a key base_nonce size = ((d, none), refl)
after_chunk-Returns (d, i, none) unexpected_eof again h a key base_nonce size = ((d, none), refl)
after_chunk-Returns (d, i, none) failed again h a key base_nonce size = (_, refl)

module _ (a : Aead) (key base_nonce : Bytes) (size : ℕ) (pos : 0 < size) where
  encrypt_loop-Returns :
      (fuel : ℕ) (src : Source) (idx : ℕ) (d : Sink)
      → length src.content < fuel
      → Returns (encrypt_loop a key base_nonce size fuel src idx d)
  unfolding encrypt_loop
  encrypt_loop-Returns zero src idx d lt = elim lt [ ]
  encrypt_loop-Returns (suc fuel) src idx d lt =
      after_chunk-Returns _ _ _
        (λ e i d'.
          encrypt_loop-Returns fuel (read_full size src).2 i d'
            (omega (arith, read_progress size src pos e)))
        a key base_nonce size

  decrypt_loop-Returns :
      (fuel : ℕ) (src : Source) (idx : ℕ) (d : Sink)
      → length src.content < fuel
      → Returns (decrypt_loop a key base_nonce size fuel src idx d)
  unfolding decrypt_loop
  decrypt_loop-Returns zero src idx d lt = elim lt [ ]
  decrypt_loop-Returns (suc fuel) src idx d lt =
      after_chunk-Returns _ _ _
        (λ e i d'.
          decrypt_loop-Returns fuel (read_full (size + tag_size) src).2 i d'
            (omega (arith, read_progress (size + tag_size) src (omega arith) e)))
        a key base_nonce size

-- EncryptStream returns for every cipher, key, random source, source and sink, failing ones
-- included: the fuel that it is given never runs out.
pub encrypt_stream-Returns :
    (a : Aead) (key : Bytes) (rng : Option Bytes) (src : Source) (d : Sink)
    → Returns (encrypt_stream a key rng src d)
unfolding encrypt_stream
encrypt_stream-Returns a key none src d = (_, refl)
encrypt_stream-Returns a key (some n) src d = elim (Bool-cases (a.new_cipher key)) [
  | inr f ↦ rw f (_, refl)
  | inl t ↦ elim (Bool-cases (write d n).1) [
    | inr g ↦ rw (t, g) (_, refl)
    | inl u ↦
        rw (t, u)
          (encrypt_loop-Returns a key n chunk_size (omega arith) (rounds src) src 0 (write d n).0
            (omega arith))
  ]
]

-- DecryptStream returns for every cipher, key, source and sink: the fuel that it is given never
-- runs out.
pub decrypt_stream-Returns :
    (a : Aead) (key : Bytes) (src : Source) (d : Sink) → Returns (decrypt_stream a key src d)
unfolding decrypt_stream
decrypt_stream-Returns a key src d = elim (Bool-cases (a.new_cipher key)) [
  | inr f ↦ rw f (_, refl)
  | inl t ↦ rw t (rest (read_full nonce_size src))
]
  where
    rest : (r : Bytes × ReadError × Source) → Returns (after_nonce a key r d)
    rest (n, filled, s) =
        unfold after_nonce in
        decrypt_loop-Returns a key n chunk_size (omega arith) (rounds s) s 0 d (omega arith)
    rest (n, eof, s) = unfold after_nonce in (_, refl)
    rest (n, unexpected_eof, s) = unfold after_nonce in (_, refl)
    rest (n, failed, s) = unfold after_nonce in (_, refl)
