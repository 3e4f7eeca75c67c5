-- ===== src/Crypto/Opened.antt =====
-- What DecryptStream writes, related to the bytes of the file.
use ilove_convertion.Base.{
  ℕ, zero, suc, ◌+◌, ◌≡◌, refl, sym, ap, subst, ◌∙◌, ◌-◌, ◌⊎◌, Bool, true, false, [], ◌∷◌, ◌++◌,
  append_assoc, append-nil, length, length-append, length-drop, leb→le, take, drop,
  take-append-drop, leb, Option, none, some, Bool-cases, inl, inr, arith,
}
use ilove_convertion.Crypto.{
  Bytes, Aead, Source, Sink, CryptoError, tag_size, chunk_size, nonce_size, ReadError, filled, eof,
  chunk_nonce, next_idx, unexpected_eof, failed, read_full, read_end, after_chunk, open_chunk,
  decrypt_write, decrypt_loop, decrypt_stream, after_nonce, rounds, write,
}
use ilove_convertion.Crypto.Total.{Outcome}

-- The bytes of a file from a chunk on, and what comes out of them: nothing more, a chunk that opens
-- under its own number and what comes out of the rest, or a part of the last one, where the sink is
-- full.
pub data Opened (a : Aead) (key base_nonce : Bytes) : ℕ → Bytes → Bytes → Type 0 where
  nothing : (idx : ℕ) (bs : Bytes) → Opened a key base_nonce idx bs []
  chunk :
      (idx : ℕ) (sealed bs plain out : Bytes)
      → a.unseal key (chunk_nonce base_nonce idx) sealed ≡ some plain
      → Opened a key base_nonce (next_idx idx) bs out
      → Opened a key base_nonce idx (sealed ++ bs) (plain ++ out)
  part :
      (idx : ℕ) (sealed bs plain : Bytes) (n : ℕ)
      → a.unseal key (chunk_nonce base_nonce idx) sealed ≡ some plain
      → Opened a key base_nonce idx (sealed ++ bs) (take n plain)

read_full-content :
    (n : ℕ) (s : Source) → (read_full n s).0 ++ (read_full n s).2.content ≡ s.content
unfolding read_full
read_full-content n s = elim (Bool-cases (leb n (length s.content))) [
  | inl t ↦ rw t (take-append-drop n s.content)
  | inr f ↦ rw f (append-nil s.content)
]

-- A buffer that was filled has its size.
read_full-length : (n : ℕ) (s : Source) → (read_full n s).1 ≡ filled → length (read_full n s).0 ≡ n
unfolding read_full
read_full-length n s e = elim (Bool-cases (leb n (length s.content))) [
  | inl t ↦
      let all = ap length (take-append-drop n s.content) in
      let parts = length-append (take n s.content) (drop n s.content) in
      rw t (omega (arith, all, parts, length-drop n s.content, leb→le n (length s.content) t))
  | inr f ↦ absurd (short s.fails s.content (rw f at e))
]
  where
    short : (b : Bool) (bs : Bytes) → read_end b bs ≡ filled → ⊥
    short true bs e = unfold read_end in cc
    short false [] e = unfold read_end in cc
    short false (x ∷ bs) e = unfold read_end in cc

ended :
    (P : Sink → Type 0) (d : Sink) (x : Option CryptoError) (r : Outcome)
    → P d
    → ◌≡◌ {A = Option Outcome} (some (d, x)) (some r)
    → P r.0
ended P d x r now h = subst (λ o. P (sink_of d o)) h now
  where
    sink_of : Sink → Option Outcome → Sink
    sink_of d none = d
    sink_of d (some r) = r.0

module _ (a : Aead) (key base_nonce : Bytes) (size : ℕ) where
  -- The bytes that a run has written behind those of before.
  abbrev Adds : ℕ → Bytes → Sink → Sink → Type 0
  Adds idx bs d d' =
      (out : Bytes) × (d'.written ≡ d.written ++ out) × Opened a key base_nonce idx bs out

  adds_nothing : (idx : ℕ) (bs : Bytes) (d : Sink) → Adds idx bs d d
  adds_nothing idx bs d = ([], sym (append-nil d.written), nothing idx bs)

  -- A part of the body that met no error ends the loop or goes on.
  after_none :
      (P : Sink → Type 0) (i : ℕ) (d : Sink) (e : ReadError) (again : ℕ → Sink → Option Outcome)
      (r : Outcome)
      → P d
      → (again i d ≡ some r → P r.0)
      → after_chunk a key base_nonce size (d, i, none) e again ≡ some r
      → P r.0
  after_none P i d filled again r now next h = next h
  after_none P i d eof again r now next h = ended P d none r now h
  after_none P i d unexpected_eof again r now next h = ended P d none r now h
  after_none P i d failed again r now next h = ended P d _ r now h

  after_open :
      (idx : ℕ) (sealed bs : Bytes) (d : Sink) (e : ReadError) (again : ℕ → Sink → Option Outcome)
      (r : Outcome)
      → ((i : ℕ) (d' : Sink) → again i d' ≡ some r → Adds i bs d' r.0)
      → after_chunk a key base_nonce size (open_chunk a key base_nonce size sealed idx d) e again
        ≡ some r
      → Adds idx (sealed ++ bs) d r.0
  unfolding open_chunk decrypt_write
  after_open idx [] bs d e again r h =
      after_none (Adds idx bs d) idx d e again r (adds_nothing idx bs d) (h idx d)
  after_open idx (b ∷ sealed) bs d e again r h =
      by (a.unseal key (chunk_nonce base_nonce idx) (b ∷ sealed)) refl
    where
      written_next :
          (plain : Bytes) (d' : Sink)
          → d'.written ≡ d.written ++ plain
          → a.unseal key (chunk_nonce base_nonce idx) (b ∷ sealed) ≡ some plain
          → (u : Sink) → Adds (next_idx idx) bs d' u
          → Adds idx ((b ∷ sealed) ++ bs) d u
      written_next plain d' w opens u (out, more, o) = (
        plain ++ out,
        more ∙ (ap (λ x. x ++ out) w ∙ append_assoc d.written plain out),
        chunk idx (b ∷ sealed) bs plain out opens o,
      )

      by :
          (o : Option Bytes)
          → a.unseal key (chunk_nonce base_nonce idx) (b ∷ sealed) ≡ o
          → after_chunk a key base_nonce size (decrypt_write a key base_nonce size o idx d) e again
            ≡ some r
          → Adds idx ((b ∷ sealed) ++ bs) d r.0
      by none opens = λ k.
          ended (Adds idx ((b ∷ sealed) ++ bs) d) d _ r (adds_nothing idx ((b ∷ sealed) ++ bs) d) k
      by (some plain) opens =
          unfold decrypt_write write in
          elim (Bool-cases (leb (length plain) d.room)) [
            | inl t ↦ rw t (
                let d' : Sink = record d {
                  written = d.written ++ plain;
                  room = d.room - length plain;
                } in
                let to = written_next plain d' refl opens in
                after_none (Adds idx ((b ∷ sealed) ++ bs) d) (next_idx idx) d' e again r
                  (to d' (adds_nothing (next_idx idx) bs d')) (λ k. to r.0 (h (next_idx idx) d' k)))
            | inr f ↦ rw f (λ k.
                ended (Adds idx ((b ∷ sealed) ++ bs) d) _ _ r
                  (take d.room plain, refl, part idx (b ∷ sealed) bs plain d.room opens) k)
          ]

  decrypt_loop-Opened :
      (fuel : ℕ) (src : Source) (idx : ℕ) (d : Sink) (r : Outcome)
      → decrypt_loop a key base_nonce size fuel src idx d ≡ some r
      → Adds idx src.content d r.0
  unfolding decrypt_loop
  decrypt_loop-Opened zero src idx d r h = absurd (cc)
  decrypt_loop-Opened (suc fuel) src idx d r h =
      let read = read_full (size + tag_size) src in
      subst (λ c. Adds idx c d r.0) (read_full-content (size + tag_size) src)
        (after_open idx read.0 read.2.content d read.1
          (λ i d'. decrypt_loop a key base_nonce size fuel read.2 i d') r
          (λ i d' k. decrypt_loop-Opened fuel read.2 i d' r k) h)

-- However a file was changed, cut or put together, DecryptStream writes nothing that the cipher did
-- not open: if it writes anything, the file has a nonce of 12 bytes, and what was written are the
-- plaintexts of the chunks behind it, each opened with the key under the nonce of its own number,
-- from the first on and in the order of the file, where only the last may be cut by a full sink.
pub decrypt_stream-Opened :
    (a : Aead) (key : Bytes) (src : Source) (d : Sink) (r : Outcome)
    → decrypt_stream a key src d ≡ some r
    → (r.0.written ≡ d.written)
      ⊎ ((nonce : Bytes) × (bs : Bytes) × (out : Bytes) × (src.content ≡ nonce ++ bs)
          × (length nonce ≡ nonce_size)
          × (r.0.written ≡ d.written ++ out)
          × Opened a key nonce 0 bs out)
unfolding decrypt_stream
decrypt_stream-Opened a key src d r h = elim (Bool-cases (a.new_cipher key)) [
  | inr f ↦ inl (ended (λ u. u.written ≡ d.written) d _ r refl (rw f at h))
  | inl t ↦ after (read_full nonce_size src) refl (rw t at h)
]
  where
    after :
        (q : Bytes × ReadError × Source)
        → read_full nonce_size src ≡ q
        → after_nonce a key q d ≡ some r
        → (r.0.written ≡ d.written)
          ⊎ ((nonce : Bytes) × (bs : Bytes) × (out : Bytes) × (src.content ≡ nonce ++ bs)
              × (length nonce ≡ nonce_size)
              × (r.0.written ≡ d.written ++ out)
              × Opened a key nonce 0 bs out)
    after (nonce, filled, rest) read h =
        let (out, more, o) =
          decrypt_loop-Opened a key nonce chunk_size (rounds rest) rest 0 d r
            (unfold after_nonce in h) in
        inr (
          nonce,
          rest.content,
          out,
          sym (read_full-content nonce_size src) ∙ ap (λ q. q.0 ++ q.2.content) read,
          sym (ap (λ q. length q.0) read) ∙ read_full-length nonce_size src (ap (λ q. q.1) read),
          more,
          o,
        )
    after (nonce, eof, rest) read h =
        inl (ended (λ u. u.written ≡ d.written) d _ r refl (unfold after_nonce in h))
    after (nonce, unexpected_eof, rest) read h =
        inl (ended (λ u. u.written ≡ d.written) d _ r refl (unfold after_nonce in h))
    after (nonce, failed, rest) read h =
        inl (ended (λ u. u.written ≡ d.written) d _ r refl (unfold after_nonce in h))
