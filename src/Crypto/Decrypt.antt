-- ===== src/Crypto/Decrypt.antt =====
-- DecryptStream on the ciphertexts of chunks.
use ilove_convertion.Base.{
  ℕ, zero, suc, ◌+◌, ◌≤◌, ◌<◌, ◌≡◌, sym, ap, ◌∙◌, List, [], ◌∷◌, ◌++◌, append-nil, length,
  length-append, arith, none, some, inl, inr,
}
use ilove_convertion.Crypto.{
  Bytes, Aead, IsAead, Sink, chunk_nonce, next_idx, tag_size, open_chunk, decrypt_loop,
}
use ilove_convertion.Crypto.Cut.{IsCut, IsCut-cases, concat, seal_all}
use ilove_convertion.Crypto.Io.{
  advance, source, write_fits, advance_nil, advance-append, read_exact, read_short, read_nothing,
}

module _ (a : Aead) (key base_nonce : Bytes) (size : ℕ) (law : IsAead a) where
  open_chunk-seal :
      (c : Bytes) (idx : ℕ) (d : Sink)
      → length c ≤ d.room
      → open_chunk a key base_nonce size (a.seal key (chunk_nonce base_nonce idx) c) idx d
        ≡ (advance d c, next_idx idx, none)
  unfolding open_chunk
  open_chunk-seal c idx d h =
      go (a.seal key (chunk_nonce base_nonce idx) c) (law.length-seal key _ c)
        (law.unseal-seal key _ c)
    where
      go :
          (s : Bytes)
          → length s ≡ length c + tag_size
          → a.unseal key (chunk_nonce base_nonce idx) s ≡ some c
          → open_chunk a key base_nonce size s idx d ≡ (advance d c, next_idx idx, none)
      go [] l e = absurd (omega arith)
      go (b ∷ s) l e = rw (e, write_fits d c h)

  pub decrypt_loop_nil :
      (fuel idx : ℕ) (d : Sink)
      → decrypt_loop a key base_nonce size (suc fuel) (source []) idx d ≡ some (d, none)
  unfolding decrypt_loop open_chunk
  decrypt_loop_nil fuel idx d = rw (read_nothing (size + tag_size) (omega arith))

  pub decrypt_loop_full :
      (fuel idx : ℕ) (c rest : Bytes) (d : Sink)
      → length c ≡ size
      → length c ≤ d.room
      → decrypt_loop a key base_nonce size
          (suc fuel)
          (source (a.seal key (chunk_nonce base_nonce idx) c ++ rest))
          idx
          d
        ≡ decrypt_loop a key base_nonce size fuel (source rest) (next_idx idx) (advance d c)
  unfolding decrypt_loop
  decrypt_loop_full fuel idx c rest d l h = rw (
    read_exact (size + tag_size) (a.seal key (chunk_nonce base_nonce idx) c) rest
        (omega (arith, law.length-seal key (chunk_nonce base_nonce idx) c)),
    open_chunk-seal c idx d h,
  )

  pub decrypt_loop_last :
      (fuel idx : ℕ) (c : Bytes) (d : Sink)
      → length c < size
      → length c ≤ d.room
      → decrypt_loop a key base_nonce size
          (suc fuel)
          (source (a.seal key (chunk_nonce base_nonce idx) c))
          idx
          d
        ≡ some (advance d c, none)
  unfolding decrypt_loop
  decrypt_loop_last fuel idx c d l h =
      let e = law.length-seal key (chunk_nonce base_nonce idx) c in
      rw (
        read_short (size + tag_size) (a.seal key (chunk_nonce base_nonce idx) c) (omega arith)
            (omega arith),
        open_chunk-seal c idx d h,
      )

  pub decrypt_loop-seal_all :
      (cs : List Bytes) (fuel idx : ℕ) (d : Sink)
      → IsCut size cs
      → length cs < fuel
      → length (concat cs) ≤ d.room
      → decrypt_loop a key base_nonce size fuel (source (seal_all a key base_nonce idx cs)) idx d
        ≡ some (advance d (concat cs), none)
  decrypt_loop-seal_all cs zero idx d h lt room = elim lt [ ]
  decrypt_loop-seal_all [] (suc fuel) idx d h lt room =
      decrypt_loop_nil fuel idx d ∙ ap (λ s. some (s, none)) (sym (advance_nil d))
  decrypt_loop-seal_all (c ∷ cs) (suc fuel) idx d h lt room =
      let fits = length-append {0} c (concat cs) in
      elim (IsCut-cases size c cs h) [
        | inl (full, more) ↦
            decrypt_loop_full fuel idx c (seal_all a key base_nonce (next_idx idx) cs) d full
              (omega arith)
            ∙ decrypt_loop-seal_all cs fuel (next_idx idx) (advance d c) more (omega arith)
                (omega arith)
            ∙ ap (λ s. some (s, none)) (advance-append d c (concat cs))
        | inr (last, some_bytes, short) ↦
            simp (last, append-nil) (decrypt_loop_last fuel idx c d short (omega arith))
      ]
