-- ===== src/Crypto/Encrypt.antt =====
-- EncryptStream on a source that does not fail.
use ilove_convertion.Base.{
  ℕ, zero, suc, ◌≤◌, ◌<◌, ◌≡◌, sym, ap, ◌∙◌, true, [], ◌∷◌, ◌++◌, append-nil, length, length-append,
  take, drop, length-take, length-drop, leb, tests, arith, none, some, Bool-cases, inl, inr, leb→le,
}
use ilove_convertion.Crypto.{
  Bytes, Aead, Sink, chunk_nonce, next_idx, encrypt_chunk, encrypt_loop, read_full,
}
use ilove_convertion.Crypto.Cut.{cut, cut_full, cut_last, seal_all, last_chunk}
use ilove_convertion.Crypto.Io.{
  advance, source, write_fits, advance_nil, advance-append, read_short, read_nothing,
}

module _ (a : Aead) (key base_nonce : Bytes) (size : ℕ) (pos : 0 < size) where
  abbrev sealed : ℕ → Bytes → Bytes
  sealed idx c = a.seal key (chunk_nonce base_nonce idx) c

  encrypt_chunk_lem :
      (c : Bytes) (idx : ℕ) (d : Sink)
      → 0 < length c
      → length (sealed idx c) ≤ d.room
      → encrypt_chunk a key base_nonce size c idx d ≡ (advance d (sealed idx c), next_idx idx, none)
  unfolding encrypt_chunk
  encrypt_chunk_lem [] idx d p h = absurd (omega arith)
  encrypt_chunk_lem (b ∷ c) idx d p h = rw (write_fits d (sealed idx (b ∷ c)) h)

  encrypt_loop_full :
      (fuel idx : ℕ) (bs : Bytes) (d : Sink)
      → leb size (length bs) ≡ true
      → length (sealed idx (take size bs)) ≤ d.room
      → encrypt_loop a key base_nonce size (suc fuel) (source bs) idx d
        ≡ encrypt_loop a key base_nonce size fuel
            (source (drop size bs))
            (next_idx idx)
            (advance d (sealed idx (take size bs)))
  unfolding encrypt_loop read_full
  encrypt_loop_full fuel idx bs d e h =
      rw (e, encrypt_chunk_lem (take size bs) idx d (rw length-take (ground arith)) h)

  encrypt_loop_last :
      (fuel idx : ℕ) (bs : Bytes) (d : Sink)
      → length bs < size
      → length (seal_all a key base_nonce idx (last_chunk bs)) ≤ d.room
      → encrypt_loop a key base_nonce size (suc fuel) (source bs) idx d
        ≡ some (advance d (seal_all a key base_nonce idx (last_chunk bs)), none)
  unfolding encrypt_loop
  encrypt_loop_last fuel idx [] d e h =
      rw (read_nothing size pos)
        (unfold encrypt_chunk in ap (λ s. some (s, none)) (sym (advance_nil d)))
  encrypt_loop_last fuel idx (b ∷ bs) d e h = rw (
    read_short size (b ∷ bs) (omega arith) e,
    encrypt_chunk_lem (b ∷ bs) idx d (omega arith)
        (omega (arith, length-append {0} (sealed idx (b ∷ bs)) [])),
    append-nil,
  )

  pub encrypt_loop_lem :
      (fuel idx : ℕ) (bs : Bytes) (d : Sink)
      → length bs < fuel
      → length (seal_all a key base_nonce idx (cut fuel size bs)) ≤ d.room
      → encrypt_loop a key base_nonce size fuel (source bs) idx d
        ≡ some (advance d (seal_all a key base_nonce idx (cut fuel size bs)), none)
  encrypt_loop_lem zero idx bs d lt h = elim lt [ ]
  encrypt_loop_lem (suc fuel) idx bs d lt h = elim (Bool-cases (leb size (length bs))) [
    | inl e ↦
        let head = sealed idx (take size bs) in
        let rest = seal_all a key base_nonce (next_idx idx) (cut fuel size (drop size bs)) in
        let fits : length (head ++ rest) ≤ d.room = rw (cut_full fuel size bs e) at h in
        let parts = length-append {0} head rest in
        rw (cut_full fuel size bs e) (
          encrypt_loop_full fuel idx bs d e (omega arith)
          ∙ encrypt_loop_lem fuel (next_idx idx) (drop size bs) (advance d head)
              (rw length-drop (omega (tests, leb→le _ _ e))) (omega arith)
          ∙ ap (λ s. some (s, none)) (advance-append d head rest))
    | inr e ↦
        rw (cut_last fuel size bs e)
          (encrypt_loop_last fuel idx bs d (ground arith) (rw (cut_last fuel size bs e) at h))
  ]
