-- ===== src/Crypto/Nonce.antt =====
-- chunkNonce: different chunk numbers give different nonces under one base nonce.
use Prim.Native.Nat.{bit_xor}
use ilove_convertion.Base.{
  ℕ, zero, suc, ◌/◌, ◌^◌, ◌<◌, ◌≡◌, ◌≢◌, refl, sym, ap, ◌∙◌, Bool, true, ◌&&◌, ◌==◌, ==_iff, length,
  get_or, arith, All, All-get_or, length-set, get_or-set_self, get_or-set_ne,
}
use ilove_convertion.Crypto.{Bytes, nonce_size, xor_at, byte, chunk_nonce}

test_under : ℕ → (ℕ → Bool) → Bool
test_under zero p = true
test_under (suc n) p = p n && test_under n p

each_under : (n : ℕ) (p : ℕ → Bool) (x : ℕ) → test_under n p ≡ true → x < n → p x ≡ true
unfolding test_under
each_under zero p x h lt = absurd (omega arith)
each_under (suc n) p x h lt = ground (arith, each_under n p x)

xor_row : ℕ → Bool
unfolding test_under
xor_row b = test_under 256 (λ x. bit_xor b (bit_xor b x) == x)

xor_table : test_under 256 xor_row ≡ true
unfolding xor_row
xor_table = refl

-- xor with a fixed byte is undone by itself.
xor_twice : (b x : ℕ) → b < 256 → x < 256 → bit_xor b (bit_xor b x) ≡ x
xor_twice b x hb hx = (==_iff _ x).0 (each_under 256 _ x (row b hb) hx)
  where
    row : (b : ℕ) → b < 256 → test_under 256 (λ y. bit_xor b (bit_xor b y) == y) ≡ true
    row b hb = unfold xor_row in each_under 256 xor_row b xor_table hb

xor_cancel : (b x y : ℕ) → b < 256 → x < 256 → y < 256 → bit_xor b x ≡ bit_xor b y → x ≡ y
xor_cancel b x y hb hx hy e = sym (xor_twice b x hb hx) ∙ ap (bit_xor b) e ∙ xor_twice b y hb hy

length-xor_at : (i v : ℕ) (n : Bytes) → length (xor_at i v n) ≡ length n
unfolding xor_at
length-xor_at i v n = length-set n i (bit_xor (get_or n i 0) v)

xor_at_self :
    (i v : ℕ) (n : Bytes) → i < length n → get_or (xor_at i v n) i 0 ≡ bit_xor (get_or n i 0) v
unfolding xor_at
xor_at_self i v n h = get_or-set_self n i (bit_xor (get_or n i 0) v) 0 h

xor_at_ne : (i j v : ℕ) (n : Bytes) → i ≢ j → get_or (xor_at i v n) j 0 ≡ get_or n j 0
unfolding xor_at
xor_at_ne i j v n h = get_or-set_ne n i j (bit_xor (get_or n i 0) v) 0 h

-- The nonce before the write of byte 9, 10 and 11.
abbrev before_9 : Bytes → ℕ → Bytes
before_9 b idx = xor_at 8 (byte (idx / 2 ^ 24)) b

abbrev before_10 : Bytes → ℕ → Bytes
before_10 b idx = xor_at 9 (byte (idx / 2 ^ 16)) (before_9 b idx)

abbrev before_11 : Bytes → ℕ → Bytes
before_11 b idx = xor_at 10 (byte (idx / 2 ^ 8)) (before_10 b idx)

module _ (b : Bytes) (idx : ℕ) (long : length b ≡ nonce_size) where
  long_10 : length (before_10 b idx) ≡ 12
  long_10 = rw (length-xor_at, length-xor_at) long

  long_11 : length (before_11 b idx) ≡ 12
  long_11 = rw length-xor_at long_10

  nonce_at_8 : get_or (chunk_nonce b idx) 8 0 ≡ bit_xor (get_or b 8 0) (byte (idx / 2 ^ 24))
  unfolding chunk_nonce
  nonce_at_8 =
      rw
        (
          xor_at_ne 11 8 _ _ (omega arith),
          xor_at_ne 10 8 _ _ (omega arith),
          xor_at_ne 9 8 _ _ (omega arith),
        )
        (xor_at_self 8 _ b (omega arith))

  nonce_at_9 : get_or (chunk_nonce b idx) 9 0 ≡ bit_xor (get_or b 9 0) (byte (idx / 2 ^ 16))
  unfolding chunk_nonce
  nonce_at_9 = rw (
    xor_at_ne 11 9 _ _ (omega arith),
    xor_at_ne 10 9 _ _ (omega arith),
    xor_at_self 9 _ (before_9 b idx) (omega (arith, length-xor_at 8 (byte (idx / 2 ^ 24)) b)),
    xor_at_ne 8 9 _ _ (omega arith),
  )

  nonce_at_10 : get_or (chunk_nonce b idx) 10 0 ≡ bit_xor (get_or b 10 0) (byte (idx / 2 ^ 8))
  unfolding chunk_nonce
  nonce_at_10 = rw (
    xor_at_ne 11 10 _ _ (omega arith),
    xor_at_self 10 _ (before_10 b idx) (omega (arith, long_10)),
    xor_at_ne 9 10 _ _ (omega arith),
    xor_at_ne 8 10 _ _ (omega arith),
  )

  nonce_at_11 : get_or (chunk_nonce b idx) 11 0 ≡ bit_xor (get_or b 11 0) (byte idx)
  unfolding chunk_nonce
  nonce_at_11 = rw (
    xor_at_self 11 _ (before_11 b idx) (omega (arith, long_11)),
    xor_at_ne 10 11 _ _ (omega arith),
    xor_at_ne 9 11 _ _ (omega arith),
    xor_at_ne 8 11 _ _ (omega arith),
  )

chunk_nonce_inj :
    (b : Bytes) (i j : ℕ)
    → length b ≡ nonce_size
    → All (λ x. x < 256) b
    → i < 2 ^ 32
    → j < 2 ^ 32
    → chunk_nonce b i ≡ chunk_nonce b j
    → i ≡ j
chunk_nonce_inj b i j long bytes hi hj e = omega (
  arith,
  same 8 (i / 2 ^ 24) (j / 2 ^ 24) (omega arith) (nonce_at_8 b i long) (nonce_at_8 b j long),
  same 9 (i / 2 ^ 16) (j / 2 ^ 16) (omega arith) (nonce_at_9 b i long) (nonce_at_9 b j long),
  same 10 (i / 2 ^ 8) (j / 2 ^ 8) (omega arith) (nonce_at_10 b i long) (nonce_at_10 b j long),
  same 11 i j (omega arith) (nonce_at_11 b i long) (nonce_at_11 b j long),
)
  where
    same :
        (k x y : ℕ)
        → k < length b
        → get_or (chunk_nonce b i) k 0 ≡ bit_xor (get_or b k 0) (byte x)
        → get_or (chunk_nonce b j) k 0 ≡ bit_xor (get_or b k 0) (byte y)
        → byte x ≡ byte y
    same k x y hk p q =
        xor_cancel (get_or b k 0) (byte x) (byte y) (All-get_or (λ z. z < 256) b k 0 bytes hk)
          (omega arith) (omega arith) (sym p ∙ ap (λ n. get_or n k 0) e ∙ q)

-- Under one base nonce of 12 bytes, each below 256, two different chunk numbers below 2 ^ 32 give
-- two different nonces.
pub chunk_nonce_distinct :
    (b : Bytes) (i j : ℕ)
    → length b ≡ nonce_size
    → All (λ x. x < 256) b
    → i < 2 ^ 32
    → j < 2 ^ 32
    → i ≢ j
    → chunk_nonce b i ≢ chunk_nonce b j
chunk_nonce_distinct b i j long bytes hi hj ne e = ne (chunk_nonce_inj b i j long bytes hi hj e)
