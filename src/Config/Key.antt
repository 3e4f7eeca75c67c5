-- ===== src/Config/Key.antt =====
-- Which texts Load takes for a master key, and what DeriveKey does with the key.
use ilove_convertion.Base.{
  ℕ, ◌+◌, ◌*◌, ◌≡◌, ◌<◌, refl, Option, none, some, [], ◌∷◌, Str, length, All, arith,
}
use ilove_convertion.Crypto.{Bytes, derive_key, hkdf_info}
use ilove_convertion.Config.{hex_digit, two_digits, hex_decode, loaded, check_length, load_key}

hex_digit-lt : (c v : ℕ) → hex_digit c ≡ some v → v < 16
unfolding hex_digit
hex_digit-lt c v h = ground arith

IsSome-byte :
    (h l : Option ℕ) (r : Option Bytes) (k : Bytes)
    → two_digits h l r ≡ some k
    → (x : ℕ) × (y : ℕ) × (bs : Bytes) × (h ≡ some x)
      × (l ≡ some y)
      × (r ≡ some bs)
      × (k ≡ (x * 16 + y) ∷ bs)
IsSome-byte none l r k e = absurd (cc)
IsSome-byte (some x) none r k e = absurd (cc)
IsSome-byte (some x) (some y) none k e = absurd (cc)
IsSome-byte (some x) (some y) (some bs) k e = (x, y, bs, refl, refl, refl, cc)

-- A decoded text has two digits for each byte, and its bytes are below 256.
hex_decode_ok :
    (s : Str) (k : Bytes) → hex_decode s ≡ some k → (length s ≡ 2 * length k) × All (λ b. b < 256) k
unfolding hex_decode
hex_decode_ok [] k e = rw (← some_inj e) (refl, tt)
  where
    some_inj : {a b : Bytes} → some a ≡ some b → a ≡ b
    some_inj e = cc
hex_decode_ok (c ∷ []) k e = absurd (cc)
hex_decode_ok (c ∷ d ∷ s) k e =
    let (x, y, bs, ex, ey, eb, ek) = IsSome-byte (hex_digit c) (hex_digit d) (hex_decode s) k e in
    let ih = hex_decode_ok s bs eb in
    let hx = hex_digit-lt c x ex in
    let hy = hex_digit-lt d y ey in rw ek (omega arith, (omega arith, ih.1))

-- A master key that Load accepts comes from a text of 64 characters, has 32 bytes, each below 256,
-- and with it DeriveKey never fails: for every job id it gives the bytes of HKDF.
pub load_key-derives :
    (text : Str) (key : Bytes) (hkdf : Bytes → Bytes → Bytes → Bytes) (job_id : Str)
    → load_key text ≡ loaded key
    → (length text ≡ 64)
      × (length key ≡ 32)
      × All (λ b. b < 256) key
      × (derive_key hkdf key job_id ≡ some (hkdf key job_id hkdf_info))
unfolding load_key derive_key
load_key-derives [] key hkdf job_id h = absurd (cc)
load_key-derives (c ∷ s) key hkdf job_id h = by (hex_decode (c ∷ s)) refl h
  where
    long : (k : Bytes) → check_length (some k) ≡ loaded key → (length k ≡ 32) × (k ≡ key)
    long k h = unfold check_length in ground arith

    by :
        (o : Option Bytes)
        → hex_decode (c ∷ s) ≡ o
        → check_length o ≡ loaded key
        → (length (c ∷ s) ≡ 64)
          × (length key ≡ 32)
          × All (λ b. b < 256) key
          × (derive_key hkdf key job_id ≡ some (hkdf key job_id hkdf_info))
    by none e h = absurd (unfold check_length in cc)
    by (some k) e h =
        let (l, same) = long k h in
        let size : length key ≡ 32 = rw same at l in
        let d = hex_decode_ok (c ∷ s) key (rw same at e) in (omega arith, size, d.1, rw size)
