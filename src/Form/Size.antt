-- ===== src/Form/Size.antt =====
-- formatBytes.
use ilove_convertion.Base.{
  ℕ, suc, ◌+◌, ◌*◌, ◌/◌, ◌%◌, ◌^◌, ◌≤◌, ◌<◌, ◌≡◌, refl, ◌⊎◌, inl, inr, true, false, Option, some,
  ltb, leb, Bool-cases, arith,
}
use ilove_convertion.Form.{bytes, scaled, size_loop, format_bytes}

size_loop_more :
    (fuel n div exp : ℕ)
    → leb 1024 n ≡ true
    → size_loop (suc fuel) n div exp ≡ size_loop fuel (n / 1024) (div * 1024 % 2 ^ 64) (exp + 1)
unfolding size_loop
size_loop_more fuel n div exp h = rw h

size_loop_done :
    (fuel n div exp : ℕ) → leb 1024 n ≡ false → size_loop (suc fuel) n div exp ≡ some (div, exp)
unfolding size_loop
size_loop_done fuel n div exp h = rw h

-- The unit that is shown for `b`: a power of 1024 at most `b` and less than 1024 times below it.
abbrev pub IsUnit : ℕ → ℕ → ℕ → Type 0
IsUnit b div exp = (exp ≤ 5) × (div ≡ 1024 ^ (exp + 1)) × (div ≤ b) × (b < div * 1024)

abbrev Fits : ℕ → Option (ℕ × ℕ) → Type 0
Fits b o = (div : ℕ) × (exp : ℕ) × (o ≡ some (div, exp)) × IsUnit b div exp

-- One round of the loop, where the unit `div` was not large enough or is the one that fits.
unit_step :
    (b fuel n div next exp : ℕ)
    → div * 1024 % 2 ^ 64 ≡ next
    → (leb 1024 n ≡ false → IsUnit b div exp)
    → (leb 1024 n ≡ true → Fits b (size_loop fuel (n / 1024) next (exp + 1)))
    → Fits b (size_loop (suc fuel) n div exp)
unit_step b fuel n div next exp e stop go = elim (Bool-cases (leb 1024 n)) [
  | inr f ↦ (div, exp, size_loop_done fuel n div exp f, stop f)
  | inl t ↦ rw (size_loop_more fuel n div exp t, e) (go t)
]

-- Below 2 ^ 63 the sixth unit fits: there is no seventh round.
unit_found :
    (b fuel : ℕ)
    → b < 2 ^ 63
    → 1024 ≤ b
    → Fits b (size_loop (suc (suc (suc (suc (suc (suc fuel)))))) (b / 1024) 1024 0)
unit_found b fuel h low =
    unit_step b _ _ 1024 (1024 ^ 2) 0 refl (λ f. ground arith)
      λ t0.
        unit_step b _ _ (1024 ^ 2) (1024 ^ 3) 1 refl (λ f. ground arith)
          λ t1.
            unit_step b _ _ (1024 ^ 3) (1024 ^ 4) 2 refl (λ f. ground arith)
              λ t2.
                unit_step b _ _ (1024 ^ 4) (1024 ^ 5) 3 refl (λ f. ground arith)
                  λ t3.
                    unit_step b _ _ (1024 ^ 5) (1024 ^ 6) 4 refl (λ f. ground arith)
                      λ t4.
                        unit_step b _ _ (1024 ^ 6) (1024 ^ 7 % 2 ^ 64) 5 refl (λ f. ground arith)
                          λ t5. absurd (ground arith)

-- A size below 2 ^ 63 and of at least 1024 bytes is shown in a unit that is there: the place in
-- "KMGTPE" is at most 5, the divisor is that power of 1024 with no overflow, and the size is at
-- least one and less than 1024 of the unit. A smaller size is shown in bytes.
pub format_bytes-IsUnit :
    (b : ℕ)
    → b < 2 ^ 63
    → ((b < 1024) × (format_bytes b ≡ bytes b))
      ⊎ ((div : ℕ) × (exp : ℕ) × (format_bytes b ≡ scaled div exp) × IsUnit b div exp)
unfolding format_bytes
format_bytes-IsUnit b h = elim (Bool-cases (ltb b 1024)) [
  | inl t ↦ inl (ground arith, rw t)
  | inr f ↦
      let (div, exp, e, unit) = unit_found b 58 h (ground arith) in inr (div, exp, rw (f, e), unit)
]
