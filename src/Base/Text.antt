-- ===== src/Base/Text.antt =====
-- Go strings as lists of bytes, with the functions of `strings`, `path/filepath` and `strconv`
-- that the program calls. `to_lower` and `trim_space` treat the bytes below 128 as Go does; a byte
-- from 128 on, which is part of a longer code point, is left as it is.
use Prim.Native.Nat.{ℕ, ◌+◌}
use Prim.Native.Char.{code}
use Prim.Native.String.{String}
use mathlib.Core.Path.{◌≡◌, refl}
use mathlib.Core.Logic.{◌↔◌}
use mathlib.Core.Bool.{Bool, true, false, ◌&&◌, ◌||◌}
use mathlib.Core.List.{List, [], ◌∷◌, ◌++◌, map, reverse}
use native.Mathlib.Omega.{arith}
use ilove_convertion.Base.Tests.{leb, ◌==◌, if◌then◌else◌}

abbrev pub Str : Type 0
Str = List ℕ

abbrev pub codes : String → Str
codes String.[] = []
codes (String.◌∷◌ c s) = code c ∷ codes s

-- `==` on strings.
unfoldable pub str_eq : Str → Str → Bool
str_eq [] [] = true
str_eq [] (_ ∷ _) = false
str_eq (_ ∷ _) [] = false
str_eq (x ∷ xs) (y ∷ ys) = x == y && str_eq xs ys

pub str_eq→≡ : (s t : Str) → str_eq s t ≡ true → s ≡ t
unfolding str_eq
str_eq→≡ [] [] h = refl
str_eq→≡ [] (_ ∷ _) h = cc
str_eq→≡ (_ ∷ _) [] h = cc
str_eq→≡ (x ∷ xs) (y ∷ ys) h = ground (arith, str_eq→≡ xs ys)

pub str_eq_refl : (s : Str) → str_eq s s ≡ true
unfolding str_eq
str_eq_refl [] = refl
str_eq_refl (x ∷ xs) = ground (arith, str_eq_refl xs)

pub str_eq_iff : (s t : Str) → (str_eq s t ≡ true) ↔ (s ≡ t)
str_eq_iff s t = (str_eq→≡ s t, λ e. λ i. bridge e i)
  where
    bridge : s ≡ t → str_eq s t ≡ true
    bridge e = rw (← e) (str_eq_refl s)

-- `s == ""`.
abbrev pub is_empty : Str → Bool
is_empty [] = true
is_empty (_ ∷ _) = false

unfoldable pub lower : ℕ → ℕ
lower c = if leb b'A' c && leb c b'Z' then c + 32 else c

-- strings.ToLower
unfoldable pub to_lower : Str → Str
unfolding lower
to_lower s = map lower s

-- strings.TrimPrefix(s, "."): at most one dot goes.
unfoldable pub trim_dot : Str → Str
trim_dot [] = []
trim_dot (c ∷ s) = if c == b'.' then s else c ∷ s

is_space : ℕ → Bool
is_space c = c == 32 || (leb 9 c && leb c 13)

trim_left : Str → Str
unfolding is_space
trim_left [] = []
trim_left (c ∷ s) = if is_space c then trim_left s else c ∷ s

-- strings.TrimSpace
unfoldable pub trim_space : Str → Str
unfolding trim_left
trim_space s = reverse (trim_left (reverse (trim_left s)))

-- strings.ReplaceAll(s, string(old), new) for one byte `old`.
unfoldable pub replace_all : ℕ → Str → Str → Str
replace_all old new [] = []
replace_all old new (c ∷ s) = (if c == old then new else c ∷ []) ++ replace_all old new s

-- filepath.Ext: the text from the last dot of the last path element on, or "".
unfoldable pub ext_loop : Str → Str → Str
ext_loop [] best = best
ext_loop (c ∷ s) best = ext_loop s (if c == b'.' then c ∷ s else if c == b'/' then [] else best)

unfoldable pub ext : Str → Str
unfolding ext_loop
ext s = ext_loop s []

ext_examples :
    (ext (codes "a.tar.gz") ≡ codes ".gz")
    × (ext (codes "a.b/c") ≡ [])
    × (ext (codes "noext") ≡ [])
    × (trim_space (codes "  a b ") ≡ codes "a b")
unfolding ext trim_space
ext_examples = (refl, refl, refl, refl)

-- How often a text is in a list.
abbrev pub count : Str → List Str → ℕ
count k [] = 0
count k (x ∷ xs) = (if str_eq k x then 1 else 0) + count k xs

pub count-append : (k : Str) (xs ys : List Str) → count k (xs ++ ys) ≡ count k xs + count k ys
count-append k [] ys = omega arith
count-append k (x ∷ xs) ys = omega (arith, count-append k xs ys)
