-- ===== src/Base/Path.antt =====
-- Slash-separated paths: filepath.Clean and filepath.Join of path/filepath.
pub mod Clean
use Prim.Native.Nat.{ℕ, ◌+◌}
use mathlib.Core.Path.{◌≡◌, refl, ap}
use mathlib.Core.Logic.{◌≢◌}
use mathlib.Core.Bool.{Bool, true, false, not, ◌&&◌, ◌||◌}
use mathlib.Core.List.{List, [], ◌∷◌, ◌++◌, reverse}
use native.Mathlib.Omega.{arith}
use ilove_convertion.Base.Tests.{◌==◌, if◌then◌else◌}
use ilove_convertion.Base.Lists.{All}
use ilove_convertion.Base.Text.{Str, codes, str_eq, is_empty}

onto : ℕ → List Str → List Str
onto c [] = (c ∷ []) ∷ []
onto c (x ∷ xs) = (c ∷ x) ∷ xs

-- The elements of a path, empty ones too.
split_slash : Str → List Str
unfolding onto
split_slash [] = [] ∷ []
split_slash (c ∷ s) = let rest = split_slash s in if c == b'/' then [] ∷ rest else onto c rest

unfoldable pub join_slash : List Str → Str
join_slash [] = []
join_slash (x ∷ []) = x
join_slash (x ∷ y ∷ xs) = x ++ b'/' ∷ join_slash (y ∷ xs)

-- "..": the last element goes, if it is not ".." itself; a rooted path ends at its root.
up : Bool → List Str → List Str
unfolding str_eq
up rooted [] = if rooted then [] else codes ".." ∷ []
up rooted (x ∷ []) = if str_eq x (codes "..") then x ∷ codes ".." ∷ [] else []
up rooted (x ∷ y ∷ xs) = x ∷ up rooted (y ∷ xs)

step : Bool → List Str → Str → List Str
unfolding up
step rooted done e =
    if is_empty e || str_eq e (codes ".")
    then done
    else if str_eq e (codes "..")
    then up rooted done
    else done ++ e ∷ []

steps : Bool → List Str → List Str → List Str
unfolding step
steps rooted done [] = done
steps rooted done (e ∷ es) = steps rooted (step rooted done e) es

relative : List Str → Str
relative [] = codes "."
relative (x ∷ xs) = join_slash (x ∷ xs)

-- The path of some elements from the root.
abbrev pub absolute : List Str → Str
unfolding join_slash
absolute ps = b'/' ∷ join_slash ps

unfoldable pub clean : Str → Str
unfolding absolute relative steps split_slash
clean [] = codes "."
clean (c ∷ s) =
    if c == b'/'
    then absolute (steps true [] (split_slash (c ∷ s)))
    else relative (steps false [] (split_slash (c ∷ s)))

-- filepath.Join of two paths.
unfoldable pub join_path : Str → Str → Str
join_path [] [] = []
join_path [] (c ∷ t) = clean (c ∷ t)
join_path (c ∷ s) t = clean ((c ∷ s) ++ b'/' ∷ t)

trim_slashes : Str → Str
trim_slashes [] = []
trim_slashes (c ∷ s) = if c == b'/' then trim_slashes s else c ∷ s

-- The text behind the last slash.
last_element : Str → Str → Str
last_element [] best = best
last_element (c ∷ s) best = last_element s (if c == b'/' then s else best)

or_root : Str → Str
or_root [] = codes "/"
or_root (c ∷ s) = c ∷ s

-- filepath.Base
unfoldable pub base : Str → Str
unfolding trim_slashes last_element or_root
base [] = codes "."
base (c ∷ s) =
    let trimmed = reverse (trim_slashes (reverse (c ∷ s))) in or_root (last_element trimmed trimmed)

base_examples :
    (base (codes "/tmp/j1/input.png") ≡ codes "input.png")
    × (base (codes "a/b//") ≡ codes "b")
    × (base (codes "//") ≡ codes "/")
    × (base (codes "x") ≡ codes "x")
unfolding base trim_slashes last_element or_root
base_examples = (refl, refl, refl, refl)

path_examples :
    (join_path (codes "/tmp/work") (codes "j1") ≡ codes "/tmp/work/j1")
    × (join_path (codes "/tmp/work/") (codes "../x") ≡ codes "/tmp/x")
    × (join_path (codes "a") (codes "../../b") ≡ codes "../b")
    × (join_path (codes "a//./b") [] ≡ codes "a/b")
    × (clean (codes "/../..") ≡ codes "/")
unfolding join_path clean absolute relative steps step up split_slash onto join_slash str_eq
path_examples = (refl, refl, refl, refl, refl)

abbrev pub NoSlash : Str → Type 0
NoSlash = All (λ c. c ≢ b'/')

-- A text that names a file or a directory within one.
pub record IsElement (e : Str) : Type 0 where
  pub no_slash : All (λ c. c ≢ b'/') e
  pub named : e ≢ []
  pub not_dot : e ≢ codes "."
  pub not_up : e ≢ codes ".."

-- The same as tests.
unfoldable pub no_slash : Str → Bool
no_slash [] = true
no_slash (c ∷ s) = not (c == b'/') && no_slash s

pub no_slash→NoSlash : (s : Str) → no_slash s ≡ true → NoSlash s
unfolding no_slash
no_slash→NoSlash [] h = tt
no_slash→NoSlash (c ∷ s) h = (λ e. (ground arith), no_slash→NoSlash s (ground arith))

unfoldable pub is_element : Str → Bool
unfolding no_slash str_eq
is_element e =
    no_slash e && (not (is_empty e) && (not (str_eq e (codes ".")) && not (str_eq e (codes ".."))))

pub is_element→IsElement : (e : Str) → is_element e ≡ true → IsElement e
unfolding is_element
is_element→IsElement e h = record {
  no_slash = no_slash→NoSlash e (ground arith);
  named = λ k. differs (is_empty e) (ap is_empty k) (ground arith);
  not_dot = λ k. differs (str_eq e (codes ".")) (ap (λ x. str_eq x (codes ".")) k) (ground arith);
  not_up = λ k. differs (str_eq e (codes "..")) (ap (λ x. str_eq x (codes "..")) k) (ground arith);
}
  where
    differs : (b : Bool) → b ≡ true → not b ≡ true → ⊥
    differs true e h = cc
    differs false e h = cc
