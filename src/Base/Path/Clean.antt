-- ===== src/Base/Path/Clean.antt =====
-- What Clean and Join give for paths from the root: the elements, with ".." taken back.
use Prim.Native.Nat.{ℕ, zero, suc, ◌≤◌}
use mathlib.Core.Path.{◌≡◌, refl, sym, ap, ◌∙◌}
use mathlib.Core.Logic.{◌≢◌, inl, inr}
use mathlib.Core.Bool.{Bool, true, false}
use mathlib.Core.List.{List, [], ◌∷◌, ◌++◌, append_assoc, append-nil}
use native.Mathlib.Omega.{arith}
use ilove_convertion.Base.Tests.{◌==◌, if◌then◌else◌, Bool-cases}
use ilove_convertion.Base.Lists.{All, replicate, take, length, length-append, take_all}
use ilove_convertion.Base.Text.{Str, codes, str_eq, str_eq→≡, is_empty}
use ilove_convertion.Base.Path.{
  IsElement, absolute, clean, join_path, join_slash, onto, split_slash, step, steps, up,
}

onto_named : (c : ℕ) (xs : List Str) → onto c xs ≢ []
unfolding onto
onto_named c [] e = cc
onto_named c (x ∷ xs) e = cc

split_slash_named : (s : Str) → split_slash s ≢ []
unfolding split_slash
split_slash_named [] = λ e. cc
split_slash_named (c ∷ s) = by (c == b'/')
  where
    by : (b : Bool) → (if b then [] ∷ split_slash s else onto c (split_slash s)) ≢ []
    by true = λ e. cc
    by false = onto_named c (split_slash s)

onto-append : (c : ℕ) (xs ys : List Str) → xs ≢ [] → onto c (xs ++ ys) ≡ onto c xs ++ ys
unfolding onto
onto-append c [] ys h = absurd (h refl)
onto-append c (x ∷ xs) ys h = refl

split_slash-append : (s t : Str) → split_slash (s ++ b'/' ∷ t) ≡ split_slash s ++ split_slash t
unfolding split_slash
split_slash-append [] t = refl
split_slash-append (c ∷ s) t = rw (split_slash-append s t) (by (c == b'/'))
  where
    by :
        (b : Bool)
        → (if b
            then [] ∷ (split_slash s ++ split_slash t)
            else onto c (split_slash s ++ split_slash t))
          ≡ (if b then [] ∷ split_slash s else onto c (split_slash s)) ++ split_slash t
    by true = refl
    by false = onto-append c (split_slash s) (split_slash t) (split_slash_named s)

split_slash-no_slash : (e : Str) → All (λ c. c ≢ b'/') e → split_slash e ≡ e ∷ []
unfolding split_slash
split_slash-no_slash [] h = refl
split_slash-no_slash (c ∷ e) (h, hs) = ground (arith, split_slash-no_slash e hs)

split_slash-join_slash :
    (p : Str) (ps : List Str) → All IsElement (p ∷ ps) → split_slash (join_slash (p ∷ ps)) ≡ p ∷ ps
unfolding join_slash
split_slash-join_slash p [] (h, hs) = split_slash-no_slash p h.no_slash
split_slash-join_slash p (q ∷ ps) (h, hs) =
    rw
      (
        split_slash-append p (join_slash (q ∷ ps)),
        split_slash-no_slash p h.no_slash,
        split_slash-join_slash q ps hs,
      )
      refl

str_eq_ne : (s t : Str) → s ≢ t → str_eq s t ≡ false
str_eq_ne s t h = elim (Bool-cases (str_eq s t)) [ inl e ↦ absurd (h (str_eq→≡ s t e)) | inr e ↦ e ]

is_empty_ne : (s : Str) → s ≢ [] → is_empty s ≡ false
is_empty_ne [] h = absurd (h refl)
is_empty_ne (c ∷ s) h = refl

step-element : (done : List Str) (e : Str) → IsElement e → step true done e ≡ done ++ e ∷ []
unfolding step
step-element done e h =
    rw (is_empty_ne e h.named, str_eq_ne e (codes ".") h.not_dot, str_eq_ne e (codes "..") h.not_up)
      refl

steps-elements : (done ps : List Str) → All IsElement ps → steps true done ps ≡ done ++ ps
unfolding steps
steps-elements done [] h = sym (append-nil done)
steps-elements done (p ∷ ps) (h, hs) =
    rw (step-element done p h, steps-elements (done ++ p ∷ []) ps hs)
      (append_assoc done (p ∷ []) ps)

steps-append :
    (done es fs : List Str) → steps true done (es ++ fs) ≡ steps true (steps true done es) fs
unfolding steps
steps-append done [] fs = refl
steps-append done (e ∷ es) fs = steps-append (step true done e) es fs

steps-join_slash :
    (ps : List Str) → All IsElement ps → steps true [] (split_slash (join_slash ps)) ≡ ps
steps-join_slash [] h = unfold steps step split_slash join_slash in refl
steps-join_slash (p ∷ ps) h = rw (split_slash-join_slash p ps h) (steps-elements [] (p ∷ ps) h)

-- A path below a directory, from the root: what the elements of the second path do to the first.
join_path-absolute :
    (ps : List Str) (t : Str)
    → All IsElement ps
    → join_path (absolute ps) t ≡ absolute (steps true ps (split_slash t))
unfolding join_path clean
join_path-absolute ps t h = ap absolute whole
  where
    whole : steps true [] (split_slash (absolute ps ++ b'/' ∷ t)) ≡ steps true ps (split_slash t)
    whole =
        rw
          (
            split_slash-append (absolute ps) t,
            steps-append [] (split_slash (absolute ps)) (split_slash t),
            steps-join_slash ps h,
          )
          refl

pub join_path-element :
    (ps : List Str) (e : Str)
    → All IsElement ps
    → IsElement e
    → join_path (absolute ps) e ≡ absolute (ps ++ e ∷ [])
join_path-element ps e h he =
    rw (join_path-absolute ps e h, split_slash-no_slash e he.no_slash)
      (rw (steps-elements ps (e ∷ []) (he, tt)) refl)

up-take :
    (n : ℕ) (ps : List Str)
    → All IsElement ps
    → suc n ≤ length ps
    → up true (take (suc n) ps) ≡ take n ps
unfolding up
up-take n [] h le = absurd (omega arith)
up-take zero (p ∷ ps) (h, hs) le = rw (str_eq_ne p (codes "..") h.not_up) refl
up-take (suc n) (p ∷ []) h le = absurd (omega arith)
up-take (suc n) (p ∷ q ∷ ps) (h, hs) le = ap (λ l. p ∷ l) (up-take n (q ∷ ps) hs (omega arith))

-- Enough ".." elements lead to the root.
steps-ups :
    (k n : ℕ) (ps : List Str)
    → All IsElement ps
    → n ≤ length ps
    → n ≤ k
    → steps true (take n ps) (replicate k (codes "..")) ≡ []
unfolding steps step str_eq
steps-ups zero zero ps h le enough = refl
steps-ups zero (suc n) ps h le enough = absurd (omega arith)
steps-ups (suc k) zero ps h le enough = unfold up in steps-ups k zero ps h le (omega arith)
steps-ups (suc k) (suc n) ps h le enough =
    ap (λ l. steps true l (replicate k (codes ".."))) (up-take n ps h le)
    ∙ steps-ups k n ps h (omega arith) (omega arith)

-- "../" a number of times, and then a path.
abbrev pub climb : ℕ → Str → Str
climb zero t = t
climb (suc k) t = b'.' ∷ b'.' ∷ b'/' ∷ climb k t

split_slash-climb :
    (k : ℕ) (t : Str) → split_slash (climb k t) ≡ replicate k (codes "..") ++ split_slash t
unfolding split_slash onto
split_slash-climb zero t = refl
split_slash-climb (suc k) t = rw (split_slash-climb k t) refl

-- From any depth, "../" often enough gives any path from the root.
pub join_path-climb :
    (k : ℕ) (ps qs : List Str) (e : Str)
    → All IsElement ps
    → IsElement e
    → All IsElement qs
    → suc (length ps) ≤ k
    → join_path (absolute ps) (e ++ b'/' ∷ climb k (join_slash qs)) ≡ absolute qs
join_path-climb k ps qs e h he hq enough =
    rw (join_path-absolute ps (e ++ b'/' ∷ climb k (join_slash qs)) h) (ap absolute whole)
  where
    below : List Str
    below = ps ++ e ∷ []

    below-elements : (ps : List Str) → All IsElement ps → All IsElement (ps ++ e ∷ [])
    below-elements [] h = (he, tt)
    below-elements (p ∷ ps) (h, hs) = (h, below-elements ps hs)

    to_root : steps true below (replicate k (codes "..")) ≡ []
    to_root = rw (take_all (length below) below (omega arith)) at (
        steps-ups k (length below) below (below-elements ps h) (omega arith)
          (omega (arith, length-append ps (e ∷ []), enough)))

    whole : steps true ps (split_slash (e ++ b'/' ∷ climb k (join_slash qs))) ≡ qs
    whole =
        rw
          (
            split_slash-append e (climb k (join_slash qs)),
            split_slash-no_slash e he.no_slash,
            split_slash-climb k (join_slash qs),
            steps-append ps (e ∷ []) (replicate k (codes "..") ++ split_slash (join_slash qs)),
            steps-elements ps (e ∷ []) (he, tt),
            steps-append below (replicate k (codes "..")) (split_slash (join_slash qs)),
            to_root,
          )
          (steps-join_slash qs hq)

-- A path from the root tells its elements.
pub absolute_inj :
    (ps qs : List Str) → All IsElement ps → All IsElement qs → absolute ps ≡ absolute qs → ps ≡ qs
unfolding absolute join_slash
absolute_inj ps qs hp hq e =
    sym (steps-join_slash ps hp)
    ∙ (ap (λ s. steps true [] (split_slash (rest s))) e ∙ steps-join_slash qs hq)
  where
    rest : Str → Str
    rest [] = []
    rest (c ∷ s) = s
