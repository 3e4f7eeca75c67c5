-- ===== src/Form/Names.antt =====
-- sanitizeFilename and normalizeExt.
use ilove_convertion.Base.{
  ℕ, ◌≡◌, ◌≢◌, refl, inl, inr, [], ◌∷◌, ◌++◌, Str, codes, is_empty, replace_all, ◌==◌,
  if◌then◌else◌, Bool-cases, All, arith,
}
use ilove_convertion.Form.{sanitize_filename}

All-append : (P : ℕ → Type 0) (xs ys : Str) → All P xs → All P ys → All P (xs ++ ys)
All-append P [] ys _ hy = hy
All-append P (x ∷ xs) ys (px, hx) hy = (px, All-append P xs ys hx hy)

abbrev Lacks : ℕ → Str → Type 0
Lacks b = All (λ c. c ≢ b)

-- The byte is gone, if it is not in what replaces it.
replace_all-Lacks : (b : ℕ) (new s : Str) → Lacks b new → Lacks b (replace_all b new s)
unfolding replace_all
replace_all-Lacks b new [] h = tt
replace_all-Lacks b new (c ∷ s) h =
    All-append (λ x. x ≢ b) (if c == b then new else c ∷ []) (replace_all b new s) here
      (replace_all-Lacks b new s h)
  where
    here : Lacks b (if c == b then new else c ∷ [])
    here = elim (Bool-cases (c == b)) [ inl t ↦ rw t h | inr f ↦ rw f (ground arith) ]

-- A byte that was not there stays away, if it is not in what replaces another.
replace_all-Lacks_other :
    (b old : ℕ) (new s : Str) → Lacks b new → Lacks b s → Lacks b (replace_all old new s)
unfolding replace_all
replace_all-Lacks_other b old new [] h k = tt
replace_all-Lacks_other b old new (c ∷ s) h (k, ks) =
    All-append (λ x. x ≢ b) (if c == old then new else c ∷ []) (replace_all old new s) here
      (replace_all-Lacks_other b old new s h ks)
  where
    here : Lacks b (if c == old then new else c ∷ [])
    here = elim (Bool-cases (c == old)) [ inl t ↦ rw t h | inr f ↦ rw f (k, tt) ]

replace_all_clean : (old : ℕ) (new s : Str) → Lacks old s → replace_all old new s ≡ s
unfolding replace_all
replace_all_clean old new [] h = refl
replace_all_clean old new (c ∷ s) (h, hs) = ground (arith, replace_all_clean old new s hs)

-- A name that is safe in a quoted Content-Disposition and as a path element: it is not empty and
-- has no slash, backslash, NUL or double quote.
pub record IsSafe (s : Str) : Type 0 where
  pub nonempty : s ≢ []
  pub no_slash : All (λ c. c ≢ 47) s
  pub no_backslash : All (λ c. c ≢ 92) s
  pub no_nul : All (λ c. c ≢ 0) s
  pub no_quote : All (λ c. c ≢ 34) s

abbrev no_slashes : Str → Str
no_slashes name = replace_all 47 (codes "_") name

abbrev no_backslashes : Str → Str
no_backslashes name = replace_all 92 (codes "_") (no_slashes name)

abbrev no_nuls : Str → Str
no_nuls name = replace_all 0 [] (no_backslashes name)

abbrev cleaned : Str → Str
cleaned name = replace_all 34 (39 ∷ []) (no_nuls name)

module _ (name : Str) where
  slash_gone : Lacks 47 (cleaned name)
  slash_gone = replace_all-Lacks_other 47 34 (39 ∷ []) (no_nuls name) (omega arith) (
      replace_all-Lacks_other 47 0 [] (no_backslashes name) tt (
        replace_all-Lacks_other 47 92 (codes "_") (no_slashes name) (omega arith)
          (replace_all-Lacks 47 (codes "_") name (omega arith))))

  backslash_gone : Lacks 92 (cleaned name)
  backslash_gone = replace_all-Lacks_other 92 34 (39 ∷ []) (no_nuls name) (omega arith) (
      replace_all-Lacks_other 92 0 [] (no_backslashes name) tt
        (replace_all-Lacks 92 (codes "_") (no_slashes name) (omega arith)))

  nul_gone : Lacks 0 (cleaned name)
  nul_gone =
      replace_all-Lacks_other 0 34 (39 ∷ []) (no_nuls name) (omega arith)
        (replace_all-Lacks 0 [] (no_backslashes name) tt)

  quote_gone : Lacks 34 (cleaned name)
  quote_gone = replace_all-Lacks 34 (39 ∷ []) (no_nuls name) (omega arith)

-- A sanitised name is safe, whatever the name is: it is not empty and has no slash, backslash, NUL
-- or double quote.
pub sanitize_filename-IsSafe : (name : Str) → IsSafe (sanitize_filename name)
unfolding sanitize_filename
sanitize_filename-IsSafe name =
    made_safe (cleaned name) (slash_gone name) (backslash_gone name) (nul_gone name)
      (quote_gone name)
  where
    made_safe :
        (s : Str)
        → Lacks 47 s
        → Lacks 92 s
        → Lacks 0 s
        → Lacks 34 s
        → IsSafe (if is_empty s then codes "download" else s)
    made_safe [] a b c d = record {
      nonempty = λ e. cc;
      no_slash = omega arith;
      no_backslash = omega arith;
      no_nul = omega arith;
      no_quote = omega arith;
    }
    made_safe (x ∷ s) a b c d = record {
      nonempty = λ e. cc;
      no_slash = a;
      no_backslash = b;
      no_nul = c;
      no_quote = d;
    }

-- A name that is not empty and has no slash, backslash, NUL or double quote stays as it is.
pub sanitize_filename_kept : (name : Str) → IsSafe name → sanitize_filename name ≡ name
unfolding sanitize_filename
sanitize_filename_kept name h = kept name h
  where
    not_empty : (s : Str) → s ≢ [] → (if is_empty s then codes "download" else s) ≡ s
    not_empty [] h = absurd (h refl)
    not_empty (c ∷ s) h = refl

    kept : (s : Str) → IsSafe s → (if is_empty (cleaned s) then codes "download" else cleaned s) ≡ s
    kept s h =
        rw
          (
            replace_all_clean 47 (codes "_") s h.no_slash,
            replace_all_clean 92 (codes "_") s h.no_backslash,
            replace_all_clean 0 [] s h.no_nul,
            replace_all_clean 34 (39 ∷ []) s h.no_quote,
          )
          (not_empty s h.nonempty)
