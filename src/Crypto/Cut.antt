-- ===== src/Crypto/Cut.antt =====
-- The chunks that a source is read in, and the ciphertext that they make.
use ilove_convertion.Base.{
  ℕ, zero, suc, ◌+◌, ◌*◌, ◌⊎◌, ◌≤◌, ◌<◌, ◌≡◌, refl, ap, true, false, List, [], ◌∷◌, ◌++◌,
  append_assoc, append-nil, tests, length, take, drop, length-append, length-take, length-drop,
  take-append-drop, take-append_front, ap, arith, leb, if◌then◌else◌, Bool-cases, inl, inr, leb→le,
  le→leb,
}
use ilove_convertion.Crypto.{Bytes, Aead, IsAead, chunk_nonce, next_idx, tag_size}

abbrev pub concat : List Bytes → Bytes
concat [] = []
concat (c ∷ cs) = c ++ concat cs

-- Every chunk but the last has `size` bytes, and the last has 1 to `size`.
abbrev pub IsCut : ℕ → List Bytes → Type 0
IsCut size [] = Unit
IsCut size (c ∷ []) = (0 < length c) × (length c ≤ size)
IsCut size (c ∷ d ∷ cs) = (length c ≡ size) × IsCut size (d ∷ cs)

-- What is left of a text behind its full chunks.
abbrev pub last_chunk : Bytes → List Bytes
last_chunk [] = []
last_chunk (b ∷ bs) = (b ∷ bs) ∷ []

-- A text cut into chunks, on fuel.
pub cut : ℕ → ℕ → Bytes → List Bytes
cut zero size bs = []
cut (suc fuel) size bs =
    let rest = take size bs ∷ cut fuel size (drop size bs) in
    if leb size (length bs) then rest else last_chunk bs

pub cut_full :
    (fuel size : ℕ) (bs : Bytes)
    → leb size (length bs) ≡ true
    → cut (suc fuel) size bs ≡ take size bs ∷ cut fuel size (drop size bs)
unfolding cut
cut_full fuel size bs h = rw h

pub cut_last :
    (fuel size : ℕ) (bs : Bytes)
    → leb size (length bs) ≡ false
    → cut (suc fuel) size bs ≡ last_chunk bs
unfolding cut
cut_last fuel size bs h = rw h

concat-last_chunk : (bs : Bytes) → concat (last_chunk bs) ≡ bs
concat-last_chunk [] = refl
concat-last_chunk (b ∷ bs) = append-nil (b ∷ bs)

pub concat-cut :
    (fuel size : ℕ) (bs : Bytes) → 0 < size → length bs < fuel → concat (cut fuel size bs) ≡ bs
concat-cut zero size bs h lt = elim lt [ ]
concat-cut (suc fuel) size bs h lt = elim (Bool-cases (leb size (length bs))) [
  | inl e ↦ rw (cut_full fuel size bs e) (
      rw (concat-cut fuel size (drop size bs) h (rw length-drop (omega (tests, leb→le _ _ e))))
        (take-append-drop size bs))
  | inr e ↦ rw (cut_last fuel size bs e) (concat-last_chunk bs)
]

IsCut-cons :
    (size : ℕ) (c : Bytes) (cs : List Bytes)
    → 0 < size
    → length c ≡ size
    → IsCut size cs
    → IsCut size (c ∷ cs)
IsCut-cons size c [] h l r = omega arith
IsCut-cons size c (d ∷ ds) h l r = (l, r)

IsCut-last_chunk : (size : ℕ) (bs : Bytes) → length bs < size → IsCut size (last_chunk bs)
IsCut-last_chunk size [] lt = tt
IsCut-last_chunk size (b ∷ bs) lt = omega arith

pub cut-IsCut : (fuel size : ℕ) (bs : Bytes) → 0 < size → IsCut size (cut fuel size bs)
cut-IsCut zero size bs h = unfold cut in tt
cut-IsCut (suc fuel) size bs h = elim (Bool-cases (leb size (length bs))) [
  | inl e ↦ rw (cut_full fuel size bs e) (
      IsCut-cons size (take size bs) (cut fuel size (drop size bs)) h
        (rw length-take (ground (arith))) (cut-IsCut fuel size (drop size bs) h))
  | inr e ↦ rw (cut_last fuel size bs e) (IsCut-last_chunk size bs (ground arith))
]

module _ (a : Aead) (key base_nonce : Bytes) where
  -- The ciphertexts of chunks, numbered from `idx` on.
  abbrev pub seal_all : ℕ → List Bytes → Bytes
  seal_all idx [] = []
  seal_all idx (c ∷ cs) = a.seal key (chunk_nonce base_nonce idx) c ++ seal_all (next_idx idx) cs

  -- Each chunk makes its text and a tag.
  pub length-seal_all :
      IsAead a
      → (idx : ℕ) (cs : List Bytes)
      → length (seal_all idx cs) ≡ length (concat cs) + tag_size * length cs
  length-seal_all law idx [] = omega arith
  length-seal_all law idx (c ∷ cs) = omega (
    arith,
    length-append {0} (a.seal key (chunk_nonce base_nonce idx) c) (seal_all (next_idx idx) cs),
    length-append {0} c (concat cs),
    law.length-seal key (chunk_nonce base_nonce idx) c,
    length-seal_all law (next_idx idx) cs,
  )

-- The head chunk is full, or it is the last one and shorter.
pub IsCut-cases :
    (size : ℕ) (c : Bytes) (cs : List Bytes)
    → IsCut size (c ∷ cs)
    → ((length c ≡ size) × IsCut size cs) ⊎ ((cs ≡ []) × (0 < length c) × (length c < size))
IsCut-cases size c [] (h, k) = elim (Bool-cases (leb size (length c))) [
  | inl e ↦ inl (ground arith, tt)
  | inr e ↦ inr (refl, h, ground arith)
]
IsCut-cases size c (d ∷ ds) (h, k) = inl (h, k)

-- How many chunks there are: the length of the text over `size`, rounded up.
pub length_of_IsCut :
    (size : ℕ) (cs : List Bytes)
    → IsCut size cs
    → (length (concat cs) ≤ length cs * size)
      × (length cs * size < length (concat cs) + size + (if leb size 0 then 1 else 0))
length_of_IsCut size [] h = ground arith
length_of_IsCut size (c ∷ cs) h = elim (IsCut-cases size c cs h) [
  | inl (full, more) ↦
      let ih = length_of_IsCut size cs more in
      let parts = length-append {0} c (concat cs) in (grind arith, grind arith)
  | inr (last, p, q) ↦ rw last (rw append-nil (ground arith, ground arith))
]

-- Enough fuel is enough.
pub cut_fuel :
    (fuel fuel' size : ℕ) (bs : Bytes)
    → 0 < size
    → length bs < fuel
    → length bs < fuel'
    → cut fuel size bs ≡ cut fuel' size bs
cut_fuel zero fuel' size bs h p q = elim p [ ]
cut_fuel (suc fuel) zero size bs h p q = elim q [ ]
cut_fuel (suc fuel) (suc fuel') size bs h p q = elim (Bool-cases (leb size (length bs))) [
  | inl e ↦
      rw (cut_full fuel size bs e, cut_full fuel' size bs e)
        (ap (λ cs. take size bs ∷ cs)
          (cut_fuel fuel fuel' size (drop size bs) h (rw length-drop (omega (tests, leb→le _ _ e)))
            (rw length-drop (omega (tests, leb→le _ _ e)))))
  | inr e ↦ rw (cut_last fuel size bs e, cut_last fuel' size bs e)
]

-- Where a text ends with a full chunk, the chunks of a longer text begin with its chunks.
pub cut-append :
    (k fuel size : ℕ) (x y : Bytes)
    → 0 < size
    → length x ≡ k * size
    → length (x ++ y) < fuel
    → (rest : List Bytes) × (cut fuel size (x ++ y) ≡ cut fuel size x ++ rest)
cut-append k zero size x y h l lt = elim lt [ ]
cut-append zero (suc fuel) size [] y h l lt =
    (cut (suc fuel) size y, rw (cut_last fuel size [] (ground arith)))
cut-append zero (suc fuel) size (b ∷ x) y h l lt = absurd (omega arith)
cut-append (suc k) (suc fuel) size x y h l lt =
    let long : size ≤ length x = grind arith in
    let whole = length-append {0} x y in
    let more : leb size (length (x ++ y)) ≡ true = le→leb size (length (x ++ y)) (omega arith) in
    let front = take-append_front size x y long in
    let ih =
      cut-append k fuel size (drop size x) y h (rw length-drop (grind arith))
        (omega (arith, length-append {0} (drop size x) y, length-drop {0} size x)) in
    (
      ih.0,
      rw (cut_full fuel size (x ++ y) more, cut_full fuel size x (le→leb size (length x) long))
          (rw (front.0, front.1, ih.1)),
    )

-- The ciphertexts of more chunks begin with those of the first.
pub seal_all-append :
    (a : Aead) (key base_nonce : Bytes) (idx : ℕ) (cs ds : List Bytes)
    → (rest : Bytes) × (seal_all a key base_nonce idx (cs ++ ds)
        ≡ seal_all a key base_nonce idx cs ++ rest)
seal_all-append a key base_nonce idx [] ds = (seal_all a key base_nonce idx ds, refl)
seal_all-append a key base_nonce idx (c ∷ cs) ds =
    let (rest, e) = seal_all-append a key base_nonce (next_idx idx) cs ds in
    (rest, rw (e, append_assoc))
