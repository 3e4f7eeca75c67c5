-- ===== src/Database/Counts.antt =====
-- How often an id is in the table, under the statements that the program sends.
use ilove_convertion.Base.{
  ℕ, ◌+◌, ◌≤◌, ◌≡◌, refl, inl, inr, none, List, [], ◌∷◌, Str, str_eq, Bool-cases, count, arith, ltb,
}
use ilove_convertion.Models.{Job}
use ilove_convertion.Database.{find_job, modify_job, remove_job, split_expired}
use ilove_convertion.Database.Rows.{KeepsId}

abbrev pub ids : List Job → List Str
ids [] = []
ids (j ∷ js) = j.id ∷ ids js

pub ids-modify_job :
    (k : Str) (f : Job → Job) (js : List Job) → KeepsId f → ids (modify_job k f js) ≡ ids js
unfolding modify_job
ids-modify_job k f [] h = refl
ids-modify_job k f (j ∷ js) h = elim (Bool-cases (str_eq k j.id)) [
  | inl t ↦ rw (t, h j, ids-modify_job k f js h)
  | inr n ↦ rw (n, ids-modify_job k f js h)
]

-- A key is found exactly if it is counted.
pub count-eq-zero : (k : Str) (js : List Job) → find_job k js ≡ none → count k (ids js) ≡ 0
unfolding find_job
count-eq-zero k [] h = refl
count-eq-zero k (j ∷ js) h = elim (Bool-cases (str_eq k j.id)) [
  | inl t ↦ cc (rw t at h)
  | inr n ↦ rw n (omega (arith, count-eq-zero k js (rw n at h)))
]

pub find_job-eq-none : (k : Str) (js : List Job) → count k (ids js) ≡ 0 → find_job k js ≡ none
unfolding find_job
find_job-eq-none k [] h = refl
find_job-eq-none k (j ∷ js) h = elim (Bool-cases (str_eq k j.id)) [
  | inl t ↦ absurd (omega (arith, rw t at h))
  | inr n ↦ rw n (find_job-eq-none k js (omega (arith, rw n at h)))
]

pub count-remove_job :
    (k l : Str) (js : List Job) → count k (ids (remove_job l js)) ≤ count k (ids js)
unfolding remove_job
count-remove_job k l [] = omega arith
count-remove_job k l (j ∷ js) = elim (Bool-cases (str_eq l j.id)) [
  | inl t ↦ rw t (omega (arith, count-remove_job k l js))
  | inr n ↦ rw n (omega (arith, count-remove_job k l js))
]

-- The rows that a cleanup keeps.
pub count-split_expired :
    (k : Str) (now : ℕ) (js : List Job)
    → count k (ids (split_expired now js).0) + count k (split_expired now js).1 ≡ count k (ids js)
unfolding split_expired
count-split_expired k now [] = refl
count-split_expired k now (j ∷ js) = elim (Bool-cases (ltb j.expires_at now)) [
  | inl t ↦ rw t (omega (arith, count-split_expired k now js))
  | inr n ↦ rw n (omega (arith, count-split_expired k now js))
]

-- With each id in the table once, a row that a cleanup keeps is found as before.
pub find_job-split_expired :
    (k : Str) (now : ℕ) (js : List Job)
    → count k (split_expired now js).1 ≡ 0
    → find_job k (split_expired now js).0 ≡ find_job k js
unfolding split_expired find_job
find_job-split_expired k now [] h = refl
find_job-split_expired k now (j ∷ js) h = elim (Bool-cases (ltb j.expires_at now)) [
  | inl t ↦
      let h' : count k (j.id ∷ (split_expired now js).1) ≡ 0 = rw t at h in
      elim (Bool-cases (str_eq k j.id)) [
        | inl e ↦ absurd (omega (arith, rw e at h'))
        | inr e ↦ rw (t, e) (find_job-split_expired k now js (omega (arith, rw e at h')))
      ]
  | inr n ↦ elim (Bool-cases (str_eq k j.id)) [
    | inl e ↦ rw (n, e) refl
    | inr e ↦ rw (n, e) (find_job-split_expired k now js (rw n at h))
  ]
]
