-- ===== src/Database/Rows.antt =====
-- Reading the table of jobs after an update, an insert or a delete.
use ilove_convertion.Base.{
  ◌≡◌, refl, ap, false, Option, none, some, List, [], ◌∷◌, Str, str_eq, str_eq→≡, str_eq_refl,
  Bool-cases, inl, inr, arith,
}
use ilove_convertion.Models.{Job}
use ilove_convertion.Database.{find_job, modify_job, remove_job}

abbrev pub KeepsId : (Job → Job) → Type 0
KeepsId f = (j : Job) → (f j).id ≡ j.id

abbrev pub map_row : (Job → Job) → Option Job → Option Job
map_row f none = none
map_row f (some j) = some (f j)

pub find_job-modify_job_self :
    (k : Str) (f : Job → Job) (js : List Job)
    → KeepsId f
    → find_job k (modify_job k f js) ≡ map_row f (find_job k js)
unfolding find_job modify_job
find_job-modify_job_self k f [] h = refl
find_job-modify_job_self k f (j ∷ js) h = elim (Bool-cases (str_eq k j.id)) [
  | inl t ↦ rw t (rw (h j, t))
  | inr n ↦ rw n (rw n (find_job-modify_job_self k f js h))
]

pub find_job-modify_job_ne :
    (k l : Str) (f : Job → Job) (js : List Job)
    → KeepsId f
    → str_eq k l ≡ false
    → find_job k (modify_job l f js) ≡ find_job k js
unfolding find_job modify_job
find_job-modify_job_ne k l f [] h ne = refl
find_job-modify_job_ne k l f (j ∷ js) h ne = elim (Bool-cases (str_eq l j.id)) [
  | inl t ↦
      let e : str_eq k j.id ≡ false = rw (str_eq→≡ l j.id t) at ne in
      rw t (rw (h j, e) (find_job-modify_job_ne k l f js h ne))
  | inr n ↦ rw n (ground (arith, find_job-modify_job_ne k l f js h ne))
]

pub find_job-remove_job_self : (k : Str) (js : List Job) → find_job k (remove_job k js) ≡ none
unfolding find_job remove_job
find_job-remove_job_self k [] = refl
find_job-remove_job_self k (j ∷ js) = ground (arith, find_job-remove_job_self k js)

pub find_job-remove_job_ne :
    (k l : Str) (js : List Job) → str_eq k l ≡ false → find_job k (remove_job l js) ≡ find_job k js
unfolding find_job remove_job
find_job-remove_job_ne k l [] ne = refl
find_job-remove_job_ne k l (j ∷ js) ne = elim (Bool-cases (str_eq l j.id)) [
  | inl t ↦
      let e : str_eq k j.id ≡ false = rw (str_eq→≡ l j.id t) at ne in
      rw (t, e) (find_job-remove_job_ne k l js ne)
  | inr n ↦ rw n (ground (arith, find_job-remove_job_ne k l js ne))
]

-- A key that no row has is neither updated nor deleted.
pub remove_job_absent : (k : Str) (js : List Job) → find_job k js ≡ none → remove_job k js ≡ js
unfolding find_job remove_job
remove_job_absent k [] h = refl
remove_job_absent k (j ∷ js) h = elim (Bool-cases (str_eq k j.id)) [
  | inl t ↦ cc (rw t at h)
  | inr n ↦ rw n (ap (λ r. j ∷ r) (remove_job_absent k js (rw n at h)))
]

-- The row just inserted is the one that a delete of its key takes away.
pub remove_job_new :
    (j : Job) (js : List Job) → find_job j.id js ≡ none → remove_job j.id (j ∷ js) ≡ js
unfolding remove_job
remove_job_new j js h = rw str_eq_refl (remove_job_absent j.id js h)

pub find_job_new : (j : Job) (js : List Job) → find_job j.id (j ∷ js) ≡ some j
unfolding find_job
find_job_new j js = rw str_eq_refl

-- A row is found under its own key.
pub find_job_id : (k : Str) (js : List Job) {j : Job} → find_job k js ≡ some j → j.id ≡ k
unfolding find_job
find_job_id k [] e = cc
find_job_id k (i ∷ js) e = elim (Bool-cases (str_eq k i.id)) [
  | inl t ↦ ground (arith, str_eq→≡ k i.id t)
  | inr n ↦ find_job_id k js (rw n at e)
]
