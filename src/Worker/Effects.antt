-- ===== src/Worker/Effects.antt =====
-- The rows and files of other ids, and the open jobs, over a step.
use ilove_convertion.Base.{
  ◌≡◌, ◌≢◌, refl, sym, ◌∙◌, ◌⊎◌, false, Option, none, some, [], ◌∷◌, ◌++◌, Str, str_eq,
}
use ilove_convertion.Models.{completed, Job}
use ilove_convertion.Database.{Call, answered, refused, lost, perform, find_job, modify_job}
use ilove_convertion.Database.Rows.{
  KeepsId, map_row, find_job-modify_job_self, find_job-modify_job_ne,
}
use ilove_convertion.Database.Counts.{ids, ids-modify_job}
use ilove_convertion.Storage.{read_file}
use ilove_convertion.World.{World}

pub record Elsewhere (id : Str) (w w' : World) : Type 0 where
  pub rows : (k : Str) → str_eq k id ≡ false → find_job k w'.jobs ≡ find_job k w.jobs
  pub outputs :
      (k : Str) → str_eq k id ≡ false → read_file k w'.store.outputs ≡ read_file k w.store.outputs
  pub ids_same : ids w'.jobs ≡ ids w.jobs

pub Elsewhere_refl : (id : Str) (w : World) → Elsewhere id w w
Elsewhere_refl id w = record { rows = λ k h. refl; outputs = λ k h. refl; ids_same = refl }

pub Elsewhere_trans :
    (id : Str) (u v w : World) → Elsewhere id u v → Elsewhere id v w → Elsewhere id u w
Elsewhere_trans id u v w a b = record {
  rows = λ k h. b.rows k h ∙ a.rows k h;
  outputs = λ k h. b.outputs k h ∙ a.outputs k h;
  ids_same = b.ids_same ∙ a.ids_same;
}

-- No row of the id is completed.
abbrev pub IsOpen : Str → World → Type 0
IsOpen id w = (j : Job) → find_job id w.jobs ≡ some j → j.status ≢ completed

-- A worker's step on a job that it then lets go: it pushes the id back only if the job is open.
abbrev pub Ends : Str → World → World → Type 0
Ends id w w' =
    Elsewhere id w w' × ((w'.queue ≡ w.queue) ⊎ ((w'.queue ≡ w.queue ++ id ∷ []) × IsOpen id w'))

-- An UPDATE of the row of `id`.
module _ (id : Str) (c : Call) (f : Job → Job) (keeps : KeepsId f) (w : World) where
  abbrev pub updated : World
  updated = record w { jobs = (perform c w.jobs (modify_job id f w.jobs)).0 }

  pub updated-Elsewhere : Elsewhere id w updated
  updated-Elsewhere = by c
    where
      changed : Elsewhere id w (record w { jobs = modify_job id f w.jobs })
      changed = record {
        rows = λ k h. find_job-modify_job_ne k id f w.jobs keeps h;
        outputs = λ k h. refl;
        ids_same = ids-modify_job id f w.jobs keeps;
      }

      by :
          (c : Call)
          → Elsewhere id w (record w { jobs = (perform c w.jobs (modify_job id f w.jobs)).0 })
      by answered = changed
      by refused = Elsewhere_refl id w
      by lost = changed

  -- An update to a status other than completed keeps a job open, and one that took effect opens it.
  module _ (opens : (j : Job) → (f j).status ≢ completed) where
    modified-IsOpen : IsOpen id (record w { jobs = modify_job id f w.jobs })
    modified-IsOpen j found = by (find_job id w.jobs) (found' ∙ found)
      where
        found' : map_row f (find_job id w.jobs) ≡ find_job id (modify_job id f w.jobs)
        found' = sym (find_job-modify_job_self id f w.jobs keeps)

        by : (o : Option Job) → map_row f o ≡ some j → j.status ≢ completed
        by none e = cc
        by (some i) e = rw (← some_inj e) (opens i)
          where
            some_inj : {a b : Job} → some a ≡ some b → a ≡ b
            some_inj e = cc

    pub updated-IsOpen : IsOpen id w → IsOpen id updated
    updated-IsOpen h = by c
      where
        by :
            (c : Call)
            → IsOpen id (record w { jobs = (perform c w.jobs (modify_job id f w.jobs)).0 })
        by answered = modified-IsOpen
        by refused = h
        by lost = modified-IsOpen

    pub answered-IsOpen : c ≡ answered → IsOpen id updated
    answered-IsOpen e = rw e modified-IsOpen
