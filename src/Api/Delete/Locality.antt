-- ===== src/Api/Delete/Locality.antt =====
-- A delete or a cleanup takes a row away or leaves it as it is, with its output.
use ilove_convertion.Base.{
  ℕ, zero, suc, ◌≤◌, ◌≡◌, ◌≢◌, refl, ◌⊎◌, inl, inr, Bool, true, false, none, some, List, [], ◌∷◌,
  Str, str_eq, str_eq→≡, str_eq_refl, count, Bool-cases, All, arith,
}
use ilove_convertion.Models.{Job}
use ilove_convertion.Database.{
  Call, answered, refused, lost, find_job, remove_job, delete_job, split_expired,
  cleanup_expired_jobs,
}
use ilove_convertion.Database.Rows.{find_job-remove_job_self, find_job-remove_job_ne}
use ilove_convertion.Database.Counts.{
  ids, count-remove_job, count-split_expired, find_job-split_expired, find_job-eq-none,
}
use ilove_convertion.Storage.{read_file, delete_job_files}
use ilove_convertion.World.{World, Platform}
use ilove_convertion.Api.Delete.{handle_delete_job, after_delete, run_cleanup}
use ilove_convertion.Api.Delete.Files.{delete_job_files_other, keeps_other_files}

All_of_count : (k : Str) (xs : List Str) → count k xs ≡ 0 → All (λ i. str_eq k i ≡ false) xs
All_of_count k [] h = tt
All_of_count k (x ∷ xs) h = elim (Bool-cases (str_eq k x)) [
  | inl t ↦ absurd (omega (arith, rw t at h))
  | inr n ↦ (n, All_of_count k xs (omega (arith, rw n at h)))
]

-- The row of `k` and its output are as before.
abbrev pub IsKept : Str → World → World → Type 0
IsKept k w w' =
    (find_job k w'.jobs ≡ find_job k w.jobs)
    × (read_file k w'.store.outputs ≡ read_file k w.store.outputs)

-- What a handler that makes no row does to the table, the queue and the outputs.
pub record Shrinks (p : Platform) (w w' : World) : Type 0 where
  pub queue_same : w'.queue ≡ w.queue
  pub kept :
      (k : Str)
      → p.canon k ≡ k
      → count k (ids w.jobs) ≤ 1
      → IsKept k w w' ⊎ (find_job k w'.jobs ≡ none)
  pub fewer : (k : Str) → count k (ids w'.jobs) ≤ count k (ids w.jobs)

module _ (p : Platform) (w : World) where
  pub Shrinks-refl : Shrinks p w w
  Shrinks-refl = record {
    queue_same = refl;
    kept = λ k h u. inl (refl, refl);
    fewer = λ k. omega arith;
  }

  module _ (job_id : Str) where
    -- With the row of the id away, its files may go too.
    removed_with_files : Shrinks p w (record w {
      jobs = remove_job (p.canon job_id) w.jobs;
      store = delete_job_files job_id w.store;
    })
    removed_with_files = record {
      queue_same = refl;
      kept = λ k h u. by k h (Bool-cases (str_eq k (p.canon job_id)));
      fewer = λ k. count-remove_job k (p.canon job_id) w.jobs;
    }
      where
        by :
            (k : Str)
            → p.canon k ≡ k
            → (str_eq k (p.canon job_id) ≡ true) ⊎ (str_eq k (p.canon job_id) ≡ false)
            → ((find_job k (remove_job (p.canon job_id) w.jobs) ≡ find_job k w.jobs)
                × (read_file k (delete_job_files job_id w.store).outputs
                    ≡ read_file k w.store.outputs))
              ⊎ (find_job k (remove_job (p.canon job_id) w.jobs) ≡ none)
        by k h (inl t) =
            inr (
              rw (str_eq→≡ k (p.canon job_id) t) (find_job-remove_job_self (p.canon job_id) w.jobs))
        by k h (inr f) = inl (
          find_job-remove_job_ne k (p.canon job_id) w.jobs f,
          elim (Bool-cases (str_eq k job_id)) [
            | inl t ↦ absurd (differs (str_eq→≡ k job_id t))
            | inr g ↦ (delete_job_files_other k job_id w.store g).1
          ],
        )
          where
            differs : k ≢ job_id
            differs e = cc (f, str_eq_refl k, h, e)

    removed_only : Shrinks p w (record w { jobs = remove_job (p.canon job_id) w.jobs })
    removed_only = record {
      queue_same = refl;
      kept = λ k h u. by k (Bool-cases (str_eq k (p.canon job_id)));
      fewer = λ k. count-remove_job k (p.canon job_id) w.jobs;
    }
      where
        by :
            (k : Str)
            → (str_eq k (p.canon job_id) ≡ true) ⊎ (str_eq k (p.canon job_id) ≡ false)
            → ((find_job k (remove_job (p.canon job_id) w.jobs) ≡ find_job k w.jobs)
                × (read_file k w.store.outputs ≡ read_file k w.store.outputs))
              ⊎ (find_job k (remove_job (p.canon job_id) w.jobs) ≡ none)
        by k (inl t) =
            inr (
              rw (str_eq→≡ k (p.canon job_id) t) (find_job-remove_job_self (p.canon job_id) w.jobs))
        by k (inr f) = inl (find_job-remove_job_ne k (p.canon job_id) w.jobs f, refl)

    pub handle_delete_job-Shrinks : (c : Call) → Shrinks p w (handle_delete_job p c job_id w).0
    unfolding handle_delete_job
    handle_delete_job-Shrinks c = elim (Bool-cases (p.is_uuid job_id)) [
      | inr f ↦ rw f Shrinks-refl
      | inl t ↦ rw t (by c)
    ]
      where
        row_there :
            (o : Bool)
            → Shrinks p w
                (after_delete p job_id
                  (record w { jobs = remove_job (p.canon job_id) w.jobs })
                  (some o)).0
        row_there false = unfold after_delete in removed_only
        row_there true = unfold after_delete in removed_with_files

        by :
            (c : Call)
            → Shrinks p w
                (after_delete p job_id
                  (record w { jobs = (delete_job p.canon c job_id w.jobs).0 })
                  (delete_job p.canon c job_id w.jobs).1).0
        by answered = unfold delete_job in row_there _
        by refused = unfold delete_job after_delete in Shrinks-refl
        by lost = unfold delete_job after_delete in removed_only

  pub run_cleanup-Shrinks : (c c' : Call) → Shrinks p w (run_cleanup c c' w)
  unfolding run_cleanup cleanup_expired_jobs
  run_cleanup-Shrinks c c' = by c
    where
      rows : List Job
      rows = (split_expired w.now w.jobs).0

      gone : List Str
      gone = (split_expired w.now w.jobs).1

      fewer_rows : (k : Str) → count k (ids rows) ≤ count k (ids w.jobs)
      fewer_rows k = omega (arith, count-split_expired k w.now w.jobs)

      -- A key is among those that go, and no row keeps it; or it is not.
      split :
          (k : Str)
          → count k (ids w.jobs) ≤ 1
          → ((find_job k rows ≡ find_job k w.jobs) × All (λ i. str_eq k i ≡ false) gone)
            ⊎ (find_job k rows ≡ none)
      split k u = by_count (count k gone) refl
        where
          by_count :
              (n : ℕ)
              → count k gone ≡ n
              → ((find_job k rows ≡ find_job k w.jobs) × All (λ i. str_eq k i ≡ false) gone)
                ⊎ (find_job k rows ≡ none)
          by_count zero e = inl (find_job-split_expired k w.now w.jobs e, All_of_count k gone e)
          by_count (suc n) e =
              inr (find_job-eq-none k rows (omega (arith, count-split_expired k w.now w.jobs)))

      by : (c : Call) → Shrinks p w (run_cleanup c c' w)
      by answered = record {
        queue_same = refl;
        kept = λ k h u. elim (split k u) [
          | inl s ↦ inl (s.0, (keeps_other_files k gone w.store s.1).1)
          | inr n ↦ inr n
        ];
        fewer = fewer_rows;
      }
      by refused = record {
        queue_same = refl;
        kept = λ k h u. inl (refl, refl);
        fewer = λ k. omega arith;
      }
      by lost = record {
        queue_same = refl;
        kept = λ k h u. elim (split k u) [ inl s ↦ inl (s.0, refl) | inr n ↦ inr n ];
        fewer = fewer_rows;
      }
