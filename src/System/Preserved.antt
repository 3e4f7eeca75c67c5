-- ===== src/System/Preserved.antt =====
-- The invariant over the steps of the system.
use ilove_convertion.Base.{
  ℕ, zero, suc, ◌+◌, ◌≤◌, ◌≡◌, refl, sym, ap, ◌∙◌, inl, inr, Bool, true, false, Option, none, some,
  List, [], ◌∷◌, ◌++◌, Str, str_eq, str_eq→≡, str_eq_refl, count, count-append, if◌then◌else◌,
  Bool-cases, arith,
}
use ilove_convertion.Models.{completed, Job}
use ilove_convertion.Database.{Call, find_job}
use ilove_convertion.Database.Counts.{ids, count-eq-zero}
use ilove_convertion.Queue.{dequeue, pop_right, popped}
use ilove_convertion.World.{World, Platform, ApiConfig}
use ilove_convertion.Api.Upload.Locality.{IsUploading, handle_create_job-IsUploading}
use ilove_convertion.Api.Delete.Locality.{Shrinks, handle_delete_job-Shrinks, run_cleanup-Shrinks}
use ilove_convertion.Worker.{WorkerConfig, Dispatch, fail_job}
use ilove_convertion.Worker.Effects.{Elsewhere}
use ilove_convertion.Worker.Locality.{fail_job-Elsewhere, fail_job-queue, fail_job-completed}
use ilove_convertion.System.{
  Task, task_ids, State, active, taken, take_job, IsNew, Step, upload, delete, cleanup, request,
  wait, poll, work, give_up, killed, Reach, start, later,
}
use ilove_convertion.Api.Session.Limits.{session_middleware_world}
use ilove_convertion.System.Handlers.{pop_right-count}
use ilove_convertion.System.Holding.{work-Inv, killed-Inv}
use ilove_convertion.System.Invariant.{Inv, Inv-kept}

module _ (p : Platform) (api : ApiConfig) (cfg : WorkerConfig) where
  start-Inv :
      (w : World)
      → w.jobs ≡ []
      → w.queue ≡ []
      → Inv p (record { world = w; tasks = []; unsure = [] })
  unfolding find_job
  start-Inv w ej eq = record {
    once = λ k. rw eq (omega arith);
    settled = λ k j found done. rw eq refl;
    unique = λ k. rw ej (omega arith);
    canonical = λ k h. absurd (omega (arith, rw eq at h));
  }

  module _ (s : State) (i : Inv p s) where
    Shrinks-Inv : (w : World) → Shrinks p s.world w → Inv p (record s { world = w })
    Shrinks-Inv w sh =
        let q : active (record s { world = w }) ≡ active s = rw (sh.queue_same) refl in
        record {
          once = λ k. rw q (i.once k);
          settled = λ k j found done. by k j found done (count k (active s)) refl (q' k);
          unique = λ k. omega (arith, sh.fewer k, i.unique k);
          canonical = λ k h. i.canonical k (rw q at h);
        }
      where
        q' : (k : Str) → count k (active (record s { world = w })) ≡ count k (active s)
        q' k = rw (sh.queue_same) refl

        by :
            (k : Str) (j : Job)
            → find_job k w.jobs ≡ some j
            → j.status ≡ completed
            → (n : ℕ) → count k (active s) ≡ n
            → count k (active (record s { world = w })) ≡ count k (active s)
            → count k (active (record s { world = w })) ≡ 0
        by k j found done zero e same = same ∙ e
        by k j found done (suc n) e same =
            elim (sh.kept k (i.canonical k (omega arith)) (i.unique k)) [
              | inl o ↦ same ∙ i.settled k j (sym o.0 ∙ found) done
              | inr gone ↦ absurd (cc (found, gone))
            ]

    upload-Inv :
        (w : World) (n : Str)
        → IsNew p api cfg n s
        → IsUploading n s.world w
        → Inv p (record s { world = w })
    upload-Inv w n new u = record {
      once = λ k. elim (Bool-cases (str_eq k n)) [
        | inl t ↦
            let e : count k (active s) ≡ 0 = rw (str_eq→≡ k n t) new.inactive in
            omega (arith, more k, rw t at (more k))
        | inr f ↦ omega (arith, more k, rw f at (more k), i.once k)
      ];
      settled = λ k j found done. elim (Bool-cases (str_eq k n)) [
        | inl t ↦ absurd (u.open_row j (rw (str_eq→≡ k n t) at found) done)
        | inr f ↦
            let e = i.settled k j (sym (u.rows k f) ∙ found) done in
            omega (arith, e, rw f at (more k))
      ];
      unique = λ k. elim (Bool-cases (str_eq k n)) [
        | inl t ↦
            let e : count k (ids s.world.jobs) ≡ 0 =
              rw (str_eq→≡ k n t) (count-eq-zero n s.world.jobs new.no_row) in
            omega (arith, e, rw t at (u.counts k))
        | inr f ↦ omega (arith, rw f at (u.counts k), i.unique k)
      ];
      canonical = λ k h. elim (Bool-cases (str_eq k n)) [
        | inl t ↦ rw (str_eq→≡ k n t) new.canonical
        | inr f ↦ i.canonical k (omega (arith, h, rw f at (more k)))
      ];
    }
      where
        more :
            (k : Str)
            → count k (active (record s { world = w }))
              ≤ count k (active s) + (if str_eq k n then 1 else 0)
        more k = elim u.queue_ids [
          | inl e ↦ rw e (omega arith)
          | inr e ↦
              rw
                (
                  e,
                  count-append k (task_ids s.tasks) (n ∷ s.world.queue),
                  count-append k (task_ids s.tasks) s.world.queue,
                )
                (omega arith)
        ]

    poll-Inv : (reached : Bool) → Inv p (take_job reached s)
    unfolding take_job taken dequeue
    poll-Inv false = i
    poll-Inv true = by (pop_right s.world.queue) refl
      where
        same_rows :
            (u : State)
            → u.world.jobs ≡ s.world.jobs
            → u.unsure ≡ s.unsure
            → ((k : Str) → count k (active u) ≤ count k (active s))
            → Inv p u
        same_rows u e late fewer =
            Inv-kept p s u i fewer (λ k j found done. inl (ap (find_job k) (sym e) ∙ found))
              (λ k. rw e (omega arith)) (λ k. rw late (omega arith))

        by :
            (o : Option (Str × List Str))
            → pop_right s.world.queue ≡ o
            → Inv p (taken s (popped s.world.queue o))
        by none e = i
        by (some ([], q)) e =
            same_rows (record s { world = record (s.world) { queue = q } }) refl refl
              (λ k.
                rw
                  (
                    count-append k (task_ids s.tasks) q,
                    count-append k (task_ids s.tasks) s.world.queue,
                    pop_right-count k [] s.world.queue q e,
                  )
                  (omega arith))
        by (some (c ∷ id, q)) e =
            same_rows
              (record s {
                world = record (s.world) { queue = q };
                tasks = Task.popped (c ∷ id) ∷ s.tasks;
              })
              refl refl
              (λ k.
                rw
                  (
                    count-append k (task_ids s.tasks) q,
                    count-append k (task_ids s.tasks) s.world.queue,
                    pop_right-count k (c ∷ id) s.world.queue q e,
                  )
                  (omega arith))

    request-Inv :
        (w : World)
        → w.jobs ≡ s.world.jobs
        → w.queue ≡ s.world.queue
        → Inv p (record s { world = w })
    request-Inv w ej eq =
        Inv-kept p s (record s { world = w }) i (λ k. rw eq (omega arith))
          (λ k j found done. inl (ap (find_job k) (sym ej) ∙ found)) (λ k. rw ej (omega arith))
          (λ k. omega arith)

    give_up-Inv :
        (before after : List Str) (id msg : Str) (dispatch : Dispatch) (c : Call)
        → s.unsure ≡ before ++ id ∷ after
        → Inv p (record s {
          world = fail_job p cfg dispatch c id msg s.world;
          unsure = before ++ after;
        })
    give_up-Inv before after id msg dispatch c here =
        Inv-kept p s
          (record s { world = fail_job p cfg dispatch c id msg s.world; unsure = before ++ after })
          i (λ k. rw (fail_job-queue p cfg dispatch id known c msg s.world) (omega arith))
          (λ k j found done. elim (Bool-cases (str_eq k id)) [
            | inl t ↦
                let same : k ≡ id = str_eq→≡ k id t in
                inl (
                  ap (λ x. find_job x s.world.jobs) same
                  ∙ fail_job-completed p cfg dispatch id known c msg s.world j
                      (ap (λ x. find_job x (fail_job p cfg dispatch c id msg s.world).jobs)
                          (sym same)
                        ∙ found)
                      done)
            | inr f ↦ inl (sym (others.rows k f) ∙ found)
          ])
          (λ k. rw (others.ids_same) (omega arith)) fewer
      where
        counts :
            (k : Str)
            → count k s.unsure ≡ count k before + ((if str_eq k id then 1 else 0) + count k after)
        counts k = rw (here, count-append k before (id ∷ after)) refl

        known : p.canon id ≡ id
        known = i.canonical id (let e = counts id in omega (arith, rw str_eq_refl at e))

        others : Elsewhere id s.world (fail_job p cfg dispatch c id msg s.world)
        others = fail_job-Elsewhere p cfg dispatch id known c msg s.world

        fewer : (k : Str) → count k (before ++ after) ≤ count k s.unsure
        fewer k = omega (arith, counts k, count-append k before after)

  Step-Inv : (s u : State) → Inv p s → Step p api cfg s u → Inv p u
  Step-Inv s u i (upload ev session r new heard) =
      upload-Inv s i _ ev.new_id new
        (handle_create_job-IsUploading p api ev s.world session r new.canonical new.no_row)
  Step-Inv s u i (delete c id) = Shrinks-Inv s i _ (handle_delete_job-Shrinks p s.world id c)
  Step-Inv s u i (cleanup c c') = Shrinks-Inv s i _ (run_cleanup-Shrinks p s.world c c')
  Step-Inv s u i (request c new_id r) =
      let e = session_middleware_world api c new_id r s.world in request-Inv s i _ e.0 e.1
  Step-Inv s u i (wait n) = request-Inv s i _ refl refl
  Step-Inv s u i (poll reached) = poll-Inv s i reached
  Step-Inv s u i (work before after t d ev here) = work-Inv p api cfg s i before after t here d ev
  Step-Inv s u i (give_up before after id msg d c here) =
      give_up-Inv s i before after id msg d c here
  Step-Inv s u i (killed before after t here) = killed-Inv p api cfg s i before after t here

  pub Reach-Inv : {s : State} → Reach p api cfg s → Inv p s
  Reach-Inv (start w ej eq) = start-Inv w ej eq
  Reach-Inv (later {s} {t} r st) = Step-Inv s t (Reach-Inv r) st
