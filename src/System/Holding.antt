-- ===== src/System/Holding.antt =====
-- The invariant over a worker's step on the task between two others, and over its end.
use ilove_convertion.Base.{
  ℕ, ◌+◌, ◌≤◌, ◌≡◌, sym, ◌∙◌, ◌⊎◌, inl, inr, List, [], ◌∷◌, ◌++◌, Str, str_eq, str_eq→≡,
  str_eq_refl, count, count-append, length, ltb, if◌then◌else◌, Bool-cases, arith,
}
use ilove_convertion.Database.{Call, answered, refused, lost}
use ilove_convertion.World.{World, Platform, ApiConfig}
use ilove_convertion.Worker.{WorkerConfig, Dispatch, JobEvents}
use ilove_convertion.Worker.Effects.{IsOpen}
use ilove_convertion.System.{Task, task_id, task_ids, State, active, advance, left_unsure}
use ilove_convertion.System.Handlers.{task_ids-append, Lets, advance-Lets}
use ilove_convertion.System.Invariant.{Inv, Inv-shrunk, Inv-kept, count_held}

module _ (p : Platform) (api : ApiConfig) (cfg : WorkerConfig) (s : State) (i : Inv p s)
    (before after : List Task) (t : Task) (here : s.tasks ≡ before ++ t ∷ after) where
  abbrev id : Str
  id = task_id t

  abbrev others : Str → ℕ
  others k = count k (task_ids before) + count k (task_ids after) + count k s.world.queue

  ids_before : (k : Str) → count k (active s) ≡ others k + (if str_eq k id then 1 else 0)
  ids_before k =
      rw
        (
          here,
          count-append k (task_ids (before ++ t ∷ after)) s.world.queue,
          count_held k before after t,
        )
        (omega arith)

  self_active : count id (active s) ≡ others id + 1
  self_active = let e = ids_before id in rw str_eq_refl at e

  pub self_canonical : p.canon id ≡ id
  self_canonical = i.canonical id (omega (arith, self_active))

  pub self-IsOpen : IsOpen id s.world
  self-IsOpen j found done = absurd (omega (arith, i.settled id j found done, self_active))

  module _ (w : World) (rest : List Task) (late : List Str) (lets : Lets id s.world (w, rest))
      (self_only : (k : Str) → count k late ≤ (if str_eq k id then 1 else 0)) where
    abbrev next : State
    next = record { world = w; tasks = before ++ (rest ++ after); unsure = late ++ s.unsure }

    ids_after :
        (k : Str)
        → count k (active next)
          ≡ count k (task_ids before)
            + count k (task_ids rest)
            + count k (task_ids after)
            + count k w.queue
    ids_after k =
        rw
          (
            count-append k (task_ids (before ++ (rest ++ after))) w.queue,
            task_ids-append before (rest ++ after),
            count-append k (task_ids before) (task_ids (rest ++ after)),
            task_ids-append rest after,
            count-append k (task_ids rest) (task_ids after),
          )
          (omega arith)

    -- No id is held more often; and the job, if it is still held, is not completed.
    held_as_before : (k : Str) → count k (active next) ≤ count k (active s)
    held_as_before k = elim lets.1 [
      | inl h ↦ rw (ids_after k, ids_before k, h.0, h.1) (omega arith)
      | inr h ↦ elim h.1 [
        | inl q ↦ rw (ids_after k, ids_before k, h.0, q) (omega arith)
        | inr q ↦
            rw (ids_after k, ids_before k, h.0, q.0, count-append k s.world.queue (id ∷ []))
              (omega arith)
      ]
    ]

    IsOpen-or_gone : IsOpen id w ⊎ (count id (active next) ≡ 0)
    IsOpen-or_gone = elim lets.1 [
      | inl h ↦ inl h.2
      | inr h ↦ elim h.1 [
        | inl q ↦ inr (rw (ids_after id, h.0, q) (omega (arith, self_active, i.once id)))
        | inr q ↦ inl q.1
      ]
    ]

    lets-Inv : Inv p next
    lets-Inv =
        Inv-shrunk p s next i held_as_before
          (λ k j found done. elim (Bool-cases (str_eq k id)) [
            | inl t ↦ elim IsOpen-or_gone [
              | inl o ↦ absurd (o j (rw (str_eq→≡ k id t) at found) done)
              | inr g ↦ inr (rw (str_eq→≡ k id t) g)
            ]
            | inr f ↦ inl (sym (lets.0.rows k f) ∙ found)
          ])
          (λ k. rw (lets.0.ids_same) (omega arith))
          (λ k h.
            omega
              (arith, h, held_as_before k, ids_before k, self_only k, count-append k late s.unsure))

  left_self :
      (c : Call) (q q' : List Str) (k : Str)
      → count k (left_unsure c id q q') ≤ (if str_eq k id then 1 else 0)
  left_self answered q q' k = omega arith
  left_self refused q q' k = omega arith
  left_self lost q q' k = elim (Bool-cases (ltb (length q) (length q'))) [
    | inl t ↦ rw t (omega arith)
    | inr f ↦ rw f (omega arith)
  ]

  pub work-Inv :
      (dispatch : Dispatch) (ev : JobEvents)
      → let (w, rest) = advance p api cfg dispatch ev t s.world in
        Inv p (record s {
          world = w;
          tasks = before ++ (rest ++ after);
          unsure = left_unsure ev.push_back id s.world.queue w.queue ++ s.unsure;
        })
  work-Inv dispatch ev =
      let (w, rest) = advance p api cfg dispatch ev t s.world in
      lets-Inv w rest (left_unsure ev.push_back id s.world.queue w.queue)
        (advance-Lets p api cfg dispatch ev t s.world self_canonical self-IsOpen)
        (left_self ev.push_back s.world.queue w.queue)

  pub killed-Inv : Inv p (record s { tasks = before ++ after })
  killed-Inv =
      Inv-kept p s (record s { tasks = before ++ after }) i
        (λ k.
          rw
            (
              ids_before k,
              count-append k (task_ids (before ++ after)) s.world.queue,
              task_ids-append before after,
              count-append k (task_ids before) (task_ids after),
            )
            (omega arith))
        (λ k j found done. inl found) (λ k. omega arith) (λ k. omega arith)
