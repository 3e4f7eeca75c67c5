-- ===== src/Scenario/System.antt =====
-- Runs of the whole system at concrete data: two uploads that two workers hold, a finished job, and
-- a queue that drains.
use ilove_convertion.Base.{
  ◌≡◌, refl, true, false, Bool, none, List, [], ◌∷◌, Str, codes, str_eq, arith,
}
use ilove_convertion.Models.{image_convert, Job, output_name}
use ilove_convertion.Crypto.RoundTrip.{file}
use ilove_convertion.Crypto.RoundTrip.Tests.{toy, toy_nonce}
use ilove_convertion.Database.{find_job}
use ilove_convertion.World.{World}
use ilove_convertion.Api.Upload.{UploadEvents}
use ilove_convertion.Api.Upload.Atomic.{IsSmooth, stored, uploaded}
use ilove_convertion.Worker.{run, JobEvents}
use ilove_convertion.Worker.Outcomes.{finished, started, done}
use ilove_convertion.Worker.Rounds.{run_drains}
use ilove_convertion.System.{State, popped, Reach}
use ilove_convertion.Scenario.{
  platform, api_config, worker_config, converts, breaks, job_id, input, empty_world, session,
  png_params, photo, upload_events, job_events, png_job,
}
use ilove_convertion.Scenario
use ilove_convertion.Scenario.Jobs.{queued}

abbrev Reached : State → Type 0
Reached = Reach platform api_config worker_config

-- The first upload.
abbrev one_world : World
one_world = stored empty_world png_job (file toy [] toy_nonce input)

abbrev idle : World → State
idle w = record { world = w; tasks = []; unsure = [] }

-- The world after an upload of the same file under another id.
module _ (ev : UploadEvents) (w : World) (smooth : IsSmooth ev toy_nonce 5)
    (absent : find_job ev.new_id w.jobs ≡ none) where
  abbrev next : World
  next =
      stored w (uploaded api_config ev session image_convert photo png_params w.now)
        (file toy [] toy_nonce input)

abbrev second : UploadEvents
second = record upload_events { new_id = codes "j2" }

second-IsSmooth : IsSmooth second toy_nonce 5
second-IsSmooth = record {
  created = refl;
  opened = refl;
  random_nonce = refl;
  nonce_long = refl;
  room_enough = omega arith;
  synced = refl;
  pushed = refl;
}

no_second : find_job (codes "j2") one_world.jobs ≡ none
unfolding find_job str_eq
no_second = refl

abbrev two_world : World
two_world = next second one_world second-IsSmooth no_second

-- Two workers, each with one of the jobs.
abbrev two_held : State
two_held = record {
  world = record two_world { queue = [] };
  tasks = popped (codes "j2") ∷ popped job_id ∷ [];
  unsure = [];
}

-- A worker on its own finishes the first job.
abbrev one_round : List (Bool × JobEvents)
one_round = (true, job_events) ∷ []

abbrev png_name : Str
png_name = output_name (codes "a.jpg") (codes "png")

abbrev finished_world : World
finished_world =
    finished platform worker_config converts job_id png_name toy_nonce (codes "done")
      (record one_world { queue = [] })

abbrev finished_job : Job
finished_job = done 1000 png_name 4 (started 1000 png_job)

drains_example :
    (run platform worker_config breaks
      ((true, job_events) ∷ (false, job_events) ∷ (true, job_events) ∷ (true, job_events) ∷ [])
      (queued png_job)).queue
    ≡ []
drains_example =
    run_drains platform worker_config breaks 2
      ((true, job_events) ∷ (false, job_events) ∷ (true, job_events) ∷ (true, job_events) ∷ [])
      (queued png_job) (λ op. omega arith) (omega arith)
