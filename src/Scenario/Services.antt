-- ===== src/Scenario/Services.antt =====
-- Start-up, the configuration and the routes of the API at concrete data.
use ilove_convertion.Base.{ℕ, ◌⊎◌, true, none, Str, codes, str_eq, ltb, if◌then◌else◌}
use ilove_convertion.Config.Tests.{hex_text}
use ilove_convertion.Config.Load.{Config}
use ilove_convertion.Config.Load.Defaults.{only_key}
use ilove_convertion.Database.{answered}
use ilove_convertion.Startup.{Attempt, ping_failed, connected, no_pools, new_database}
use ilove_convertion.Startup.Waiting.{Ends, new_database-Ends}
use ilove_convertion.Api.Router.{jobs, delete_job, ServeEvents, serve}
use ilove_convertion.Api.Router.Gated.{SameJobs, IsWrite, serve_writes}
use ilove_convertion.Scenario.Requests.{request}
use ilove_convertion.Scenario.{platform, api_config, job_id, empty_world, upload_events}

-- PostgreSQL answers from the third attempt on.
abbrev third : ℕ → Attempt
third n = if ltb n 3 then ping_failed else connected

waiting_example : Ends third 30 1 no_pools (new_database third)
waiting_example = new_database-Ends third

-- A cleanup every 0 minutes.
abbrev no_interval : Str → Str
no_interval name =
    if str_eq name (codes "CLEANUP_INTERVAL_MINUTES") then codes "0" else only_key hex_text name

abbrev serve_events : ServeEvents
serve_events = record {
  touch = answered;
  new_session = codes "s1";
  upload = upload_events;
  delete = answered;
  reached = true;
  queue_answers = true;
  room = 100;
  database_ping = none;
  queue_ping = none;
}

serve_example :
    SameJobs empty_world
      (serve platform api_config serve_events request (jobs (delete_job job_id)) empty_world).0
    ⊎ IsWrite platform api_config serve_events request (jobs (delete_job job_id)) empty_world
serve_example =
    serve_writes platform api_config serve_events request (jobs (delete_job job_id)) empty_world
