-- ===== src/Api/Router.antt =====
-- buildRouter of cmd/api/main.go: which handler an endpoint has, and which of them stand behind
-- sessionMiddleware. The matching of paths is chi's: an endpoint is a route with its parameters.
pub mod Gated
use ilove_convertion.Base.{ℕ, Bool, Option, some, Str}
use ilove_convertion.Models.{Session}
use ilove_convertion.Database.{Call}
use ilove_convertion.World.{World, Platform, ApiConfig}
use ilove_convertion.Api.{formats_body, Response}
use ilove_convertion.Api.Upload.{UploadRequest, UploadEvents, handle_create_job}
use ilove_convertion.Api.Read.{handle_get_job, handle_download}
use ilove_convertion.Api.Delete.{handle_delete_job}
use ilove_convertion.Api.Session.{ClientRequest, Gate, stopped, passed, session_middleware}
use ilove_convertion.Api.Stats.{handle_health, handle_admin_stats}

-- The routes behind the session middleware, and those before it.
pub data JobEndpoint : Type 0 where
  create_job : UploadRequest → JobEndpoint
  get_job download delete_job : Str → JobEndpoint

pub data Endpoint : Type 0 where
  health formats admin_stats : Endpoint
  jobs : JobEndpoint → Endpoint

-- What the outside does in the course of a request.
pub record ServeEvents : Type 0 where
  pub touch : Call
  pub new_session : Str
  pub upload : UploadEvents
  pub delete : Call
  pub reached : Bool
  pub queue_answers : Bool
  pub room : ℕ
  pub database_ping : Option Str
  pub queue_ping : Option Str

module _ (p : Platform) (api : ApiConfig) (ev : ServeEvents) where
  pub job_handler : JobEndpoint → Session → World → World × Response
  job_handler (create_job r) s w = handle_create_job p api ev.upload (some s) r w
  job_handler (get_job id) s w = (w, handle_get_job p ev.reached id w)
  job_handler (download id) s w =
      let d = handle_download p api.master_key ev.reached ev.room id w in (w, d.response)
  job_handler (delete_job id) s w = handle_delete_job p ev.delete id w

  behind : JobEndpoint → World × Gate → World × Response
  unfolding job_handler
  behind e (w, stopped r) = (w, r)
  behind e (w, passed s) = job_handler e s w

  unfoldable pub serve : ClientRequest → Endpoint → World → World × Response
  unfolding behind
  serve c health w = (w, handle_health ev.database_ping ev.queue_ping)
  serve c formats w = (w, record { code = 200; body = formats_body })
  serve c admin_stats w = (w, handle_admin_stats ev.reached ev.queue_answers w)
  serve c (jobs e) w = behind e (session_middleware api ev.touch ev.new_session c w)
