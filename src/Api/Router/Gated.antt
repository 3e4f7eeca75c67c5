-- ===== src/Api/Router/Gated.antt =====
-- The changes that a request makes, by its endpoint and its session.
use ilove_convertion.Base.{◌≡◌, refl, ◌⊎◌, inl, inr, Bool, true, false}
use ilove_convertion.Models.{Session}
use ilove_convertion.World.{World, Platform, ApiConfig}
use ilove_convertion.Api.Session.{ClientRequest, Gate, stopped, passed, session_middleware}
use ilove_convertion.Api.Session.Limits.{session_middleware_world}
use ilove_convertion.Api.Router.{
  JobEndpoint, create_job, get_job, download, delete_job, Endpoint, health, formats, admin_stats,
  jobs, ServeEvents, job_handler, behind, serve,
}

-- The same rows of jobs, queue and files.
abbrev pub SameJobs : World → World → Type 0
SameJobs w w' = (w'.jobs ≡ w.jobs) × (w'.queue ≡ w.queue) × (w'.store ≡ w.store)

abbrev pub writes : JobEndpoint → Bool
writes (create_job r) = true
writes (get_job id) = false
writes (download id) = false
writes (delete_job id) = true

module _ (p : Platform) (api : ApiConfig) (ev : ServeEvents) where
  -- The request is an upload or a delete that passed the gate, and the world is as its handler
  -- leaves it.
  pub record IsWrite (c : ClientRequest) (e : Endpoint) (w : World) : Type 0 where
    pub endpoint : JobEndpoint
    pub session : Session
    pub is_endpoint : e ≡ jobs endpoint
    pub is_write : writes endpoint ≡ true
    pub allowed : (session_middleware api ev.touch ev.new_session c w).1 ≡ passed session
    pub handled :
        serve p api ev c e w
        ≡ job_handler p api ev endpoint session
            (session_middleware api ev.touch ev.new_session c w).0

  -- A request leaves the rows of jobs, the queue and the files as they are, unless it is an upload
  -- or a delete whose session the middleware lets pass; then its handler decides alone. So a caller
  -- who is flagged or over the limit changes none of them, nor do downloads and statistics.
  pub serve_writes :
      (c : ClientRequest) (e : Endpoint) (w : World)
      → SameJobs w (serve p api ev c e w).0 ⊎ IsWrite c e w
  unfolding serve
  serve_writes c health w = inl (refl, refl, refl)
  serve_writes c formats w = inl (refl, refl, refl)
  serve_writes c admin_stats w = inl (refl, refl, refl)
  serve_writes c (jobs e) w =
      by e (session_middleware api ev.touch ev.new_session c w) refl
        (session_middleware_world api ev.touch ev.new_session c w)
    where
      by :
          (e : JobEndpoint) (g : World × Gate)
          → session_middleware api ev.touch ev.new_session c w ≡ g
          → SameJobs w g.0
          → SameJobs w (behind p api ev e g).0 ⊎ IsWrite c (jobs e) w
      by e (w', stopped r) is same = unfold behind in inl same
      by (create_job r) (w', passed s) is same = inr (record {
        endpoint = create_job r;
        session = s;
        is_endpoint = refl;
        is_write = refl;
        allowed = rw is refl;
        handled = rw is (unfold behind in refl);
      })
      by (get_job id) (w', passed s) is same = unfold behind job_handler in inl same
      by (download id) (w', passed s) is same = unfold behind job_handler in inl same
      by (delete_job id) (w', passed s) is same = inr (record {
        endpoint = delete_job id;
        session = s;
        is_endpoint = refl;
        is_write = refl;
        allowed = rw is refl;
        handled = rw is (unfold behind in refl);
      })
