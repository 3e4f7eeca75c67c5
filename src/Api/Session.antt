-- ===== src/Api/Session.antt =====
-- sessionMiddleware and clientIP of cmd/api/middleware.go, over the upsert of TouchSession.
pub mod Limits
use ilove_convertion.Base.{
  Bool, true, false, Option, none, some, [], ◌∷◌, Str, codes, is_empty, trim_space, ltb, ◌==◌,
  if◌then◌else◌,
}
use ilove_convertion.Models.{Session}
use ilove_convertion.Database.{Call, perform, touch_session}
use ilove_convertion.World.{World, ApiConfig}
use ilove_convertion.Api.{Response, failure}

-- The parts of a request that clientIP reads; the host that net.SplitHostPort finds in the remote
-- address, `none` if it finds an error.
pub record ClientRequest : Type 0 where
  pub x_real_ip : Str
  pub x_forwarded_for : Str
  pub remote_addr : Str
  pub remote_host : Option Str

-- strings.SplitN(xff, ",", 2)[0]
before_comma : Str → Str
before_comma [] = []
before_comma (c ∷ s) = let rest = c ∷ before_comma s in if c == b',' then [] else rest

abbrev remote : ClientRequest → Option Str → Str
remote r none = r.remote_addr
remote r (some host) = host

unfoldable pub client_ip : ClientRequest → Str
unfolding before_comma
client_ip r =
    let real = trim_space r.x_real_ip in
    let first = trim_space (before_comma r.x_forwarded_for) in
    if is_empty real then if is_empty first then remote r r.remote_host else first else real

-- What the middleware does: answer, or call the handler with the session.
pub data Gate : Type 0 where
  stopped : Response → Gate
  passed : Session → Gate

gate : ApiConfig → Session → Gate
gate cfg s =
    if s.is_flagged
    then stopped (failure 403 (codes "Access restricted. Too many requests from this IP."))
    else if ltb cfg.rate_limit_per_hour s.hourly_request_count
    then stopped (failure 429 (codes "Rate limit exceeded. Please try again later."))
    else passed s

after_touch : ApiConfig → Bool → Session → Gate
unfolding gate
after_touch cfg false s = stopped (failure 500 (codes "Session error"))
after_touch cfg true s = gate cfg s

-- `new_id` is the id that the database gives a new session.
unfoldable pub session_middleware : ApiConfig → Call → Str → ClientRequest → World → World × Gate
unfolding after_touch
session_middleware cfg c new_id r w =
    let ip = client_ip r in
    let (sessions, s) = touch_session new_id ip cfg.flag_threshold w.now w.sessions in
    let (sessions', ok) = perform c w.sessions sessions in
    if is_empty ip
    then (w, stopped (failure 400 (codes "Could not determine client IP")))
    else (record w { sessions = sessions' }, after_touch cfg ok s)
