-- ===== src/Database/Tests.antt =====
-- The counters of a session on concrete requests.
use ilove_convertion.Base.{ℕ, ◌+◌, ◌<◌, ◌≡◌, refl, some, List, [], ◌∷◌, codes, str_eq, arith}
use ilove_convertion.Models.{Session}
use ilove_convertion.Database.{first_touch, touch_session, reset_hourly_counts}
use ilove_convertion.Database.Sessions.{find_session, IsCounted, touch_session-find_session}
use ilove_convertion.Database.Sessions.Runs.{Event, request, reset, run_events, run_events-IsSteady}

abbrev caller : Session
caller = first_touch (codes "s1") (codes "10.0.0.1") 900

touch_example :
    let (ss', s) = touch_session (codes "s2") (codes "10.0.0.1") 100 950 (caller ∷ []) in
    (find_session (codes "10.0.0.1") ss' ≡ some s)
    × (find_session (codes "10.0.0.2") ss' ≡ find_session (codes "10.0.0.2") (caller ∷ []))
    × IsCounted
        (codes "s2")
        (codes "10.0.0.1")
        100
        950
        (find_session (codes "10.0.0.1") (caller ∷ []))
        s
unfolding str_eq
touch_example =
    touch_session-find_session (codes "s2") (codes "10.0.0.1") (codes "10.0.0.2") 100 950
      (caller ∷ []) refl

-- Three hours of requests, with a cleanup and the request of another address among them.
abbrev events : List Event
events =
    request (codes "s2") (codes "10.0.0.1") 4000
    ∷ reset 7000
    ∷ request (codes "s3") (codes "10.0.0.2") 7100
    ∷ request (codes "s4") (codes "10.0.0.1") 7500
    ∷ request (codes "s5") (codes "10.0.0.1") 11000
    ∷ []

caller_found : find_session (codes "10.0.0.1") (caller ∷ []) ≡ some caller
unfolding str_eq find_session
caller_found = refl

steady_example :
    let ss' = run_events 100 events (caller ∷ []) in
    (u : Session) × (find_session (codes "10.0.0.1") ss' ≡ some u)
    × (u.hourly_request_count ≡ 1 + 3)
    × ((now : ℕ)
        → u.last_request_at + 3600 < now
        → ((v : Session) × (find_session (codes "10.0.0.1") (reset_hourly_counts now ss') ≡ some v)
            × (v.hourly_request_count ≡ 0))
          × ((touch_session (codes "s6") (codes "10.0.0.1") 100 now ss').1.hourly_request_count
              ≡ 1))
unfolding str_eq
steady_example =
    run_events-IsSteady 100 (codes "s6") (codes "10.0.0.1") events (caller ∷ []) caller caller_found
      (omega arith)
