-- ===== src/Database/Sessions/Runs.antt =====
-- The hourly count of an address over requests and the ResetHourlyCounts of cleanups.
use ilove_convertion.Base.{
  ℕ, ◌+◌, ◌≤◌, ◌<◌, ◌&&◌, lt→ltb, Bool, zero, suc, ltb, sym, ◌∙◌, ◌≡◌, refl, ap, ◌⊎◌, inl, inr,
  true, false, Option, none, some, List, [], ◌∷◌, Str, str_eq, str_eq→≡, if◌then◌else◌, Bool-cases,
  arith,
}
use ilove_convertion.Models.{Session}
use ilove_convertion.Database.{hour, touched, touch_session, reset_hourly_counts}
use ilove_convertion.Database.Sessions.{
  find_session, touched_or_new, touch_session_lem, touched-IsMovedOn,
}

-- What happens to the sessions in the course of time: a request of an address, with the id that a
-- new session would get, and the ResetHourlyCounts of a cleanup.
pub data Event : Type 0 where
  request : Str → Str → ℕ → Event
  reset : ℕ → Event

pub after_event : ℕ → Event → List Session → List Session
after_event threshold (request new_id ip t) ss = (touch_session new_id ip threshold t ss).0
after_event threshold (reset t) ss = reset_hourly_counts t ss

unfoldable pub run_events : ℕ → List Event → List Session → List Session
unfolding after_event
run_events threshold [] ss = ss
run_events threshold (e ∷ es) ss = run_events threshold es (after_event threshold e ss)

-- Each event comes at most an hour after the last request of the address before it.
abbrev pub IsSteady : Str → ℕ → List Event → Type 0
IsSteady ip last [] = Unit
IsSteady ip last (request n a t ∷ es) =
    (t ≤ last + 3600) × IsSteady ip (if str_eq a ip then t else last) es
IsSteady ip last (reset t ∷ es) = (t ≤ last + 3600) × IsSteady ip last es

-- The number of requests of the address.
abbrev pub requests_of : Str → List Event → ℕ
requests_of ip [] = 0
requests_of ip (request n a t ∷ es) = (if str_eq a ip then 1 else 0) + requests_of ip es
requests_of ip (reset t ∷ es) = requests_of ip es

-- ResetHourlyCounts on the session of an address.
abbrev reset_one : ℕ → Session → Session
reset_one now s =
    if ltb 0 s.hourly_request_count && ltb (s.last_request_at + hour) now
    then record s { hourly_request_count = 0 }
    else s

abbrev map_session : (Session → Session) → Option Session → Option Session
map_session g none = none
map_session g (some y) = some (g y)

reset_hourly_counts_lem :
    (ip : Str) (now : ℕ) (ss : List Session) (s : Session)
    → find_session ip ss ≡ some s
    → find_session ip (reset_hourly_counts now ss) ≡ some (reset_one now s)
unfolding reset_hourly_counts find_session
reset_hourly_counts_lem ip now [] s e = absurd (cc)
reset_hourly_counts_lem ip now (x ∷ ss) s e =
    by (Bool-cases (str_eq x.ip_address ip)) e (reset_hourly_counts_lem ip now ss s)
  where
    address : (reset_one now x).ip_address ≡ x.ip_address
    address =
        elim (Bool-cases (ltb 0 x.hourly_request_count && ltb (x.last_request_at + hour) now)) [
          | inl t ↦ rw t refl
          | inr f ↦ rw f refl
        ]

    by :
        (str_eq x.ip_address ip ≡ true) ⊎ (str_eq x.ip_address ip ≡ false)
        → (if str_eq x.ip_address ip then some x else find_session ip ss) ≡ some s
        → (find_session ip ss ≡ some s
            → find_session ip (reset_hourly_counts now ss) ≡ some (reset_one now s))
        → (if str_eq (reset_one now x).ip_address ip
            then some (reset_one now x)
            else find_session ip (reset_hourly_counts now ss))
          ≡ some (reset_one now s)
    by (inl t) e ih =
        let e' : some x ≡ some s = rw t at e in
        rw (address, t) (ap (map_session (reset_one now)) e')
    by (inr f) e ih = rw (address, f) (ih (rw f at e))

reset_one_recent : (now : ℕ) (s : Session) → now ≤ s.last_request_at + 3600 → reset_one now s ≡ s
reset_one_recent now s h = by (Bool-cases (ltb (s.last_request_at + hour) now))
  where
    neither : (b : Bool) → (if b && false then record s { hourly_request_count = 0 } else s) ≡ s
    neither true = refl
    neither false = refl

    by :
        (ltb (s.last_request_at + hour) now ≡ true) ⊎ (ltb (s.last_request_at + hour) now ≡ false)
        → reset_one now s ≡ s
    by (inl t) = absurd (ground (arith, t, h))
    by (inr f) = rw f (neither (ltb 0 s.hourly_request_count))

reset_one_silent :
    (now : ℕ) (s : Session)
    → s.last_request_at + 3600 < now
    → (reset_one now s).hourly_request_count ≡ 0
reset_one_silent now s h =
    rw (lt→ltb (s.last_request_at + hour) now h) (by s.hourly_request_count refl)
  where
    by :
        (n : ℕ)
        → s.hourly_request_count ≡ n
        → (if ltb 0 n && true
            then record s { hourly_request_count = 0 }
            else s).hourly_request_count
          ≡ 0
    by zero e = e
    by (suc n) e = rw (lt→ltb 0 (suc n) (omega arith)) refl

-- The session of an address after a run of steady events.
run_events_lem :
    (threshold : ℕ) (ip : Str) (es : List Event) (ss : List Session) (s : Session)
    → find_session ip ss ≡ some s
    → IsSteady ip s.last_request_at es
    → (u : Session) × (find_session ip (run_events threshold es ss) ≡ some u)
      × (u.hourly_request_count ≡ s.hourly_request_count + requests_of ip es)
unfolding run_events
run_events_lem threshold ip [] ss s found h = (s, found, omega arith)
run_events_lem threshold ip (reset t ∷ es) ss s found (near, h) =
    run_events_lem threshold ip es (reset_hourly_counts t ss) s
      (reset_hourly_counts_lem ip t ss s found ∙ ap some (reset_one_recent t s near)) h
run_events_lem threshold ip (request n a t ∷ es) ss s found (near, h) =
    by (Bool-cases (str_eq a ip)) (touch_session_lem n a threshold t ss)
      (λ (v : Session). run_events_lem threshold ip es (touch_session n a threshold t ss).0 v)
  where
    moved :
        (v : Session)
        → v ≡ touched threshold t s
        → (v.last_request_at ≡ t) × (v.hourly_request_count ≡ s.hourly_request_count + 1)
    moved v e = let m = touched-IsMovedOn threshold t s in rw e (m.3, m.6 near)

    by :
        (str_eq a ip ≡ true) ⊎ (str_eq a ip ≡ false)
        → (let (ss', v) = touch_session n a threshold t ss in
            (v ≡ touched_or_new n a threshold t (find_session a ss))
            × (find_session a ss' ≡ some v)
            × ((other : Str)
                → str_eq a other ≡ false
                → find_session other ss' ≡ find_session other ss))
        → ((v : Session)
            → find_session ip (touch_session n a threshold t ss).0 ≡ some v
            → IsSteady ip v.last_request_at es
            → (u : Session) × (find_session ip
                  (run_events threshold es (touch_session n a threshold t ss).0)
                ≡ some u)
              × (u.hourly_request_count ≡ v.hourly_request_count + requests_of ip es))
        → (u : Session) × (find_session ip
              (run_events threshold es (touch_session n a threshold t ss).0)
            ≡ some u)
          × (u.hourly_request_count
              ≡ s.hourly_request_count + ((if str_eq a ip then 1 else 0) + requests_of ip es))
    by (inr f) l ih =
        let (u, there, n) = ih s (l.2 ip f ∙ found) (rw f at h) in
        (u, there, rw f (omega (arith, n)))
    by (inl e) l ih =
        let same : a ≡ ip = str_eq→≡ a ip e in
        let (last, count) =
          moved (touch_session n a threshold t ss).1 (
            l.0 ∙ ap (touched_or_new n a threshold t) (ap (λ k. find_session k ss) same ∙ found)) in
        let (u, there, n) =
          ih (touch_session n a threshold t ss).1
            (ap (λ k. find_session k (touch_session n a threshold t ss).0) (sym same) ∙ l.1)
            (rw last (rw e at h)) in
        (u, there, rw e (omega (arith, n, count)))

-- The hourly count of an address over requests of any addresses and cleanups, each at most an hour
-- after the last request of the address before it: it grows by the number of the address's requests
-- and no cleanup resets it, however long the run lasts. Once the address has been silent for more
-- than an hour, a cleanup sets the count to 0, and its next request to 1.
pub run_events-IsSteady :
    (threshold : ℕ) (new_id ip : Str) (es : List Event) (ss : List Session) (s : Session)
    → find_session ip ss ≡ some s
    → IsSteady ip s.last_request_at es
    → let ss' = run_events threshold es ss in
      (u : Session) × (find_session ip ss' ≡ some u)
      × (u.hourly_request_count ≡ s.hourly_request_count + requests_of ip es)
      × ((now : ℕ)
          → u.last_request_at + 3600 < now
          → ((v : Session) × (find_session ip (reset_hourly_counts now ss') ≡ some v)
              × (v.hourly_request_count ≡ 0))
            × ((touch_session new_id ip threshold now ss').1.hourly_request_count ≡ 1))
run_events-IsSteady threshold new_id ip es ss s found h =
    let (u, there, n) = run_events_lem threshold ip es ss s found h in
    (
      u,
      there,
      n,
      λ now silent. (
        (
          reset_one now u,
          reset_hourly_counts_lem ip now (run_events threshold es ss) u there,
          reset_one_silent now u silent,
        ),
        renewed now u there silent,
      ),
    )
  where
    renewed :
        (now : ℕ) (u : Session)
        → find_session ip (run_events threshold es ss) ≡ some u
        → u.last_request_at + 3600 < now
        → (touch_session new_id ip threshold now
            (run_events threshold es ss)).1.hourly_request_count
          ≡ 1
    renewed now u there silent =
        let l = touch_session_lem new_id ip threshold now (run_events threshold es ss) in
        let m = touched-IsMovedOn threshold now u in
        ap (λ (v : Session). v.hourly_request_count)
          (l.0 ∙ ap (touched_or_new new_id ip threshold now) there)
        ∙ m.5 silent
