-- ===== src/Api/Session/Limits.antt =====
-- Which requests the middleware lets through.
use ilove_convertion.Base.{
  ◌≤◌, ◌≡◌, refl, ◌↔◌, inl, inr, Bool, false, Str, is_empty, ap, sym, ltb, Bool-cases, arith,
}
use ilove_convertion.Models.{Session}
use ilove_convertion.Database.{Call, answered, refused, lost, perform, touch_session}
use ilove_convertion.Database.Sessions.{find_session, touched_or_new, touch_session_lem}
use ilove_convertion.World.{World, ApiConfig}
use ilove_convertion.Api.Session.{
  ClientRequest, client_ip, passed, gate, after_touch, session_middleware,
}

-- What a session needs to pass.
abbrev pub Allowed : ApiConfig → Session → Type 0
Allowed cfg s = (s.is_flagged ≡ false) × (s.hourly_request_count ≤ cfg.rate_limit_per_hour)

gate_iff : (cfg : ApiConfig) (s t : Session) → (gate cfg s ≡ passed t) ↔ ((t ≡ s) × Allowed cfg s)
unfolding gate
gate_iff cfg s t = elim (Bool-cases s.is_flagged) [
  | inl f ↦ rw f ((λ h. absurd (cc)), λ h. absurd (cc (h.1.0)))
  | inr g ↦ elim (Bool-cases (ltb cfg.rate_limit_per_hour s.hourly_request_count)) [
    | inl f ↦ rw (g, f) ((λ h. absurd (cc)), λ h. absurd (ground arith))
    | inr k ↦ rw (g, k) ((λ h. (ground arith, (refl, ground arith))), λ h. ap passed (sym h.0))
  ]
]

-- The session that the request leads to, its counters moved on or new.
abbrev pub session_of : ApiConfig → Str → ClientRequest → World → Session
session_of cfg new_id r w =
    touched_or_new new_id (client_ip r) cfg.flag_threshold w.now
      (find_session (client_ip r) w.sessions)

-- A request goes on to its handler exactly if it has an address, the database answered, and the
-- address's session, with this request counted, is not flagged and within the hourly limit; the
-- handler then gets that session.
pub session_middleware_passes_iff :
    (cfg : ApiConfig) (c : Call) (new_id : Str) (r : ClientRequest) (w : World) (t : Session)
    → ((session_middleware cfg c new_id r w).1 ≡ passed t) ↔ (
        (is_empty (client_ip r) ≡ false)
        × (c ≡ answered)
        × (t ≡ session_of cfg new_id r w)
        × Allowed cfg (session_of cfg new_id r w))
unfolding session_middleware after_touch
session_middleware_passes_iff cfg c new_id r w t = elim (Bool-cases (is_empty (client_ip r))) [
  | inl e ↦ rw e ((λ h. absurd (cc)), λ h. absurd (cc (h.0)))
  | inr e ↦ rw e (by c)
]
  where
    same :
        (touch_session new_id (client_ip r) cfg.flag_threshold w.now w.sessions).1
        ≡ session_of cfg new_id r w
    same = (touch_session_lem new_id (client_ip r) cfg.flag_threshold w.now w.sessions).0

    by :
        (c : Call)
        → (after_touch cfg
              (perform c w.sessions
                (touch_session new_id (client_ip r) cfg.flag_threshold w.now w.sessions).0).1
              (touch_session new_id (client_ip r) cfg.flag_threshold w.now w.sessions).1
            ≡ passed t)
          ↔ ((◌≡◌ {A = Bool} false false)
              × (c ≡ answered)
              × (t ≡ session_of cfg new_id r w)
              × Allowed cfg (session_of cfg new_id r w))
    by answered = rw same (
        let g = gate_iff cfg (session_of cfg new_id r w) t in
        ((λ h. (refl, refl, (g.0 h).0, (g.0 h).1)), λ h. g.1 (h.2, h.3)))
    by refused = ((λ h. absurd (cc)), λ h. absurd (cc (h.1)))
    by lost = ((λ h. absurd (cc)), λ h. absurd (cc (h.1)))

-- A request changes the sessions only.
pub session_middleware_world :
    (api : ApiConfig) (c : Call) (new_id : Str) (r : ClientRequest) (w : World)
    → let w' = (session_middleware api c new_id r w).0 in
      (w'.jobs ≡ w.jobs) × (w'.queue ≡ w.queue) × (w'.store ≡ w.store)
unfolding session_middleware
session_middleware_world api c new_id r w = elim (Bool-cases (is_empty (client_ip r))) [
  | inl t ↦ rw t (refl, refl, refl)
  | inr f ↦ rw f (refl, refl, refl)
]
