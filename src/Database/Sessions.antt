-- ===== src/Database/Sessions.antt =====
-- The counters of a session.
pub mod Runs
use ilove_convertion.Base.{
  ℕ, ◌+◌, ◌≤◌, ◌<◌, ◌↔◌, leb, ◌≡◌, refl, ap, ◌⊎◌, inl, inr, true, false, Option, none, some, List,
  [], ◌∷◌, Str, str_eq, str_eq→≡, str_eq_refl, if◌then◌else◌, Bool-cases, arith,
}
use ilove_convertion.Models.{Session}
use ilove_convertion.Database.{first_touch, touched, touch_session}

-- The session of an address.
unfoldable pub find_session : Str → List Session → Option Session
find_session ip [] = none
find_session ip (s ∷ ss) = if str_eq s.ip_address ip then some s else find_session ip ss

abbrev pub touched_or_new : Str → Str → ℕ → ℕ → Option Session → Session
touched_or_new new_id ip threshold now none = first_touch new_id ip now
touched_or_new new_id ip threshold now (some s) = touched threshold now s

pub touch_session_lem :
    (new_id ip : Str) (threshold now : ℕ) (ss : List Session)
    → let (ss', s) = touch_session new_id ip threshold now ss in
      (s ≡ touched_or_new new_id ip threshold now (find_session ip ss))
      × (find_session ip ss' ≡ some s)
      × ((other : Str) → str_eq ip other ≡ false → find_session other ss' ≡ find_session other ss)
unfolding touch_session find_session
touch_session_lem new_id ip threshold now [] = (refl, rw str_eq_refl, λ other h. rw h)
touch_session_lem new_id ip threshold now (s ∷ ss) = elim (Bool-cases (str_eq s.ip_address ip)) [
  | inl t ↦ rw t (
    refl,
    unfold touched in rw t,
    λ other h.
        let e : str_eq s.ip_address other ≡ false = rw (str_eq→≡ s.ip_address ip t) h in
        unfold touched in rw e,
  )
  | inr f ↦
      let ih = touch_session_lem new_id ip threshold now ss in
      rw f (
        ih.0,
        rw f ih.1,
        λ other h. ap (λ o. if str_eq s.ip_address other then some s else o) (ih.2 other h),
      )
]

-- A session that is made by the first request of an address.
abbrev pub IsFirst : Str → Str → ℕ → Session → Type 0
IsFirst new_id ip now s =
    (s.id ≡ new_id)
    × (s.ip_address ≡ ip)
    × (s.created_at ≡ now)
    × (s.last_request_at ≡ now)
    × (s.hourly_request_count ≡ 1)
    × (s.total_request_count ≡ 1)
    × (s.is_flagged ≡ false)

-- A session after one more request at `now`.
abbrev pub IsMovedOn : ℕ → ℕ → Session → Session → Type 0
IsMovedOn threshold now old s =
    (s.id ≡ old.id)
    × (s.ip_address ≡ old.ip_address)
    × (s.created_at ≡ old.created_at)
    × (s.last_request_at ≡ now)
    × (s.total_request_count ≡ old.total_request_count + 1)
    × (old.last_request_at + 3600 < now → s.hourly_request_count ≡ 1)
    × (now ≤ old.last_request_at + 3600 → s.hourly_request_count ≡ old.hourly_request_count + 1)
    × ((s.is_flagged ≡ true)
        ↔ ((old.is_flagged ≡ true) ⊎ (threshold ≤ old.total_request_count + 1)))

abbrev pub IsCounted : Str → Str → ℕ → ℕ → Option Session → Session → Type 0
IsCounted new_id ip threshold now none s = IsFirst new_id ip now s
IsCounted new_id ip threshold now (some old) s = IsMovedOn threshold now old s

pub touched-IsMovedOn :
    (threshold now : ℕ) (old : Session) → IsMovedOn threshold now old (touched threshold now old)
unfolding touched
touched-IsMovedOn threshold now old = (
  refl,
  refl,
  refl,
  refl,
  refl,
  (λ h. ground arith),
  (λ h. ground arith),
  ((λ h. flagged h), λ h. flags h),
)
  where
    flagged :
        (if leb threshold (old.total_request_count + 1) then true else old.is_flagged) ≡ true
        → (old.is_flagged ≡ true) ⊎ (threshold ≤ old.total_request_count + 1)
    flagged h = elim (Bool-cases (leb threshold (old.total_request_count + 1))) [
      | inl t ↦ inr (ground (arith, t))
      | inr f ↦ inl (rw f at h)
    ]

    flags :
        (old.is_flagged ≡ true) ⊎ (threshold ≤ old.total_request_count + 1)
        → (if leb threshold (old.total_request_count + 1) then true else old.is_flagged) ≡ true
    flags (inl f) = ground (arith, f)
    flags (inr l) = ground (arith, l)

touched_or_new-IsCounted :
    (new_id ip : Str) (threshold now : ℕ) (o : Option Session)
    → IsCounted new_id ip threshold now o (touched_or_new new_id ip threshold now o)
touched_or_new-IsCounted new_id ip threshold now none = (refl, refl, refl, refl, refl, refl, refl)
touched_or_new-IsCounted new_id ip threshold now (some s) = touched-IsMovedOn threshold now s

-- TouchSession gives what the table then holds for the address, and leaves the session of each
-- other address. If the address had no session, it is a new one with both counts 1 and no flag;
-- otherwise the total is one more, the hourly count is 1 if the last request is more than an hour
-- ago and one more if not, and it is flagged exactly if it was or the new total has reached the
-- threshold. Addresses are in one text form each.
pub touch_session-find_session :
    (new_id ip other : Str) (threshold now : ℕ) (ss : List Session)
    → str_eq ip other ≡ false
    → let (ss', s) = touch_session new_id ip threshold now ss in
      (find_session ip ss' ≡ some s)
      × (find_session other ss' ≡ find_session other ss)
      × IsCounted new_id ip threshold now (find_session ip ss) s
touch_session-find_session new_id ip other threshold now ss h =
    let l = touch_session_lem new_id ip threshold now ss in
    (
      l.1,
      l.2 other h,
      rw l.0 (touched_or_new-IsCounted new_id ip threshold now (find_session ip ss)),
    )
