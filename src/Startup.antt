-- ===== src/Startup.antt =====
-- What the two programs do before their work: New of internal/database and of internal/queue, which
-- wait for PostgreSQL and Redis. The replies of the services are a parameter, by attempt.
pub mod Waiting
use ilove_convertion.Base.{ℕ, zero, suc, ◌+◌, Bool, true, false, if◌then◌else◌}

-- sql.Open and PingContext of one attempt.
pub data Attempt : Type 0 where
  open_failed ping_failed connected : Attempt

-- What an attempt leaves: the pools that were opened and closed so far, and the seconds slept.
pub record Pools : Type 0 where
  pub opened : ℕ
  pub closed : ℕ
  pub slept : ℕ

abbrev pub no_pools : Pools
no_pools = record { opened = 0; closed = 0; slept = 0 }

after_attempt : Attempt → Pools → Pools
after_attempt open_failed s = record s { slept = s.slept + 1 }
after_attempt ping_failed s = record s {
  opened = s.opened + 1;
  closed = s.closed + 1;
  slept = s.slept + 1;
}
after_attempt connected s = record s { opened = s.opened + 1 }

is_connected : Attempt → Bool
is_connected open_failed = false
is_connected ping_failed = false
is_connected connected = true

-- The loop from an attempt on, with the attempts that are left: whether it ends with a connection.
connect_from : (ℕ → Attempt) → ℕ → ℕ → Pools → Pools × Bool
unfolding after_attempt is_connected
connect_from replies zero attempt s = (s, false)
connect_from replies (suc left) attempt s =
    let next = after_attempt (replies attempt) s in
    let rest = connect_from replies left (attempt + 1) next in
    if is_connected (replies attempt) then (next, true) else rest

-- database.New
unfoldable pub new_database : (ℕ → Attempt) → Pools × Bool
unfolding connect_from
new_database replies = connect_from replies 30 1 no_pools

-- queue.New: one client for all attempts, which is closed if none of them succeeds.
ping_from : (ℕ → Bool) → ℕ → ℕ → Pools → Pools × Bool
ping_from replies zero attempt s = (record s { closed = s.closed + 1 }, false)
ping_from replies (suc left) attempt s =
    let rest = ping_from replies left (attempt + 1) (record s { slept = s.slept + 1 }) in
    if replies attempt then (s, true) else rest

unfoldable pub new_queue : (ℕ → Bool) → Pools × Bool
unfolding ping_from
new_queue replies = ping_from replies 30 1 (record no_pools { opened = 1 })
