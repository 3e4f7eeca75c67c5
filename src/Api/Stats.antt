-- ===== src/Api/Stats.antt =====
-- handleHealth and handleAdminStats of cmd/api/handlers.go, with UsedBytes and UsedMB of
-- internal/storage/storage.go.
use ilove_convertion.Base.{
  ℕ, ◌+◌, ◌*◌, ◌/◌, Bool, Option, none, some, [], ◌∷◌, Str, codes, length, if◌then◌else◌,
}
use ilove_convertion.Database.Stats.{AdminStats, get_admin_stats}
use ilove_convertion.Queue.{queue_length}
use ilove_convertion.Storage.{Files, Storage}
use ilove_convertion.World.{World}
use ilove_convertion.Api.{health_body, ok_body, stats_body, Response, failure}

-- errStr
unfoldable pub err_str : Option Str → Str
err_str none = codes "ok"
err_str (some e) = e

degraded : Option Str → Option Str → Response
unfolding err_str
degraded db queue = record { code = 503; body = health_body (err_str db) (err_str queue) }

-- The errors of the two pings.
unfoldable pub handle_health : Option Str → Option Str → Response
unfolding degraded
handle_health none none = record { code = 200; body = ok_body }
handle_health none (some e) = degraded none (some e)
handle_health (some e) queue = degraded (some e) queue

file_bytes : Files → ℕ
file_bytes [] = 0
file_bytes ((name, b) ∷ fs) = length b + file_bytes fs

-- UsedBytes where the walk meets no error.
unfoldable pub used_bytes : Storage → ℕ
unfolding file_bytes
used_bytes s = file_bytes s.inputs + file_bytes s.outputs

unfoldable pub used_mb : Storage → ℕ
unfolding used_bytes
used_mb s = used_bytes s / (1024 * 1024)

-- The length of the queue, if Redis answers, takes the place of the count of pending rows.
with_queue : Bool → World → AdminStats → AdminStats
unfolding queue_length
with_queue answers w s = if answers then record s { queue_length = queue_length w.queue } else s

stats_response : Bool → World → Option AdminStats → Response
unfolding with_queue used_mb
stats_response answers w none = failure 500 (codes "Failed to fetch stats")
stats_response answers w (some s) = record {
  code = 200;
  body = stats_body (with_queue answers w (record s { storage_used_mb = used_mb w.store }));
}

unfoldable pub handle_admin_stats : Bool → Bool → World → Response
unfolding stats_response
handle_admin_stats reached answers w =
    stats_response answers w (get_admin_stats reached w.now w.jobs w.sessions)
