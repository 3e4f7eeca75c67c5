-- ===== src/Api/Delete/Ticker.antt =====
-- startCleanup of cmd/api/main.go: a cleanup at once, and one at each tick of time.NewTicker, which
-- panics if its interval is not positive.
use ilove_convertion.Base.{ℕ, Option, none, some, List, [], ◌∷◌, if◌then◌else◌}
use ilove_convertion.Base.Int.{ℤ, pos, negsuc, ◌*ℤ◌, leb_ℤ}
use ilove_convertion.Config.Load.{Config, int64}
use ilove_convertion.Database.{Call}
use ilove_convertion.World.{World}
use ilove_convertion.Api.Delete.{run_cleanup}

abbrev minute : ℤ
minute = pos 60000000000

-- The ticks: the time, and what the calls of the cleanup meet.
run_ticks : List (ℕ × (Call × Call)) → World → World
run_ticks [] w = w
run_ticks ((now, (c, c')) ∷ ticks) w = run_ticks ticks (run_cleanup c c' (record w { now = now }))

-- `none` if NewTicker panics.
unfoldable pub start_cleanup : ℤ → Call × Call → List (ℕ × (Call × Call)) → World → Option World
unfolding run_ticks int64 ◌*ℤ◌
start_cleanup minutes (c, c') ticks w =
    if leb_ℤ (int64 (minutes *ℤ minute)) (pos 0)
    then none
    else some (run_ticks ticks (run_cleanup c c' w))

-- The most minutes that a time.Duration holds.
abbrev pub most_minutes : ℤ
most_minutes = pos 153722867

abbrev pub least_minutes : ℤ
least_minutes = negsuc 153722866
