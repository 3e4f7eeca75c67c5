-- ===== src/Config/Load.antt =====
-- The configuration that Load of internal/config/config.go makes of the environment, with the
-- connection texts made of it.
pub mod Defaults
use ilove_convertion.Base.{◌+◌, ◌-◌, ◌*◌, ◌%◌, ◌^◌, ◌++◌, Str, codes, ltb, if◌then◌else◌}
use ilove_convertion.Base.Int.{ℤ, pos, negsuc, ◌*ℤ◌}
use ilove_convertion.Models.{Operation}
use ilove_convertion.Crypto.{Bytes}
use ilove_convertion.Config.{
  Loaded, loaded, load_error, load_key, env_str, env_int, timeout_for, max_retries_for,
}
use ilove_convertion.Processor.{show_int}

-- A Go int64 of a product: it wraps round.
unfoldable pub int64 : ℤ → ℤ
int64 (pos n) = let m = n % 2 ^ 64 in if ltb m (2 ^ 63) then pos m else negsuc (2 ^ 64 - m - 1)
int64 (negsuc n) = let m = n % 2 ^ 64 in if ltb m (2 ^ 63) then negsuc m else pos (2 ^ 64 - m - 1)

-- A time.Duration counts nanoseconds.
abbrev pub second : ℤ
second = pos 1000000000

unfoldable pub sec_duration : ℤ → ℤ
unfolding int64 ◌*ℤ◌
sec_duration seconds = int64 (seconds *ℤ second)

pub record Config : Type 0 where
  pub api_port : ℤ
  pub db_host : Str
  pub db_port : ℤ
  pub db_user : Str
  pub db_password : Str
  pub db_name : Str
  pub redis_host : Str
  pub redis_port : ℤ
  pub redis_pool_size : ℤ
  pub master_key : Bytes
  pub rate_limit_per_hour : ℤ
  pub flag_threshold : ℤ
  pub max_file_size : ℤ
  pub storage_path : Str
  pub cleanup_interval_min : ℤ
  pub file_retention_hours : ℤ
  pub worker_concurrency : ℤ
  pub rembg_url : Str
  pub tmp_dir : Str
  pub timeouts : Operation → ℤ
  pub retries : Operation → ℤ

module _ (getenv : Str → Str) where
  unfoldable pub configured : Bytes → Config
  unfolding env_str env_int sec_duration timeout_for max_retries_for
  configured key = record {
    api_port = env_int getenv (codes "API_PORT") (pos 3015);
    db_host = env_str getenv (codes "POSTGRES_HOST") (codes "postgres");
    db_port = env_int getenv (codes "POSTGRES_PORT") (pos 5432);
    db_user = env_str getenv (codes "POSTGRES_USER") (codes "fileforge");
    db_password = env_str getenv (codes "POSTGRES_PASSWORD") (codes "changeme");
    db_name = env_str getenv (codes "POSTGRES_DB") (codes "fileforge");
    redis_host = env_str getenv (codes "REDIS_HOST") (codes "redis");
    redis_port = env_int getenv (codes "REDIS_PORT") (pos 6379);
    redis_pool_size = env_int getenv (codes "REDIS_POOL_SIZE") (pos 10);
    master_key = key;
    rate_limit_per_hour = env_int getenv (codes "RATE_LIMIT_PER_HOUR") (pos 60);
    flag_threshold = env_int getenv (codes "FLAG_THRESHOLD") (pos 200);
    max_file_size = env_int getenv (codes "MAX_FILE_SIZE") (pos 524288000);
    storage_path = env_str getenv (codes "STORAGE_PATH") (codes "/app/storage");
    cleanup_interval_min = env_int getenv (codes "CLEANUP_INTERVAL_MINUTES") (pos 10);
    file_retention_hours = env_int getenv (codes "FILE_RETENTION_HOURS") (pos 24);
    worker_concurrency = env_int getenv (codes "WORKER_CONCURRENCY") (pos 4);
    rembg_url = env_str getenv (codes "REMBG_URL") (codes "http://rembg:5000");
    tmp_dir = env_str getenv (codes "TMP_DIR") (codes "/tmp/processing");
    timeouts = λ op. sec_duration (timeout_for getenv op);
    retries = max_retries_for getenv;
  }

  with_key : Loaded Bytes → Loaded Config
  unfolding configured
  with_key (load_error e) = load_error e
  with_key (loaded key) = loaded (configured key)

  unfoldable pub load : Loaded Config
  unfolding with_key load_key
  load = with_key (load_key (getenv (codes "ENCRYPTION_MASTER_KEY")))

unfoldable pub dsn : Config → Str
unfolding show_int
dsn c =
    codes "host="
    ++ (c.db_host
        ++ (codes " port="
            ++ (show_int c.db_port
                ++ (codes " user="
                    ++ (c.db_user
                        ++ (codes " password="
                            ++ (c.db_password
                                ++ (codes " dbname="
                                    ++ (c.db_name ++ codes " sslmode=disable")))))))))

unfoldable pub redis_addr : Config → Str
unfolding show_int
redis_addr c = c.redis_host ++ (codes ":" ++ show_int c.redis_port)
