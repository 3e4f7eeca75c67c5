-- ===== src/Config/Load/Defaults.antt =====
-- What Load makes of the variables of the environment.
use ilove_convertion.Base.{
  ◌≡◌, ◌≢◌, refl, sym, ap, some, [], ◌∷◌, Str, codes, str_eq, is_empty, if◌then◌else◌,
}
use ilove_convertion.Base.Int.{ℤ, pos}
use ilove_convertion.Crypto.{Bytes}
use ilove_convertion.Form.{atoi}
use ilove_convertion.Config.{Loaded, loaded, load_error, load_key, env_int, or_fallback}
use ilove_convertion.Config.Load.{Config, configured, load, with_key}

abbrev pub key_name : Str
key_name = codes "ENCRYPTION_MASTER_KEY"

-- The environment in which only the master key is set.
unfoldable pub only_key : Str → Str → Str
unfolding str_eq
only_key text name = if str_eq name key_name then text else []

-- The integer of a variable that has one, and where Load puts the one of the cleanup.
pub env_int_set :
    (getenv : Str → Str) (name : Str) (fallback i : ℤ)
    → getenv name ≢ []
    → atoi (getenv name) ≡ some i
    → env_int getenv name fallback ≡ i
unfolding env_int
env_int_set getenv name fallback i set read = by (getenv name) set read
  where
    by :
        (v : Str)
        → v ≢ []
        → atoi v ≡ some i
        → (if is_empty v then fallback else or_fallback getenv fallback (atoi v)) ≡ i
    by [] set read = absurd (set refl)
    by (c ∷ v) set read = rw read refl

pub load_interval :
    (getenv : Str → Str) (cfg : Config)
    → load getenv ≡ loaded cfg
    → cfg.cleanup_interval_min ≡ env_int getenv (codes "CLEANUP_INTERVAL_MINUTES") (pos 10)
unfolding load
load_interval getenv cfg e = by (load_key (getenv key_name)) e
  where
    interval_of : Loaded Config → ℤ
    interval_of (load_error e) = pos 10
    interval_of (loaded c) = c.cleanup_interval_min

    by :
        (r : Loaded Bytes)
        → with_key getenv r ≡ loaded cfg
        → cfg.cleanup_interval_min ≡ env_int getenv (codes "CLEANUP_INTERVAL_MINUTES") (pos 10)
    by (load_error x) e = absurd (unfold with_key in cc)
    by (loaded key) e = sym (ap interval_of (unfold with_key configured in e))

-- A key that is accepted is all that Load needs.
pub load-configured :
    (getenv : Str → Str) (key : Bytes)
    → load_key (getenv key_name) ≡ loaded key
    → load getenv ≡ loaded (configured getenv key)
unfolding load with_key
load-configured getenv key h = rw h refl
