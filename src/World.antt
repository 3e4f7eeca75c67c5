-- ===== src/World.antt =====
-- What the API and the workers share: the tables, the queue, the storage volume and the clock; and
-- the configuration and the parts of the system that are not in this repository.
use ilove_convertion.Base.{ℕ, Bool, true, List, Str, ◌≡◌}
use ilove_convertion.Models.{Job, Session}
use ilove_convertion.Storage.{Storage}
use ilove_convertion.Crypto.{Bytes, Aead}

pub record World : Type 0 where
  pub jobs : List Job
  pub sessions : List Session
  pub queue : List Str
  pub store : Storage
  pub now : ℕ

-- PostgreSQL's reading of a uuid (its text form), google/uuid's test of one, AES-GCM and HKDF.
pub record Platform : Type 0 where
  pub canon : Str → Str
  pub is_uuid : Str → Bool
  pub aead : Aead
  pub hkdf : Bytes → Bytes → Bytes → Bytes

pub record ApiConfig : Type 0 where
  pub master_key : Bytes
  pub max_file_size : ℕ
  pub file_retention_hours : ℕ
  pub rate_limit_per_hour : ℕ
  pub flag_threshold : ℕ

-- What the code relies on: HKDF gives keys that AES
-- takes.
pub record IsPlatform (p : Platform) : Type 0 where
  pub keys_accepted :
      (secret salt info : Bytes) → p.aead.new_cipher (p.hkdf secret salt info) ≡ true
