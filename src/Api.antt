-- ===== src/Api.antt =====
-- The responses of cmd/api/handlers.go; the handlers are in the modules below. A handler takes what
-- the outside does in its course (replies, read errors, random bytes) as an argument, and gives the
-- new world and the response.
pub mod Upload
pub mod Read
pub mod Delete
pub mod Session
pub mod Stats
pub mod Router
use ilove_convertion.Base.{ℕ, Option, Str}
use ilove_convertion.Models.{JobResponse}
use ilove_convertion.Form.{ParamError}
use ilove_convertion.Crypto.{Bytes}
use ilove_convertion.Database.Stats.{AdminStats}

pub data Body : Type 0 where
  job_body : JobResponse → Body
  message : Str → Body
  param_message : ParamError → Body
  -- Content-Type, file name, Content-Length, and the bytes sent.
  attachment : Str → Str → Option ℕ → Bytes → Body
  deleted_body : Str → Body
  ok_body formats_body : Body
  health_body : Str → Str → Body
  stats_body : AdminStats → Body

pub record Response : Type 0 where
  pub code : ℕ
  pub body : Body

abbrev pub failure : ℕ → Str → Response
failure code msg = record { code = code; body = message msg }
