-- ===== src/Worker/Cases.antt =====
-- How processJob ends from its key on: in a failure, in a retry, or with an output.
use ilove_convertion.Base.{ℕ, Option, none, some, [], ◌∷◌, Str, codes}
use ilove_convertion.Models.{JobParams, Job}
use ilove_convertion.Models.Params.{parse_params}
use ilove_convertion.Crypto.{Bytes}
use ilove_convertion.Crypto.Files.{FileError}
use ilove_convertion.World.{World, Platform}
use ilove_convertion.Worker.{
  WorkerConfig, Dispatch, Processed, processed, process_error, JobEvents, fail_job,
  handle_process_error, after_encrypt_file, after_dispatch, after_decrypt_file, with_params,
  with_key, no_output, decrypt_failed,
}

module _ (p : Platform) (cfg : WorkerConfig) (dispatch : Dispatch) (id : Str) (ev : JobEvents)
    (j : Job) (w : World) (R : World → Type 0)
    (fails : (msg : Str) → R (fail_job p cfg dispatch ev.fail id msg w))
    (retries : (msg : Str) → R (handle_process_error p cfg dispatch ev j.operation id msg w))
    (stores : (params : JobParams) (size : ℕ) (r : Option Bytes × Option FileError)
      → R (after_encrypt_file p cfg dispatch ev id j params size w r)) where
  after_dispatch-cases :
      (params : JobParams) (key : Bytes) (r : Processed)
      → R (after_dispatch p cfg dispatch ev id j params key w r)
  unfolding after_dispatch
  after_dispatch-cases params key (process_error msg) = retries msg
  after_dispatch-cases params key (processed none) = fails no_output
  after_dispatch-cases params key (processed (some [])) = fails no_output
  after_dispatch-cases params key (processed (some (b ∷ bs))) = stores params _ _

  after_decrypt_file-cases :
      (params : JobParams) (key : Bytes) (r : Option Bytes × Option FileError)
      → R (after_decrypt_file p cfg dispatch ev id j params key w r)
  unfolding after_decrypt_file
  after_decrypt_file-cases params key (file, some e) = fails decrypt_failed
  after_decrypt_file-cases params key (none, none) = fails decrypt_failed
  after_decrypt_file-cases params key (some input, none) = after_dispatch-cases params key _

  -- A property of every end is one of what processJob does from the key on.
  pub with_key-cases : (key : Option Bytes) → R (with_key p cfg dispatch ev id j w key)
  unfolding with_key with_params
  with_key-cases none = fails (codes "Encryption key derivation failed")
  with_key-cases (some key) = by (parse_params j.params)
    where
      by : (o : Option JobParams) → R (with_params p cfg dispatch ev id j key w o)
      by none = fails (codes "Invalid parameters")
      by (some params) = after_decrypt_file-cases params key _
