-- ===== src/Processor/Rembg.antt =====
-- internal/processor/rembg.go: the client of the rembg service, which is the parameter `Rembg`.
pub mod Served
use ilove_convertion.Base.{
  ℕ, Bool, true, false, not, Option, none, some, [], ◌∷◌, ◌++◌, Str, codes, leb, ◌==◌,
  if◌then◌else◌, length, take,
}
use ilove_convertion.Base.Path.{base}
use ilove_convertion.Models.{JobParams}
use ilove_convertion.Crypto.{Bytes, Source}
use ilove_convertion.Crypto.Files.{FileEvents}
use ilove_convertion.Storage.{Files, read_file, write_file}
use ilove_convertion.Processor.{
  Outcome, ContextError, alive, deadline_exceeded, canceled, ProcessError, read_failed,
  write_failed, bad_request, request_failed, empty_response, request_cancelled, service_error,
  unless_done,
}

-- http.NewRequestWithContext and Client.Do: no request, no response, or a status and a body.
pub data PostResult : Type 0 where
  no_request no_response : PostResult
  response : ℕ → Source → PostResult

pub record Rembg : Type 0 where
  pub url : Str
  -- A POST to an address, with the name and the bytes of the file of its form.
  pub post : Str → Str → Bytes → PostResult
  pub output_file : FileEvents

-- `if outFmt == "" { outFmt = "png" }`
abbrev or_png : Str → Str
or_png [] = codes "png"
or_png (c ∷ s) = c ∷ s

-- io.Copy into the output file, the test of the count, and Sync.
copied : Bool → Bytes → Bool → Str → Files → Outcome
copied sync written false output fs = (write_file output written fs, some write_failed)
copied sync [] true output fs = (write_file output [] fs, some empty_response)
copied true (b ∷ bs) true output fs = (write_file output (b ∷ bs) fs, none)
copied false (b ∷ bs) true output fs = (write_file output (b ∷ bs) fs, some write_failed)

store_body : FileEvents → Source → Str → Files → Outcome
unfolding copied
store_body ev body output fs =
    if ev.create
    then (if leb (length body.content) ev.room
        then copied ev.sync body.content (not body.fails) output fs
        else copied ev.sync (take ev.room body.content) false output fs)
    else (fs, some write_failed)

-- The error of client.Do, by ctx.Err() behind it.
post_error : ContextError → ProcessError
post_error alive = request_failed
post_error deadline_exceeded = request_cancelled deadline_exceeded
post_error canceled = request_cancelled canceled

after_post : FileEvents → ContextError → Str → Files → PostResult → Outcome
unfolding store_body post_error
after_post ev later output fs no_request = (fs, some bad_request)
after_post ev later output fs no_response = (fs, some (post_error later))
after_post ev later output fs (response code body) =
    if code == 200
    then store_body ev body output fs
    else (fs, some (service_error code (take 2048 body.content)))

abbrev remove_bg_url : Rembg → JobParams → Str
remove_bg_url r params = r.url ++ (codes "/remove-bg?format=" ++ or_png params.output_format)

after_open : Rembg → ContextError → Str → Str → JobParams → Files → Option Bytes → Outcome
unfolding after_post
after_open r later input output params fs none = (fs, some read_failed)
after_open r later input output params fs (some bs) =
    after_post r.output_file later output fs (r.post (remove_bg_url r params) (base input) bs)

-- ImageRemoveBG; `later` is ctx.Err() after client.Do.
unfoldable pub image_remove_bg :
    Rembg → ContextError → ContextError → Str → Str → JobParams → Files → Outcome
unfolding after_open
image_remove_bg r ctx later input output params fs =
    unless_done ctx fs (after_open r later input output params fs (read_file input fs))
