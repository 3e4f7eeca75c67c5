-- ===== src/Processor/Rembg/Served.antt =====
-- When the removal of a background succeeds.
use ilove_convertion.Base.{
  ℕ, ◌≤◌, ◌≡◌, ◌≢◌, refl, ◌↔◌, Bool, true, false, not, Option, none, some, [], ◌∷◌, Str, leb,
  leb→le, le→leb, ◌==◌, length, take, Bool-cases, inl, inr, arith,
}
use ilove_convertion.Base.Path.{base}
use ilove_convertion.Models.{JobParams}
use ilove_convertion.Crypto.{Bytes, Source}
use ilove_convertion.Crypto.Files.{FileEvents}
use ilove_convertion.Storage.{Files, read_file, write_file, read_file-write_file_self}
use ilove_convertion.Processor.{
  ContextError, alive, deadline_exceeded, canceled, ProcessError, write_failed, service_error,
  unless_done,
}
use ilove_convertion.Processor.Rembg.{
  PostResult, no_request, no_response, response, Rembg, copied, store_body, after_post,
  remove_bg_url, after_open, image_remove_bg,
}

-- The service took the file and gave an image, and the output file takes it.
pub record IsServed (r : Rembg) (input : Str) (params : JobParams) (fs : Files) (image : Bytes)
    : Type 0 where
  pub upload : Bytes
  pub found : read_file input fs ≡ some upload
  pub responds :
      r.post (remove_bg_url r params) (base input) upload
      ≡ response 200 (record { content = image; fails = false })
  pub not_empty : image ≢ []
  pub created : r.output_file.create ≡ true
  pub fits : length image ≤ r.output_file.room
  pub synced : r.output_file.sync ≡ true

image_remove_bg-IsServed :
    (r : Rembg) (later : ContextError) (input output : Str) (params : JobParams) (fs : Files)
    (image : Bytes)
    → IsServed r input params fs image
    → image_remove_bg r alive later input output params fs ≡ (write_file output image fs, none)
unfolding image_remove_bg after_open after_post store_body unless_done
image_remove_bg-IsServed r later input output params fs image h =
    rw (h.found, h.responds, h.created, le→leb (length image) r.output_file.room h.fits)
      (by r.output_file.sync image h.synced h.not_empty)
  where
    by :
        (sync : Bool) (image : Bytes)
        → sync ≡ true
        → image ≢ []
        → copied sync image true output fs ≡ (write_file output image fs, none)
    by sync [] e h = absurd (h refl)
    by sync (b ∷ bs) e h = unfold copied in rw e refl

-- What a success shows, one step after the other.
copied-none :
    (sync : Bool) (written : Bytes) (whole : Bool) (output : Str) (fs : Files)
    → (copied sync written whole output fs).1 ≡ none
    → (sync ≡ true) × (written ≢ []) × (whole ≡ true)
unfolding copied
copied-none sync written false output fs e = absurd (cc)
copied-none sync [] true output fs e = absurd (cc)
copied-none true (b ∷ bs) true output fs e = (refl, λ e. cc, refl)
copied-none false (b ∷ bs) true output fs e = absurd (cc)

store_body-none :
    (ev : FileEvents) (body : Source) (output : Str) (fs : Files)
    → (store_body ev body output fs).1 ≡ none
    → (ev.create ≡ true)
      × (length body.content ≤ ev.room)
      × (ev.sync ≡ true)
      × (body.content ≢ [])
      × (body.fails ≡ false)
unfolding store_body
store_body-none ev body output fs e = elim (Bool-cases ev.create) [
  | inl c ↦ elim (Bool-cases (leb (length body.content) ev.room)) [
    | inl l ↦
        let (s, n, w) =
          copied-none ev.sync body.content (not body.fails) output fs (rw (c, l) at e) in
        (c, leb→le (length body.content) ev.room l, s, n, not_true body.fails w)
    | inr l ↦
        let (s, n, w) =
          copied-none ev.sync (take ev.room body.content) false output fs (rw (c, l) at e) in
        absurd (cc)
  ]
  | inr c ↦
      let no : ◌≡◌ {A = Option ProcessError} (some write_failed) none = rw c at e in absurd (cc)
]
  where
    not_true : (b : Bool) → not b ≡ true → b ≡ false
    not_true true e = cc
    not_true false e = refl

abbrev IsGiven : FileEvents → PostResult → Bytes → Type 0
IsGiven ev post image =
    (post ≡ response 200 (record { content = image; fails = false }))
    × (image ≢ [])
    × (ev.create ≡ true)
    × (length image ≤ ev.room)
    × (ev.sync ≡ true)

after_post-none :
    (ev : FileEvents) (later : ContextError) (output : Str) (fs : Files) (post : PostResult)
    → (after_post ev later output fs post).1 ≡ none
    → (image : Bytes) × IsGiven ev post image
unfolding after_post
after_post-none ev later output fs no_request e = absurd (cc)
after_post-none ev later output fs no_response e = absurd (cc)
after_post-none ev later output fs (response code body) e = elim (Bool-cases (code == 200)) [
  | inl t ↦
      let (c, l, s, n, w) = store_body-none ev body output fs (rw t at e) in
      (body.content, (same code body t w, n, c, l, s))
  | inr f ↦
      let no : ◌≡◌ {A = Option ProcessError} (some (service_error code (take 2048 body.content)))
          none =
        rw f at e in
      absurd (cc)
]
  where
    same :
        (code : ℕ) (body : Source)
        → (code == 200) ≡ true
        → body.fails ≡ false
        → response code body ≡ response 200 (record { content = body.content; fails = false })
    same code body t w = let is_200 : code ≡ 200 = ground arith in rw (is_200, ← w) refl

-- Removing a background succeeds exactly if the context is alive, the input is there, the service
-- answers its form with status 200 and an image that is not empty and comes whole, and the output
-- file can be created, takes the image and is synced; the output is then that image.
pub image_remove_bg_succeeds_iff :
    (r : Rembg) (ctx later : ContextError) (input output : Str) (params : JobParams) (fs : Files)
    → let out = image_remove_bg r ctx later input output params fs in
      (out.1 ≡ none) ↔ (
        (ctx ≡ alive)
        × ((image : Bytes) × IsServed r input params fs image
            × (read_file output out.0 ≡ some image)))
image_remove_bg_succeeds_iff r ctx later input output params fs = (only ctx, back)
  where
    served :
        (image : Bytes)
        → IsServed r input params fs image
        → read_file output (image_remove_bg r alive later input output params fs).0 ≡ some image
    served image h =
        rw (image_remove_bg-IsServed r later input output params fs image h)
          (read_file-write_file_self output image fs)

    back :
        (ctx ≡ alive)
          × ((image : Bytes) × IsServed r input params fs image
              × (read_file output (image_remove_bg r ctx later input output params fs).0
                  ≡ some image))
        → (image_remove_bg r ctx later input output params fs).1 ≡ none
    back (e, (image, h, read)) =
        rw e (rw (image_remove_bg-IsServed r later input output params fs image h) refl)

    opened :
        (o : Option Bytes)
        → read_file input fs ≡ o
        → (after_open r later input output params fs o).1 ≡ none
        → (image : Bytes) × IsServed r input params fs image
    opened none found e = absurd (unfold after_open in cc)
    opened (some upload) found e =
        let (image, (given, n, c, l, s)) =
          after_post-none r.output_file later output fs
            (r.post (remove_bg_url r params) (base input) upload) (unfold after_open in e) in
        (
          image,
          record {
            upload = upload;
            found = found;
            responds = given;
            not_empty = n;
            created = c;
            fits = l;
            synced = s;
          },
        )

    only :
        (ctx : ContextError)
        → (image_remove_bg r ctx later input output params fs).1 ≡ none
        → (ctx ≡ alive)
          × ((image : Bytes) × IsServed r input params fs image
              × (read_file output (image_remove_bg r ctx later input output params fs).0
                  ≡ some image))
    only alive e =
        let (image, h) =
          opened (read_file input fs) refl (unfold image_remove_bg unless_done in e) in
        (refl, (image, h, served image h))
    only deadline_exceeded e = absurd (unfold image_remove_bg unless_done in cc)
    only canceled e = absurd (unfold image_remove_bg unless_done in cc)
