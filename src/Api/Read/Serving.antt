-- ===== src/Api/Read/Serving.antt =====
-- What handleDownload sends, on every state of the job.
use ilove_convertion.Base.{
  ℕ, ◌≤◌, ◌≡◌, refl, sym, ap, ◌⊎◌, inl, inr, true, false, Option, none, some, [], Str, ext,
  Bool-cases, length,
}
use ilove_convertion.Models.{
  Status, pending, processing, completed, failed, Job, mime_for_extension,
}
use ilove_convertion.Form.{sanitize_filename}
use ilove_convertion.Crypto.{
  Bytes, IsAead, CryptoError, Sink, decrypt_stream, derive_key, hkdf_info, nonce_size,
}
use ilove_convertion.Crypto.RoundTrip.{file, decrypt_stream_lem}
use ilove_convertion.Database.{find_job, get_job}
use ilove_convertion.Storage.{read_file, output_exists}
use ilove_convertion.World.{World, Platform, IsPlatform}
use ilove_convertion.Api.{Body, attachment, Response}
use ilove_convertion.Api.Read.{
  Download, handle_download, name_of_output, content_length, client, by_status, with_key,
  open_output, send,
}

-- The download of a completed job whose output file is the encryption of `out`.
abbrev pub served : Job → Bytes → Download
served j out = record {
  response = record {
    code = 200;
    body =
        attachment (mime_for_extension (ext (name_of_output j.output_filename)))
          (sanitize_filename (name_of_output j.output_filename)) (content_length j.output_size) out;
  };
  stream_error = none;
}

module _ (p : Platform) (master_key : Bytes) where
  -- The output of a completed job is sent whole and decrypted, if its file is the encryption under
  -- the key of the id in the request.
  pub handle_download_completed :
      (room : ℕ) (job_id : Str) (w : World) (j : Job) (nonce out : Bytes)
      → IsAead p.aead
      → IsPlatform p
      → length master_key ≡ 32
      → p.is_uuid job_id ≡ true
      → find_job (p.canon job_id) w.jobs ≡ some j
      → j.status ≡ completed
      → length nonce ≡ nonce_size
      → read_file job_id w.store.outputs
        ≡ some (file p.aead (p.hkdf master_key job_id hkdf_info) nonce out)
      → length out ≤ room
      → handle_download p master_key true room job_id w ≡ served j out
  unfolding handle_download get_job output_exists derive_key
  handle_download_completed room job_id w j nonce out law plat key uuid found st l outs fits =
      simp (
        uuid,
        found,
        st,
        outs,
        key,
        decrypt_stream_lem p.aead (p.hkdf master_key job_id hkdf_info) law nonce out (client room)
            (plat.keys_accepted master_key job_id hkdf_info) l fits,
      )

  -- The codes of a download, by the state of the job.
  abbrev pub HasCode : Status → ℕ → Type 0
  HasCode pending c = c ≡ 409
  HasCode processing c = c ≡ 409
  HasCode failed c = c ≡ 422
  HasCode completed c = (c ≡ 200) ⊎ ((c ≡ 404) ⊎ (c ≡ 500))

  -- The bytes of an attachment.
  bytes_of : Body → Bytes
  bytes_of (attachment t n s out) = out
  bytes_of _ = []

  -- A download by a valid id, of a job that the database finds, is answered with 409 while the job
  -- is pending or processing, with 422 if it failed, and with 200, 404 or 500 if it is completed; and
  -- if the answer has bytes of a file, then the job is completed, the code is 200, and the bytes are
  -- what DecryptStream writes of the output file of the id, under the key of the id.
  pub handle_download-HasCode :
      (room : ℕ) (job_id : Str) (w : World) (j : Job)
      → p.is_uuid job_id ≡ true
      → find_job (p.canon job_id) w.jobs ≡ some j
      → let r = (handle_download p master_key true room job_id w).response in
        HasCode j.status r.code
        × ((type name : Str) (size : Option ℕ) (out : Bytes)
            → r.body ≡ attachment type name size out
            → (j.status ≡ completed)
              × (r.code ≡ 200)
              × ((key stored : Bytes) × (d : Sink) × (e : Option CryptoError) × (derive_key p.hkdf
                      master_key job_id
                    ≡ some key)
                  × (read_file job_id w.store.outputs ≡ some stored)
                  × (decrypt_stream p.aead key
                        (record { content = stored; fails = false })
                        (client room)
                      ≡ some (d, e))
                  × (out ≡ d.written)))
  unfolding handle_download get_job bytes_of
  handle_download-HasCode room job_id w j uuid found = rw (uuid, found) (by j.status)
    where
      -- A response with a message has no bytes.
      Answers : Status → Response → Type 0
      Answers s r =
          HasCode s r.code
          × ((type name : Str) (size : Option ℕ) (out : Bytes)
              → r.body ≡ attachment type name size out
              → (s ≡ completed)
                × (r.code ≡ 200)
                × ((key stored : Bytes) × (d : Sink) × (e : Option CryptoError) × (derive_key p.hkdf
                        master_key job_id
                      ≡ some key)
                    × (read_file job_id w.store.outputs ≡ some stored)
                    × (decrypt_stream p.aead key (record { content = stored; fails = false })
                          (client room)
                        ≡ some (d, e))
                    × (out ≡ d.written)))

      sent :
          (key stored : Bytes) (o : Option (Sink × Option CryptoError))
          → derive_key p.hkdf master_key job_id ≡ some key
          → read_file job_id w.store.outputs ≡ some stored
          → decrypt_stream p.aead key (record { content = stored; fails = false }) (client room) ≡ o
          → Answers completed (send p master_key j o).response
      sent key stored none a b c = unfold send in (inr (inr refl), λ t n s o e. absurd (cc))
      sent key stored (some (d, x)) a b c =
          unfold send in
          (inl refl, λ t n s o e. (refl, refl, (key, stored, d, x, a, b, c, sym (ap bytes_of e))))

      opened :
          (key : Bytes) (o : Option Bytes)
          → derive_key p.hkdf master_key job_id ≡ some key
          → read_file job_id w.store.outputs ≡ o
          → Answers completed (open_output p master_key room j key o).response
      opened key none a b = unfold open_output in (inr (inr refl), λ t n s o e. absurd (cc))
      opened key (some f) a b = unfold open_output in sent key f _ a b refl

      keyed :
          (k : Option Bytes)
          → derive_key p.hkdf master_key job_id ≡ k
          → Answers completed (with_key p master_key room job_id j w k).response
      keyed none a = unfold with_key in (inr (inr refl), λ t n s o e. absurd (cc))
      keyed (some k) a = unfold with_key in opened k _ a refl

      by : (s : Status) → Answers s (by_status p master_key room job_id j w s).response
      by pending = unfold by_status in (refl, λ t n s o e. absurd (cc))
      by processing = unfold by_status in (refl, λ t n s o e. absurd (cc))
      by failed = unfold by_status in (refl, λ t n s o e. absurd (cc))
      by completed = elim (Bool-cases (output_exists job_id w.store)) [
        | inl t ↦ unfold by_status in rw t (keyed _ refl)
        | inr f ↦ unfold by_status in rw f (inr (inl refl), λ t n s o e. absurd (cc))
      ]
