-- ===== src/Api/Upload/Refusals.antt =====
-- The answers of the checks of handleCreateJob: none of them is 201.
use ilove_convertion.Base.{◌≢◌, inl, inr, Option, none, some, Bool-cases, ◌==◌, ltb, arith}
use ilove_convertion.Models.{Operation, valid_input_format, JobParams}
use ilove_convertion.Form.{Result, ok, err}
use ilove_convertion.World.{ApiConfig}
use ilove_convertion.Api.Upload.{
  UploadRequest, FileHeader, Checked, accepted, rejected, check_upload, check_params, check_file,
  check_operation, check_form, ParsedForm, parsed, too_large, invalid, upload_ext,
}

-- No check of the request answers 201.
abbrev pub IsRefusal : Checked → Type 0
IsRefusal (accepted op h params) = Unit
IsRefusal (rejected r) = r.code ≢ 201

check_params-IsRefusal :
    (op : Operation) (h : FileHeader) (r : Result JobParams) → IsRefusal (check_params op h r)
unfolding check_params
check_params-IsRefusal op h (ok x) = tt
check_params-IsRefusal op h (err x) = omega arith

check_file-IsRefusal :
    (cfg : ApiConfig) (r : UploadRequest) (op : Operation) (f : Option FileHeader)
    → IsRefusal (check_file cfg r op f)
unfolding check_file
check_file-IsRefusal cfg r op none = omega arith
check_file-IsRefusal cfg r op (some h) = elim (Bool-cases (ltb cfg.max_file_size h.size)) [
  | inl t ↦ rw t (omega arith)
  | inr f ↦ elim (Bool-cases (h.size == 0)) [
    | inl t ↦ rw (f, t) (omega arith)
    | inr g ↦ elim (Bool-cases (valid_input_format op (upload_ext h.filename))) [
      | inl t ↦ rw (f, g, t) (check_params-IsRefusal op h _)
      | inr k ↦ rw (f, g, k) (omega arith)
    ]
  ]
]

check_operation-IsRefusal :
    (cfg : ApiConfig) (r : UploadRequest) (o : Option Operation)
    → IsRefusal (check_operation cfg r o)
unfolding check_operation
check_operation-IsRefusal cfg r none = omega arith
check_operation-IsRefusal cfg r (some op) = check_file-IsRefusal cfg r op r.file

pub check_upload-IsRefusal : (cfg : ApiConfig) (r : UploadRequest) → IsRefusal (check_upload cfg r)
unfolding check_upload check_form
check_upload-IsRefusal cfg r = go r.parse
  where
    go : (f : ParsedForm) → IsRefusal (check_form cfg r f)
    go too_large = omega arith
    go invalid = omega arith
    go parsed = check_operation-IsRefusal cfg r _
