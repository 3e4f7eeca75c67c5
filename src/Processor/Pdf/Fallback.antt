-- ===== src/Processor/Pdf/Fallback.antt =====
-- The fallbacks of PDFCompress: when it succeeds.
use ilove_convertion.Base.{◌≡◌, refl, ◌⊎◌, inl, inr, ◌↔◌, ◌≢◌, none, some, Str}
use ilove_convertion.Models.{JobParams}
use ilove_convertion.Storage.{Files}
use ilove_convertion.Processor.{Tools, Outcome, alive, ProcessError, unless_done}
use ilove_convertion.Processor.Pdf.{
  run_ghostscript, run_qpdf, run_qpdf_minimal, copy_file, gs_intermediate, after_minimal,
  after_qpdf, after_ghostscript, pdf_compress,
}

abbrev Ok : Outcome → Type 0
Ok o = o.1 ≡ none

module _ (t : Tools) (input output tmp : Str) where
  -- Ghostscript ran: qpdf on its output, or a copy of that output.
  abbrev pub AfterGood : Files → Type 0
  AfterGood fs =
      let q = run_qpdf t (gs_intermediate tmp) output fs in
      (q.1 ≡ none) ⊎ ((q.1 ≢ none) × ((copy_file t (gs_intermediate tmp) output q.0).1 ≡ none))

  -- Ghostscript failed: qpdf on the input, or a minimal run of it.
  abbrev pub AfterBad : Files → Type 0
  AfterBad fs =
      let q = run_qpdf t input output fs in
      (q.1 ≡ none) ⊎ ((q.1 ≢ none) × ((run_qpdf_minimal t input output q.0).1 ≡ none))

  good :
      (q : Outcome)
      → ((after_qpdf t input output tmp none q).1 ≡ none) ↔ (
          (q.1 ≡ none) ⊎ ((q.1 ≢ none) × ((copy_file t (gs_intermediate tmp) output q.0).1 ≡ none)))
  unfolding after_qpdf
  good (fs, none) = (λ h. inl refl, λ h. refl)
  good (fs, some e) = (λ h. inr ((λ k. cc), h), λ h. elim h [ inl k ↦ cc | inr k ↦ k.1 ])

  minimal : (o : Outcome) → ((after_minimal o).1 ≡ none) ↔ (o.1 ≡ none)
  unfolding after_minimal
  minimal (fs, none) = (λ h. h, λ h. h)
  minimal (fs, some e) = (λ h. cc, λ h. cc)

  bad :
      (g : ProcessError) (q : Outcome)
      → ((after_qpdf t input output tmp (some g) q).1 ≡ none)
        ↔ ((q.1 ≡ none) ⊎ ((q.1 ≢ none) × ((run_qpdf_minimal t input output q.0).1 ≡ none)))
  bad g (fs, none) = unfold after_qpdf in (λ h. inl refl, λ h. refl)
  bad g (fs, some e) =
      let m = minimal (run_qpdf_minimal t input output fs) in
      unfold after_qpdf in
      (λ h. inr ((λ k. cc), m.0 h), λ h. elim h [ inl k ↦ cc | inr k ↦ m.1 (k.1) ])

  -- While the context is alive, PDFCompress succeeds exactly if: Ghostscript succeeds, and qpdf on
  -- its output does or else a copy of that output does; or Ghostscript fails, and qpdf on the input
  -- succeeds or else a minimal run of qpdf on it does.
  pub pdf_compress_succeeds_iff :
      (params : JobParams) (fs : Files)
      → let g = run_ghostscript t input (gs_intermediate tmp) params fs in
        ((pdf_compress t alive input output tmp params fs).1 ≡ none)
        ↔ (((g.1 ≡ none) × AfterGood g.0) ⊎ ((g.1 ≢ none) × AfterBad g.0))
  unfolding pdf_compress unless_done
  pdf_compress_succeeds_iff params fs = by (run_ghostscript t input (gs_intermediate tmp) params fs)
    where
      by :
          (g : Outcome)
          → ((after_ghostscript t input output tmp g).1 ≡ none)
            ↔ (((g.1 ≡ none) × AfterGood g.0) ⊎ ((g.1 ≢ none) × AfterBad g.0))
      by (fs, none) =
          let e = good (run_qpdf t (gs_intermediate tmp) output fs) in
          unfold after_ghostscript in
          (λ h. inl (refl, e.0 h), λ h. elim h [ inl k ↦ e.1 (k.1) | inr k ↦ absurd (k.0 refl) ])
      by (fs, some x) =
          let e = bad x (run_qpdf t input output fs) in
          unfold after_ghostscript in
          (λ h. inr ((λ k. cc), e.0 h), λ h. elim h [ inl k ↦ cc | inr k ↦ e.1 (k.1) ])
