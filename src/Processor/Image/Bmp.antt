-- ===== src/Processor/Image/Bmp.antt =====
-- The formats of an image compression that the API admits and the worker refuses.
use ilove_convertion.Base.{◌≡◌, refl, false, some, Str, codes}
use ilove_convertion.Base.Int.{pos}
use ilove_convertion.Models.{JobParams}
use ilove_convertion.Storage.{Files}
use ilove_convertion.Processor.{
  Tools, ContextError, alive, unsupported_format, unless_done, bimg_type,
}
use ilove_convertion.Processor.Image

abbrev pub bmp_params : JobParams
bmp_params = record {
  output_format = codes "bmp";
  quality = pos 80;
  lossless = false;
  image_dpi = pos 0;
  image_quality = pos 0;
}

-- With the output format "bmp", whatever the other parameters are, ImageCompress fails with
-- "unsupported format for compression", whatever the tools, the paths and the files are.
pub bmp_compress_fails :
    (t : Tools) (later : ContextError) (input output : Str) (params : JobParams) (fs : Files)
    → params.output_format ≡ codes "bmp"
    → Image.image_compress t alive later input output params fs
      ≡ (fs, some (unsupported_format (codes "bmp")))
unfolding Image.image_compress unless_done bimg_type
bmp_compress_fails t later input output params fs e = by params.output_format e
  where
    by :
        (f : Str)
        → f ≡ codes "bmp"
        → Image.image_compress t alive later input output (record params { output_format = f }) fs
          ≡ (fs, some (unsupported_format (codes "bmp")))
    by f e = rw e refl
