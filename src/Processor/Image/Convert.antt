-- ===== src/Processor/Image/Convert.antt =====
-- The conversions that libvips does.
use ilove_convertion.Base.{◌≡◌, refl, true, none, some, Str}
use ilove_convertion.Models.{JobParams}
use ilove_convertion.Crypto.{Bytes}
use ilove_convertion.Storage.{Files, read_file, write_file}
use ilove_convertion.Processor.{
  Tools, ContextError, alive, ImageType, ImageOptions, bimg_type, unless_done,
}
use ilove_convertion.Processor.Image.{
  convert_options, after_process, processed_to, convert_to, image_convert,
}

processed_to_lem :
    (t : Tools) (opts : ImageOptions) (output : Str) (fs : Files) (bs out : Bytes)
    → t.process opts bs ≡ some out
    → t.writable output ≡ true
    → processed_to t alive opts output fs (some bs) ≡ (write_file output out fs, none)
unfolding processed_to after_process unless_done
processed_to_lem t opts output fs bs out made room = rw (made, room) refl

pub image_convert_made :
    (t : Tools) (first later : ContextError) (input output : Str) (params : JobParams) (fs : Files)
    (bs out : Bytes) (type : ImageType)
    → first ≡ alive
    → later ≡ alive
    → bimg_type params.output_format ≡ some type
    → read_file input fs ≡ some bs
    → t.writable output ≡ true
    → t.process (convert_options type) bs ≡ some out
    → image_convert t first later input output params fs ≡ (write_file output out fs, none)
unfolding image_convert convert_to unless_done
image_convert_made t first later input output params fs bs out type e l known found room made =
    rw (e, l, known, found) (processed_to_lem t (convert_options type) output fs bs out made room)
