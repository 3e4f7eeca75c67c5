-- ===== src/Scenario.antt =====
-- Concrete data for the examples: a platform with a stand-in for AES-GCM, a configuration, an upload
-- of five bytes to be converted to PNG, and a worker.
pub mod Requests
pub mod Jobs
pub mod Tools
pub mod System
pub mod Programs
pub mod Services
use ilove_convertion.Base.{refl, true, false, some, [], Str, codes, to_lower, replicate}
use ilove_convertion.Base.Int.{pos}
use ilove_convertion.Models.{image_convert, JobParams, Job, Session}
use ilove_convertion.Form.{Form}
use ilove_convertion.Crypto.{Bytes}
use ilove_convertion.Crypto.Files.{FileEvents}
use ilove_convertion.Crypto.Io.{source}
use ilove_convertion.Crypto.RoundTrip.Tests.{toy, toy_nonce}
use ilove_convertion.Database.{answered, new_job, first_touch}
use ilove_convertion.World.{World, Platform, ApiConfig, IsPlatform}
use ilove_convertion.Api.Upload.{UploadRequest, UploadEvents, FileHeader, parsed}
use ilove_convertion.Worker.{WorkerConfig, Dispatch, processed, process_error, JobEvents}

abbrev pub platform : Platform
platform = record { canon = λ s. s; is_uuid = λ s. true; aead = toy; hkdf = λ a b c. [] }

pub platform-IsPlatform : IsPlatform platform
platform-IsPlatform = record { keys_accepted = λ a b c. refl }

-- A platform that reads a uuid in either case.
abbrev pub any_case : Platform
any_case = record { canon = to_lower; is_uuid = λ s. true; aead = toy; hkdf = λ a b c. [] }

abbrev pub master : Bytes
master = replicate 32 1

abbrev pub api_config : ApiConfig
api_config = record {
  master_key = master;
  max_file_size = 1000;
  file_retention_hours = 1;
  rate_limit_per_hour = 10;
  flag_threshold = 100;
}

abbrev pub worker_config : WorkerConfig
worker_config = record { master_key = master; max_retries = λ op. 2 }

abbrev pub job_id : Str
job_id = codes "j1"

abbrev pub input : Bytes
input = codes "hello"

abbrev pub empty_world : World
empty_world = record {
  jobs = [];
  sessions = [];
  queue = [];
  store = record { inputs = []; outputs = [] };
  now = 1000;
}

abbrev pub session : Session
session = first_touch (codes "s1") (codes "10.0.0.1") 900

abbrev pub png_form : Form
png_form = record {
  operation = codes "image_convert";
  output_format = codes "png";
  quality = [];
  lossless = [];
  image_dpi = [];
  image_quality = [];
}

abbrev pub png_params : JobParams
png_params = record {
  output_format = codes "png";
  quality = pos 0;
  lossless = false;
  image_dpi = pos 0;
  image_quality = pos 0;
}

abbrev pub photo : FileHeader
photo = record { filename = codes "a.jpg"; size = 5; content = source input }

abbrev pub upload : UploadRequest
upload = record { parse = parsed; form = png_form; file = some photo }

abbrev pub upload_events : UploadEvents
upload_events = record {
  new_id = job_id;
  create = answered;
  open_input = true;
  random = some toy_nonce;
  disk_room = 1000;
  sync = true;
  push = answered;
  delete = answered;
}

abbrev pub good_file : FileEvents
good_file = record { create = true; room = 1000; sync = true }

abbrev pub job_events : JobEvents
job_events = record {
  make_tmp = true;
  reached = true;
  start = answered;
  decrypt = good_file;
  random = some toy_nonce;
  encrypt = good_file;
  complete = answered;
  increment = answered;
  push_back = answered;
  fail = answered;
}

abbrev pub converts : Dispatch
converts op params from to bs = processed (some (codes "done"))

abbrev pub breaks : Dispatch
breaks op params from to bs = process_error (codes "boom")

-- The row of the upload.
abbrev pub png_job : Job
png_job =
    new_job job_id
      (record {
        session_id = session.id;
        operation = image_convert;
        original_name = codes "a.jpg";
        input_size = 5;
        params = png_params;
      })
      1 1000
