-- ===== src/Lib.antt =====
-- The file conversion service: an API (cmd/api) that takes uploads, encrypts them and queues a job for
-- each; workers (cmd/worker) that take jobs from the queue, decrypt the input, run a processor on it and
-- store the encrypted output; and the packages of internal/ that both use. PostgreSQL holds the rows of
-- jobs and sessions, Redis the queue of job ids, and a shared volume the encrypted files.
--
-- The state that the parts share is the record `World` of World.antt: the rows of jobs and sessions, the
-- queue, the two directories of files and the time in seconds, which stands still during a handler. A
-- handler takes the world and a record of what the outside does in its course, and gives the world after
-- it and its answer. A statement that changes the database, LPUSH and RPUSH are answered, refused with no
-- effect, or have their effect while the reply is lost; the code sees an error in the last two cases. A
-- query and BRPOP are answered or fail; os.Remove is taken to succeed.
--
-- Base: text as lists of byte codes, lists and integers over native numbers, and their lemmas. Bytes
--   from 128 on are left as they are by the changes of case and the trimming of spaces.
-- Crypto: internal/crypto/crypto.go. EncryptStream and DecryptStream on lists of bytes with a source
--   that may fail at its end and a sink that takes a number of bytes; Crypto.Files has EncryptFile and
--   DecryptFile. The loops run on fuel, one round more than the source has bytes, which is enough since
--   each round but the last reads at least one. AES-GCM, HKDF-SHA256 and the random source are
--   parameters, with the laws in `IsAead` and `IsPlatform`.
-- Models: internal/models/models.go, the tables of operations, formats and MIME types, and output names;
--   Models.Params has the parameters as members of a JSON object (the JSON text itself is left out, and
--   texts are UTF-8, which json.Marshal does not change).
-- Form: the helpers of cmd/api/handlers.go that read form values, with strconv.Atoi. The loop of
--   formatBytes has a fuel of 64, and six rounds are enough for an int64. Case and spaces are those of ASCII.
-- Database: internal/database/database.go over lists of rows. `canon` is the text of the uuid that
--   PostgreSQL reads from a text. The columns operation and status are enumerations, as in the schema. The
--   address of a session is a text, in the one form that PostgreSQL gives an INET, and the retention of
--   files is not negative and fits a time.Duration.
-- Queue: internal/queue/queue.go over the Redis list.
-- Storage: internal/storage/storage.go; a file is known by its directory and job id, and Storage.Paths
--   has the paths that New, InputPath and OutputPath make of them.
-- World: the shared state, the platform (PostgreSQL's uuids, AES-GCM, HKDF) and the API's configuration.
-- Api: cmd/api. Api.Upload has handleCreateJob, Api.Read handleGetJob and handleDownload, Api.Delete
--   handleDeleteJob and runCleanup, with startCleanup in Api.Delete.Ticker, Api.Session sessionMiddleware
--   and clientIP, Api.Stats handleHealth and handleAdminStats (with UsedBytes and UsedMB where no file
--   meets an error), and Api.Router which of them an endpoint runs and which stand behind the session
--   middleware; the matching of paths is the router library's. A message in which a value is formatted
--   is a fixed text or a constructor. Api.Upload.Locality and Api.Delete.Locality tell what they leave alone.
-- Config: internal/config/config.go, the master key, the settings by operation, and in Config.Load all
--   that Load reads. `getenv` stands for os.Getenv.
-- Startup: the waits for PostgreSQL and Redis in New of internal/database and internal/queue, on 30
--   attempts, as in the code; the replies are a parameter, by attempt.
-- Processor: internal/processor. External programs and libvips are the parameter `Tools`, the background
--   removal service the parameter `Rembg`; the argument lists, the quality maps and the fallbacks are the
--   code's. Decimal numbers have at most 20 digits.
-- Worker: cmd/worker/main.go, processJob, handleProcessError, failJob and the rounds of run. The
--   processors are a parameter, which gives an error or what is in the output file; Worker.Programs is
--   what stands for it, dispatch over the processors in the job's temporary directory, with the paths as
--   filepath.Join cleans them (Base.Path) and the files that a worker killed before may have left there.
--   Worker.Cases, Worker.Effects, Worker.Locality and Worker.Whole take a job apart by its ends and tell
--   what it leaves alone; Worker.Drain and Worker.Rounds count the retries that are left.
-- System: the API and any number of workers as one step relation over the world and the workers' places.
--   An upload, a delete, a cleanup and a request of the session middleware are one step each. A worker
--   takes an id from the queue, reads the row, marks it as started, and does the rest in steps of their
--   own, with anything between them, and it may be killed between them, which loses its job. If its
--   requeue takes effect and loses the reply, the failJob that follows is a step of its own, which may
--   come when another worker has the job or has completed it. The id of an upload is new, as CreateJob
--   draws it at random, and no upload loses the reply to its LPUSH. The temporary directories, and so
--   the RemoveAll after a requeue, are not part of the state.
-- Scenario: concrete data, and the theorems applied to it.
--
-- Within a handler, and within the last part of a job, nothing else happens; a delete between the
-- processor and the storing of its output is looked at in Worker.Orphan. Left out: main of the two
-- programs (the order of the calls, signals, the HTTP server and its limits), the constant text of
-- handleFormats, Close and Ping, the creation of the storage directories, runCommandPipeInput and
-- FileSize, which nothing calls, the web page and the deployment.
pub mod Api
pub mod Base
pub mod Config
pub mod Crypto
pub mod Database
pub mod Form
pub mod Models
pub mod Processor
pub mod Queue
pub mod Scenario
pub mod Startup
pub mod Storage
pub mod System
pub mod Worker
pub mod World
