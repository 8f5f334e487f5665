-- ===== src/Lib.antt =====
-- DIP, a distributed image processor: a master cuts an image into tiles, publishes one Kafka task
-- for each, and stores what the workers send back in Redis. This library models the master's side of
-- a job from the upload's bytes to its end, the OpenCV worker and the detection service.
--
-- The parts, and the files that model them:
-- - Prelude: the helpers that the parts share: lists, results that may raise, integers, and texts as
--   lists of character codes.
-- - Imaging (app/imaging.py): `tile_geometries`, shared by the upload and the reaper, and in Layout
--   what it covers. Probe is `probe_image_dimensions` on the bytes of a header, Canvas the cutting of
--   an image into tiles and its reconstruction from them, where a pixel is a number.
-- - Redis (the keys and commands that app/jobstore.py uses): keys, hash fields and values are data,
--   and the server is a record: what each key holds, the effect and the reply of a command, and two
--   laws, which are the documentation of HSET, HINCRBY, RPUSH, INCR, SADD, EXPIRE and DEL. Every
--   theorem holds for any such server; Redis/Reference is one.
-- - Jobstore (app/jobstore.py): one function for each function there, over any server. Record has
--   what `record_tile_result` does to each key, View what `get_job` reads back, Frame which keys the
--   bookkeeping of the reaper leaves alone, Finish how a job ends.
-- - Retry (`RedisClient` in app/jobstore.py): the retries of one command, with the second sending
--   that redis-py makes after a timeout (`retry_on_timeout=True`), against a server whose replies may
--   be late or lost. Once has what a call leaves, Reply what a command that was sent twice answers.
-- - Publisher (master/publisher.py, master/ml_publisher.py) and Tasks: the tasks of a new job.
-- - Results (master/results_consumer.py) and Results/Ml (master/ml_results_consumer.py): what a
--   result does to its job, and the loops that poll. Both stand on the job store.
-- - Reaper (master/reaper.py): the sweep that sends missing tiles again and gives jobs up. Cases and
--   Invariant are the induction on a sweep that the others use; Budget mixes sweeps with the results
--   of Results, Outcome and Decision are about one sweep, Frame has what none changes, and Liveness
--   repeats them until the job ends.
-- - Worker (worker/main.py): the attempts at a tile, the publication of its result, the record for the
--   DLQ, and the commit of the offset.
-- - RateLimit (master/rate_limit.py): the bound on the requests of a client. Window compares it with a
--   limiter that forgets nothing, Bound counts what is let through.
-- - Leader (app/leader.py): the election, as a step relation over any number of processes.
-- - Inference (inference/main.py): the poller and the batcher of the detection service, by iterations
--   of their loops: Queue has any interleaving of the two, Crops the boxes and their labels, Batch what
--   one batch publishes and commits.
-- - Engine (inference/engine.py): the wrappers around the two models, from a batch to its answers,
--   with the tables of class names in Names. Inference takes the models as arguments.
-- - Routes (master/app.py): /status, /result and /reconstruct, which ends a job at the job store.
-- - Upload (master/app.py, `split_image_into_tiles` of app/imaging.py): /upload, from its guards to
--   create_job and the publisher, with the probe of Imaging on the bytes. `file.save`, `open`,
--   OpenCV and `os.remove` may raise.
-- - Detect (master/ml_routes.py): the detections of a job merged across its tiles, the status that is
--   answered, and in Images the upload to /detect, which shares the layout, the job store and
--   Publisher with Upload.
-- - Admin (master/admin_routes.py): the routes that list, clean and clear what the server holds, over
--   a server of its own whose keys are texts, since these routes split the names of keys; Reference
--   is one. Classes sorts the keys, Metadata is the listing.
-- - Kafka (`KafkaProducerPool` in app/kafkaio.py): the threads that ask for the one producer, in any
--   interleaving.
-- - Heartbeat (master/heartbeat.py): the tracker of live workers and the loop that feeds it.
-- - Tests: the theorems at concrete inputs, by part: the course of a job, single parts, the workers,
--   image headers, the admin routes, detections and the engine.
--
-- Conventions. A job id, a client address and a lock token are numbers that stand for the strings.
-- Times are natural numbers, milliseconds where the source has seconds, and `now - t < w` is
-- written `now < t + w`. A Python exception is a `raise`, and what was done before it stays done.
-- Code of other libraries (Kafka, MinIO, OpenCV, the clock) is an argument: a function that answers
-- each call, with no assumption on its answers but the hypotheses of a theorem. A coordinate of a
-- detection is an integer in tenths of a pixel, a confidence one in 1 / 10000. JSON is left out, so
-- a message is its decoded value, and a tile, task or result has the keys that the senders of this
-- program give it. The TTL of a key of the job store is stored, but no key runs out as time passes
-- there; the lock of Leader and the keys of Heartbeat do. Log lines, and the counters of Prometheus except those that a theorem is about,
-- are left out. A theorem over Jobstore takes each command as answered; Retry has the faults.
--
-- Bounds. The loops run over finite lists of what is polled, scanned or staged, over the attempts
-- that the source's `range` allows, or, in Leader, as steps of a relation. Only the loop over the
-- segments of a JPEG header has fuel, as much as the header has bytes; each round passes one of
-- them at least, and Imaging/Probe/Total shows that it never runs out. The integer square root of
-- /metadata counts down from its argument. The delay of Leader bounds the time from the server's
-- execution of a call to the process that acts on it; a call that a process gives up is not
-- executed later.
--
-- Not modelled: the tensors of the inference engine (letterbox, colours, normalization, softmax) and
-- its floating-point arithmetic, which are arguments; /health, /dashboard and the check of the
-- configuration; the DLQ monitor; the image operations (calls of
-- OpenCV); the heartbeats that a worker sends; the configuration, benchmarks, scripts and tests.
pub mod Prelude
pub mod Imaging
pub mod Redis
pub mod Jobstore
pub mod Results
pub mod Tasks
pub mod Reaper
pub mod RateLimit
pub mod Worker
pub mod Publisher
pub mod Retry
pub mod Leader
pub mod Inference
pub mod Routes
pub mod Upload
pub mod Heartbeat
pub mod Admin
pub mod Detect
pub mod Tests
pub mod Engine
pub mod Kafka
