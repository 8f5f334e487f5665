-- ===== src/Upload.antt =====
-- master/app.py and app/imaging.py: the upload of an image, from its guards to the tasks of its job.
pub mod Outcome
pub mod Oversized
use Prim.Native.String.{String}
use dip.Prelude.{
  ℕ, ◌+◌, ◌-◌, ◌/◌, ◌*◌, List, [], ◌∷◌, ◌++◌, Option, none, some, Bool, true, false, not, ◌||◌,
  ◌&&◌, ltb, ◌==◌, Result, ok, raise, value_error, other_error, if◌then◌else◌, length, ◌>>=◌, ℤ,
  pos, negsuc,
}
use dip.Imaging.{Geometry, layout}
use dip.Imaging.Probe.{Size, probe_image_dimensions}
use dip.Redis.{Redis, Operation}
use dip.Tasks.{Task}
use dip.Jobstore.{NewJob, create_job}
use dip.Publisher.{publish_tile_tasks}
use dip.Publisher

-- MAX_TILES, TILE_SIZE, MIN_IMAGE_SIZE, MAX_IMAGE_DIMENSION, BATCH_SIZE and the two sets of names.
pub record Config : Type 0 where
  pub max_tiles : ℕ
  pub tile_size : ℕ
  pub min_image_size : ℕ
  pub max_image_dimension : ℕ
  pub batch_size : ℕ
  pub is_operation : Operation → Bool
  pub is_allowed : String → Bool

-- The name of the file: empty, with no dot, or with the extension behind its last dot.
pub data Filename : Type 0 where
  empty : Filename
  plain : Filename
  extended : String → String → Filename

-- The request, without the pixels.
pub record Request : Type 0 where
  pub file : Option Filename
  pub operation : Operation

-- What `file.save` does: it stores the file, or it raises with or without a part of it on the disk.
pub data Saved : Type 0 where
  stored partly_stored nothing_stored : Saved

-- The answers of the heartbeats, of `file.save`, of `open` with `read` (the first 65,536 bytes of
-- the file), of OpenCV (width and height) and of `os.remove`, the new job id, the clock, the order
-- in which the staging of tiles ends, and the publisher's other code.
pub record Outside : Type 0 where
  pub active_workers : ℕ
  pub save : Saved
  pub header : Result (List ℕ)
  pub image : Result (Option (ℕ × ℕ))
  pub remove : Result (Unit {0})
  pub job_id : ℕ
  pub now : ℕ
  pub completion : List Geometry → List Geometry
  pub publisher : Publisher.Outside

pub data Response : Type 0 where
  uploaded : ℕ → ℕ → Response
  refused : ℕ → Response

-- `split_image_into_tiles`, without the pixels; a tile size of 0 divides by zero.
pub split_image_into_tiles : ℕ → ℕ → ℕ → ℕ → Result (List Geometry)
split_image_into_tiles max_tiles width height tile_size =
    let expected_tiles =
      ((width + tile_size - 1) / tile_size) * ((height + tile_size - 1) / tile_size) in
    if tile_size == 0
    then raise other_error
    else (if ltb max_tiles expected_tiles
        then raise value_error
        else ok (layout width height tile_size))

abbrev pub is_too_large : Config → ℕ × ℕ → Bool
is_too_large c (width, height) = ltb c.max_image_dimension width || ltb c.max_image_dimension height

abbrev pub is_too_small : Config → ℕ × ℕ → Bool
is_too_small c (width, height) = ltb width c.min_image_size || ltb height c.min_image_size

-- The width of a BMP file may be negative.
abbrev pub exceeds : ℕ → ℤ → Bool
exceeds limit (pos n) = ltb limit n
exceeds limit (negsuc n) = false

abbrev pub probe_refuses : Config → Option Size → Bool
probe_refuses c none = false
probe_refuses c (some (width, height)) =
    exceeds c.max_image_dimension width || ltb c.max_image_dimension height

-- The guards on the name of the file.
abbrev pub extension_of : Config → Option Filename → Option String
extension_of c none = none
extension_of c (some empty) = none
extension_of c (some plain) = none
extension_of c (some (extended name ext)) = if c.is_allowed ext then some name else none

abbrev pub remove_one : ℕ → List ℕ → List ℕ
remove_one j [] = []
remove_one j (k ∷ ks) = if k == j then ks else k ∷ remove_one j ks

module _ (R : Redis) where
  open R use {Server}

  -- The server, the uploads that are on the disk, by job, and the tasks that were sent.
  pub record Uploads : Type 0 where
    pub server : Server
    pub files : List ℕ
    pub sent : List Task

  abbrev pub new_job : Config → Outside → Operation → String → ℕ → ℕ → ℕ → NewJob
  new_job c out operation filename width height expected_tiles = record {
    original_filename = filename;
    operation = operation;
    original_width = width;
    original_height = height;
    expected_tiles = expected_tiles;
    active_workers = out.active_workers;
    tile_size = c.tile_size;
  }

  abbrev pub remove_file : ℕ → Uploads → Uploads
  remove_file j w = record w { files = remove_one j w.files }

  -- `os.remove(filepath)`, and what follows it.
  abbrev pub remove_then :
      Result (Unit {0}) → ℕ → Uploads → (Uploads → Uploads × Response) → Uploads × Response
  remove_then (ok _) j w next = next (remove_file j w)
  remove_then (raise e) j w next = (w, refused 500)

  -- The file is removed and the request refused.
  abbrev pub refuse : Outside → ℕ → Uploads → Uploads × Response
  refuse out code w = remove_then out.remove out.job_id w (λ w'. (w', refused code))

  -- Behind the removal of the file: the job is created and its tasks are published.
  pub dispatch :
      Config → Outside → Operation → String → ℕ → ℕ → List Geometry → Uploads → Uploads × Response
  dispatch c out operation filename width height tiles w =
      let new = new_job c out operation filename width height (length tiles) in
      let (published, success) =
        publish_tile_tasks R out.publisher out.job_id (out.completion tiles) operation c.batch_size
          (create_job R out.job_id new out.now w.server) in
      (
        record w { server = published.server; sent = published.sent ++ w.sent },
        (if success then uploaded out.job_id (length tiles) else refused 500),
      )

  -- Behind the header's probe.
  pub accept_image : Config → Outside → Operation → String → Uploads → Uploads × Response
  unfolding dispatch split_image_into_tiles
  accept_image c out operation filename w = elim out.image [
    | raise e ↦ (w, refused 500)
    | ok none ↦ refuse out 400 w
    | ok (some (width, height)) ↦
        if is_too_small c (width, height) || is_too_large c (width, height)
        then refuse out 400 w
        else elim (split_image_into_tiles c.max_tiles width height c.tile_size) [
          | ok tiles ↦
              remove_then out.remove out.job_id w
                (dispatch c out operation filename width height tiles)
          | raise value_error ↦ refuse out 400 w
          | raise e ↦ (w, refused 500)
        ]
  ]

  -- Behind `file.save`, with the file on the disk.
  pub probe_image : Config → Outside → Operation → String → Uploads → Uploads × Response
  unfolding accept_image
  probe_image c out operation filename w =
      elim (out.header >>= λ header. probe_image_dimensions header) [
        | raise e ↦ (w, refused 500)
        | ok probed ↦
            if probe_refuses c probed
            then refuse out 400 w
            else accept_image c out operation filename w
      ]

  -- `upload_image`
  pub upload_image : Config → Outside → Request → Uploads → Uploads × Response
  unfolding probe_image
  upload_image c out request w =
      if not (c.is_operation request.operation)
      then (w, refused 400)
      else elim (extension_of c request.file) [
        | none ↦ (w, refused 400)
        | some filename ↦ if out.active_workers == 0 then (w, refused 503) else elim out.save [
          | nothing_stored ↦ (w, refused 500)
          | partly_stored ↦ (record w { files = out.job_id ∷ w.files }, refused 500)
          | stored ↦
              probe_image c out request.operation filename
                (record w { files = out.job_id ∷ w.files })
        ]
      ]
