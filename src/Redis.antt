-- ===== src/Redis.antt =====
-- The Redis server as app/jobstore.py uses it: keys, hash fields and values as data, the commands
-- of `RedisClient`, and the server itself as an interface.
pub mod Reference
use Prim.Native.String.{String}
use dip.Prelude.{
  ℕ, ◌+◌, ◌≡◌, List, [], ◌∷◌, ◌++◌, Option, none, some, Bool, true, false, ◌&&◌, ◌||◌, ◌==◌,
  if◌then◌else◌, ℤ,
}

-- One constructor for each f-string that names a key. A job id is a number that stands for the UUID.
pub data Key : Type 0 where
  job : ℕ → Key
  tiles : ℕ → Key
  latencies : ℕ → Key
  abandoned : ℕ → Key
  attempts : ℕ → ℕ → Key

abbrev pub kind : Key → ℕ
kind (job j) = 0
kind (tiles j) = 1
kind (latencies j) = 2
kind (abandoned j) = 3
kind (attempts j t) = 4

abbrev pub owner : Key → ℕ
owner (job j) = j
owner (tiles j) = j
owner (latencies j) = j
owner (abandoned j) = j
owner (attempts j t) = j

abbrev pub part : Key → ℕ
part (job j) = 0
part (tiles j) = 0
part (latencies j) = 0
part (abandoned j) = 0
part (attempts j t) = t

abbrev pub key_eq : Key → Key → Bool
key_eq a b = kind a == kind b && owner a == owner b && part a == part b

-- The fields of the job hash, and the fields of the tile hash.
pub data Field : Type 0 where
  job_id original_filename operation original_width original_height tile_size : Field
  timestamp processing_start status expected_tiles active_workers results_count : Field
  failed_tasks completion_time result_path last_reap_time : Field
  tile : ℕ → Field

abbrev pub index : Field → ℕ
index job_id = 0
index original_filename = 1
index operation = 2
index original_width = 3
index original_height = 4
index tile_size = 5
index timestamp = 6
index processing_start = 7
index status = 8
index expected_tiles = 9
index active_workers = 10
index results_count = 11
index failed_tasks = 12
index completion_time = 13
index result_path = 14
index last_reap_time = 15
index (tile t) = 16 + t

abbrev pub field_eq : Field → Field → Bool
field_eq a b = index a == index b

-- The strings that the program writes to the status field.
pub data Status : Type 0 where
  processing ready_for_reconstruction completed degraded unknown : Status

-- `object_detection`, or one of the OpenCV operations by its name.
pub data Operation : Type 0 where
  object_detection : Operation
  opencv : String → Operation

-- f"{job_id}/{kind}/{tile_id}.jpg"
pub data BlobKind : Type 0 where
  task ml_task result : BlobKind

pub record BlobKey : Type 0 where
  pub job_id : ℕ
  pub kind : BlobKind
  pub tile_id : ℕ

-- The corners of a box, in tenths of a pixel, to which inference/engine.py rounds them.
pub record Box : Type 0 where
  pub x1 : ℤ
  pub y1 : ℤ
  pub x2 : ℤ
  pub y2 : ℤ

-- A detection of inference/main.py.
pub record Detection : Type 0 where
  pub class_name : String
  pub confidence : ℕ
  pub classify_label : Option String
  pub classify_confidence : Option ℕ
  pub box : Box

-- What a result message leaves in the tile hash: the blob of an OpenCV tile, or the detections.
pub data Payload : Type 0 where
  result_blob_key : BlobKey → Payload
  detections : List Detection → Payload

pub record TileInfo : Type 0 where
  pub payload : Payload
  pub worker_id : String
  pub x : ℕ
  pub y : ℕ
  pub width : ℕ
  pub height : ℕ

-- Redis keeps strings; a value here is what the string is read back as. Times are milliseconds.
pub data Value : Type 0 where
  number : ℕ → Value
  text : String → Value
  status : Status → Value
  operation : Operation → Value
  tile_info : TileInfo → Value

abbrev pub Mapping : Type 0
Mapping = List (Field × Value)

-- What a key holds, as the read commands show it: HGET, HLEN, LRANGE, the counter, SISMEMBER, TTL.
pub record Entry : Type 0 where
  pub present : Bool
  pub fields : Field → Option Value
  pub size : ℕ
  pub items : List Value
  pub counter : ℕ
  pub members : ℕ → Bool
  pub ttl : Option ℕ

abbrev pub missing : Entry
missing = record {
  present = false;
  fields = λ f. none;
  size = 0;
  items = [];
  counter = 0;
  members = λ t. false;
  ttl = none;
}

pub data Command : Type 0 where
  hset : Mapping → Command
  hincrby : Field → ℕ → Command
  rpush : Value → Command
  incr : Command
  sadd : ℕ → Command
  expire : ℕ → Command
  delete : Command

abbrev pub put : Field → Value → (Field → Option Value) → Field → Option Value
put f v fields g = if field_eq f g then some v else fields g

abbrev pub put_all : Mapping → (Field → Option Value) → Field → Option Value
put_all [] fields = fields
put_all ((f, v) ∷ m) fields = put_all m (put f v fields)

abbrev pub is_none {ℓ} : {A : Type ℓ} → Option A → ℕ
is_none none = 1
is_none (some a) = 0

-- The number of fields that the mapping adds.
abbrev pub added : Mapping → (Field → Option Value) → ℕ
added [] fields = 0
added ((f, v) ∷ m) fields = is_none (fields f) + added m (put f v fields)

abbrev pub number_of : Option Value → ℕ
number_of (some (number n)) = n
number_of _ = 0

-- What the documentation of Redis says that a command does to the value of its key. A write keeps
-- the TTL of a key, and makes an absent key with no TTL; EXPIRE does nothing to an absent key.
abbrev pub execute : Command → Entry → Entry
execute (hset m) e = record e {
  present = true;
  fields = put_all m e.fields;
  size = e.size + added m e.fields;
}
execute (hincrby f n) e = record e {
  present = true;
  fields = put f (number (number_of (e.fields f) + n)) e.fields;
  size = e.size + is_none (e.fields f);
}
execute (rpush v) e = record e { present = true; items = e.items ++ v ∷ [] }
execute incr e = record e { present = true; counter = e.counter + 1 }
execute (sadd t) e = record e { present = true; members = λ u. t == u || e.members u }
execute (expire seconds) e = if e.present then (record e { ttl = some seconds }) else e
execute delete e = missing

-- The reply of HSET is the number of new fields, that of INCR the new count; no other is read.
abbrev pub answer : Command → Entry → ℕ
answer (hset m) e = added m e.fields
answer incr e = e.counter + 1
answer _ e = 0

-- The server: its state, what a key holds, and the effect and the reply of a command.
pub record Redis : Type 1 where
  pub Server : Type 0
  pub entry : Key → Server → Entry
  pub command : Key → Command → Server → Server
  pub reply : Key → Command → Server → ℕ
  pub scan : Server → List ℕ
  pub entry-command :
      (k k' : Key) (c : Command) (s : Server)
      → entry k' (command k c s) ≡ (if key_eq k k' then execute c (entry k s) else entry k' s)
  pub reply-answer : (k : Key) (c : Command) (s : Server) → reply k c s ≡ answer c (entry k s)
