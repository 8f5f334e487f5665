-- ===== src/Worker/Retries.antt =====
-- The attempts of `process_tile` in worker/main.py.
use Prim.Native.String.{String}
use dip.Prelude.{ℕ, zero, suc, ◌≡◌, refl, List, [], ◌∷◌, Option, none, some, Result, ok, raise}
use dip.Redis.{Operation, BlobKey}
use dip.Tasks.{Task}
use dip.Results.{ResultMessage}
use dip.Worker.{
  State, count_failed, count_processed, result_message, Tools, find_operation, process_once,
  process_attempts, process_tile,
}

-- The first attempt of a list that succeeds, with what it returns.
abbrev pub first_success : (ℕ → Result BlobKey) → List ℕ → Option (ℕ × BlobKey)
first_success try [] = none
first_success try (a ∷ later) = elim (try a) [
  | ok key ↦ some (a, key)
  | raise e ↦ first_success try later
]

-- The delays before attempt `a`, the latest first, put before those slept already.
abbrev pub delays : ℕ → List ℕ → List ℕ
delays zero slept = slept
delays (suc zero) slept = 500 ∷ slept
delays (suc (suc a)) slept = 1000 ∷ 500 ∷ slept

abbrev pub slept_before : ℕ → State → State
slept_before a s = record s { slept = delays a s.slept }

-- What `process_tile` returns, read off the first success of the attempts.
abbrev pub tile_outcome :
    String → Task → (ℕ → ℕ) → State → Option (ℕ × BlobKey) → State × Option ResultMessage
tile_outcome worker_id task elapsed s none = (count_failed (slept_before 2 s), none)
tile_outcome worker_id task elapsed s (some (a, key)) = (
  count_processed (elapsed a) (slept_before a s),
  some (result_message worker_id task key (elapsed a)),
)

module _ (Bytes Image : Type 0) where
  -- For a known operation at most three attempts are made, 0.5 and then 1 second apart. The first
  -- that succeeds gives the result, with its own processing time, and counts one processed tile;
  -- if all three raise, one failed tile is counted and there is no result.
  pub process_tile-first_success :
      (tools : Tools Bytes Image) (worker_id : String) (task : Task) (operation : Operation)
      (s : State) (f : ℕ → Image → Result Image)
      → find_operation Bytes Image tools operation ≡ some f
      → process_tile Bytes Image tools worker_id task operation s
        ≡ tile_outcome worker_id task tools.elapsed s
            (first_success (process_once Bytes Image tools f task) (0 ∷ 1 ∷ 2 ∷ []))
  unfolding process_tile process_attempts
  process_tile-first_success tools worker_id task operation s f known =
      rw (known, process_tile) (go (try 0) (try 1) (try 2) refl refl refl)
    where
      try : ℕ → Result BlobKey
      try = process_once Bytes Image tools f task

      go :
          (a b c : Result BlobKey)
          → try 0 ≡ a
          → try 1 ≡ b
          → try 2 ≡ c
          → process_attempts Bytes Image tools worker_id f task 3 0 s
            ≡ tile_outcome worker_id task tools.elapsed s (first_success try (0 ∷ 1 ∷ 2 ∷ []))
      go (ok k) b c x y z = rw (x, process_attempts, first_success, try) refl
      go (raise e) (ok k) c x y z = rw (x, y, process_attempts, first_success, try) refl
      go (raise e) (raise e') (ok k) x y z = rw (x, y, z, process_attempts, first_success, try) refl
      go (raise e) (raise e') (raise e'') x y z =
          rw (x, y, z, process_attempts, first_success, try) refl
