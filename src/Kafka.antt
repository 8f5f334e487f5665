-- ===== src/Kafka.antt =====
-- app/kafkaio.py: the pool that makes one producer for all threads of a master.
pub mod Safe
pub mod Once
mod Tests
use dip.Prelude.{ℕ, ◌+◌, List, [], ◌∷◌, Option, none, some, Bool, true, false, ◌==◌, if◌then◌else◌}

-- Where a thread is in `get_producer`: before a read of `_initialized` outside of the lock (in
-- `get_producer`, then in `initialize`), at the lock, before the read under the lock, before the
-- constructor, before the write of `_initialized`, at the end of the `with`, before the last line,
-- or at the end, with what it returned or with an exception.
pub data Place : Type 0 where
  start entered queued holding making assigned leaving returning failed : Place
  done : Option ℕ → Place

-- `_producer` (the first producer is 0, the next 1), `_initialized`, the thread that holds `_lock`,
-- the number of producers that were made, and the threads.
pub record Pool : Type 0 where
  pub producer : Option ℕ
  pub initialized : Bool
  pub lock : Option ℕ
  pub made : ℕ
  pub threads : ℕ → Place

abbrev pub goes : ℕ → Place → Pool → Pool
goes i p s = record s { threads = λ j. if j == i then p else s.threads j }

-- The lock is free, or the thread waits.
abbrev pub acquire : ℕ → Option ℕ → Pool → Pool
acquire i none s = goes i holding (record s { lock = some i })
acquire i (some j) s = s

abbrev pub release : Pool → Pool
release s = record s { lock = none }

-- The constructor raises, or `_producer` is the new one.
abbrev pub make : ℕ → Bool → Pool → Pool
make i true s = goes i failed (release s)
make i false s = goes i assigned (record s { producer = some s.made; made = s.made + 1 })

-- The next step of a thread at its place. `raises` is what the constructor does, if it is called.
pub move_from : ℕ → Bool → Place → Pool → Pool
move_from i raises start s = goes i (if s.initialized then returning else entered) s
move_from i raises entered s = goes i (if s.initialized then returning else queued) s
move_from i raises queued s = acquire i s.lock s
move_from i raises holding s = goes i (if s.initialized then leaving else making) s
move_from i raises making s = make i raises s
move_from i raises assigned s = goes i leaving (record s { initialized = true })
move_from i raises leaving s = goes i returning (release s)
move_from i raises returning s = goes i (done s.producer) s
move_from i raises failed s = s
move_from i raises (done p) s = s

-- An interleaving: the thread that moves next, each time.
pub run : List (ℕ × Bool) → Pool → Pool
unfolding move_from
run [] s = s
run ((i, raises) ∷ moves) s = run moves (move_from i raises (s.threads i) s)

abbrev pub new_pool : Pool
new_pool = record {
  producer = none;
  initialized = false;
  lock = none;
  made = 0;
  threads = λ i. start;
}
