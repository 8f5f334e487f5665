-- ===== src/Kafka/Tests.antt =====
-- An interleaving of three threads that ask the pool of app/kafkaio.py for its producer.
use dip.Prelude.{ℕ, ◌≤◌, ◌≡◌, refl, List, [], ◌∷◌, some, Bool, true, false}
use dip.Kafka.{failed, done, run, new_pool}
use dip.Kafka.Once.{HasTheOne, run-HasTheOne}

-- The constructor raises for the thread 1; the threads 2 and 3 are before it then.
abbrev three_threads : List (ℕ × Bool)
three_threads =
    (1, true)
    ∷ (2, false)
    ∷ (1, true)
    ∷ (2, false)
    ∷ (1, true)
    ∷ (3, false)
    ∷ (1, true)
    ∷ (2, false)
    ∷ (1, true)
    ∷ (2, false)
    ∷ (3, false)
    ∷ (2, false)
    ∷ (2, false)
    ∷ (3, false)
    ∷ (2, false)
    ∷ (2, false)
    ∷ (3, false)
    ∷ (2, false)
    ∷ (3, false)
    ∷ (3, false)
    ∷ (3, false)
    ∷ []

run-HasTheOne_example :
    ((run three_threads new_pool).made ≤ 1) × HasTheOne ((run three_threads new_pool).threads 3)
run-HasTheOne_example = run-HasTheOne three_threads 3

outcome_1 : (run three_threads new_pool).threads 1 ≡ failed
unfolding run
outcome_1 = refl

outcome_3 : (run three_threads new_pool).threads 3 ≡ done (some 0)
unfolding run
outcome_3 = refl
