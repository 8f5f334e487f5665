-- ===== src/Retry.antt =====
-- app/jobstore.py: the retries of `RedisClient`.
pub mod Idempotent
pub mod Once
pub mod Reply
use dip.Prelude.{
  ℕ, zero, suc, ◌+◌, ◌*◌, ◌^◌, List, [], ◌∷◌, Option, none, some, Bool, true, false, ◌==◌, Error,
  Result, ok, raise, timeout_error, redis_error, if◌then◌else◌,
}
use dip.Redis.{Command, hset, hincrby, rpush, incr, sadd, expire, delete, Entry, execute, answer}

-- What `_retry_operation` leaves: the state, the delays slept in milliseconds (the newest first),
-- and what it returns; `none` is the None of a loop that makes no attempt.
pub record Retried (S A : Type 0) : Type 0 where
  pub state : S
  pub slept : List ℕ
  pub returned : Result (Option A)

module _ (S A : Type 0) where
  abbrev pub ended : S → List ℕ → Result (Option A) → Retried S A
  ended s slept r = record { state = s; slept = slept; returned = r }

  -- `for attempt in range(self.max_retries)`, `rounds` of it left. TimeoutError is the one subclass
  -- of RedisError that the code tells apart; any other exception is passed on.
  pub retry_from : ℕ → Bool → (ℕ → S → S × Result A) → ℕ → ℕ → S → List ℕ → Retried S A
  retry_from max_retries idempotent operation zero attempt s slept = ended s slept (ok none)
  retry_from max_retries idempotent operation (suc rounds) attempt s slept =
      let s' = (operation attempt s).0 in
      let again =
        retry_from max_retries idempotent operation rounds (attempt + 1) s'
          (100 * 2 ^ attempt ∷ slept) in
      elim (operation attempt s).1 [
        | ok a ↦ ended s' slept (ok (some a))
        | raise timeout_error ↦
            if idempotent
            then (if attempt + 1 == max_retries
                then ended s' slept (raise timeout_error)
                else again)
            else ended s' slept (raise timeout_error)
        | raise redis_error ↦
            if attempt + 1 == max_retries then ended s' slept (raise redis_error) else again
        | raise e ↦ ended s' slept (raise e)
      ]

  pub retry_operation : ℕ → Bool → (ℕ → S → S × Result A) → S → Retried S A
  unfolding retry_from
  retry_operation max_retries idempotent operation s =
      retry_from max_retries idempotent operation max_retries 0 s []

-- The `idempotent=` of each method of the client.
abbrev pub is_idempotent : Command → Bool
is_idempotent (hset m) = true
is_idempotent (hincrby f n) = false
is_idempotent (rpush v) = false
is_idempotent incr = false
is_idempotent (sadd t) = false
is_idempotent (expire seconds) = true
is_idempotent delete = true

-- What can happen to a command that is sent: it is answered; it is applied and its reply does not
-- come in time; it is applied and the connection is lost before the reply; it is not applied and
-- the time is up; it does not reach the server.
pub data Fault : Type 0 where
  answered applied_late applied_lost dropped_late unreached : Fault

abbrev pub deliver : Command → Fault → Entry → Entry × Result ℕ
deliver c answered e = (execute c e, ok (answer c e))
deliver c applied_late e = (execute c e, raise timeout_error)
deliver c applied_lost e = (execute c e, raise redis_error)
deliver c dropped_late e = (e, raise timeout_error)
deliver c unreached e = (e, raise redis_error)

-- The argument of `redis.Redis`: the library sends a command once more after a TimeoutError.
abbrev pub retry_on_timeout : Bool
retry_on_timeout = true

abbrev pub resend : Command → Fault → Entry × Result ℕ → Entry × Result ℕ
resend c f (e, raise timeout_error) =
    if retry_on_timeout then deliver c f e else (e, raise timeout_error)
resend c f (e, r) = (e, r)

-- What happens to the first and to the second sending of an attempt.
abbrev pub Faults : Type 0
Faults = ℕ → Fault × Fault

abbrev pub send : Command → Faults → ℕ → Entry → Entry × Result ℕ
send c faults attempt e = resend c (faults attempt).1 (deliver c (faults attempt).0 e)

-- A method of the client, on the entry of its key.
pub client_command : ℕ → Command → Faults → Entry → Retried Entry ℕ
unfolding retry_operation
client_command max_retries c faults e =
    retry_operation Entry ℕ max_retries (is_idempotent c) (send c faults) e
