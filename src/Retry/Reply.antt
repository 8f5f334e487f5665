-- ===== src/Retry/Reply.antt =====
-- What a command that is sent again after a timeout by app/jobstore.py answers and leaves.
use dip.Prelude.{ℕ, zero, suc, ◌≤◌, ◌≡◌, ap, [], some, Bool, Result, ok, arith}
use dip.Redis.{Command, Mapping, hset, Entry, put_all, execute, answer}
use dip.Retry.{
  answered, applied_late, Faults, ended, retry_from, retry_operation, send, client_command,
  is_idempotent, resend, deliver,
}
use dip.Retry.Idempotent.{added-IsSetIn, put_all-IsSetIn}

retry_from-first :
    (max_retries rounds : ℕ) (idempotent : Bool) (op : ℕ → Entry → Entry × Result ℕ) (e s : Entry)
    (n : ℕ)
    → op 0 e ≡ (s, ok n)
    → retry_from Entry ℕ max_retries idempotent op (suc rounds) 0 e []
      ≡ ended Entry ℕ s [] (ok (some n))
unfolding retry_from
retry_from-first max_retries rounds idempotent op e s n first =
    let replied : (op 0 e).1 ≡ ok n = ap (λ q. q.1) first in
    let left : (op 0 e).0 ≡ s = ap (λ q. q.0) first in
    rw (replied, retry_from) (ap (λ s'. ended Entry ℕ s' [] (ok (some n))) left)

client_command-resent :
    (c : Command) (e : Entry) (max_retries : ℕ) (faults : Faults)
    → 1 ≤ max_retries
    → faults 0 ≡ (applied_late, answered)
    → client_command max_retries c faults e
      ≡ ended Entry ℕ (execute c (execute c e)) [] (ok (some (answer c (execute c e))))
unfolding client_command retry_operation
client_command-resent c e zero faults some_round first = absurd (omega (arith, some_round))
client_command-resent c e (suc k) faults some_round first =
    retry_from-first (suc k) k (is_idempotent c) (send c faults) e _ _
      (ap (λ p. resend c p.1 (deliver c p.0 e)) first)

-- If an attempt is allowed, and the first HSET of a call is applied with its reply too late and the
-- second is answered, the call returns that no field was new, whatever the key held before.
pub hset-applied_late :
    (m : Mapping) (e : Entry) (max_retries : ℕ) (faults : Faults)
    → 1 ≤ max_retries
    → faults 0 ≡ (applied_late, answered)
    → (client_command max_retries (hset m) faults e).returned ≡ ok (some 0)
hset-applied_late m e max_retries faults some_round first =
    rw (client_command-resent (hset m) e max_retries faults some_round first)
      (ap (λ n. ok (some n)) (added-IsSetIn m (put_all m e.fields) (put_all-IsSetIn m e.fields)))
