-- ===== src/Retry/Once.antt =====
-- The effect of a command that app/jobstore.py retries.
use dip.Prelude.{
  ℕ, zero, suc, ◌+◌, ◌-◌, ◌*◌, ◌^◌, ◌≤◌, ◌≡◌, ◌≢◌, ◌∙◌, refl, ap, List, [], ◌∷◌, none, some, Bool,
  true, false, not, ◌&&◌, if◌then◌else◌, ◌==◌, Result, ok, raise, Error, timeout_error, redis_error,
  arith, inl, inr, ◌⊎◌, Bool-cases, length,
}
use dip.Redis.{Command, Entry, execute, answer}
use dip.Retry.{
  Retried, ended, retry_from, retry_operation, is_idempotent, Fault, answered, applied_late,
  applied_lost, dropped_late, unreached, deliver, resend, Faults, send, client_command,
}
use dip.Retry.Idempotent.{execute-is_idempotent}

-- A command applied that many times.
abbrev pub times : ℕ → Command → Entry → Entry
times zero c e = e
times (suc n) c e = execute c (times n c e)

-- A sending that is applied and whose reply does not arrive.
abbrev pub is_lost : Fault → ℕ
is_lost answered = 0
is_lost applied_late = 1
is_lost applied_lost = 1
is_lost dropped_late = 0
is_lost unreached = 0

-- Both sendings of the attempt end in a timeout.
abbrev pub is_late : Fault → Bool
is_late answered = false
is_late applied_late = true
is_late applied_lost = false
is_late dropped_late = true
is_late unreached = false

abbrev pub timed_out : Fault × Fault → Bool
timed_out p = is_late p.0 && is_late p.1

-- The replies that do not arrive in so many attempts, of which the first that times out is the last
-- one of a command that is not idempotent.
abbrev pub lost_from : Bool → Faults → ℕ → ℕ → ℕ
lost_from idempotent faults attempt zero = 0
lost_from idempotent faults attempt (suc rounds) =
    is_lost (faults attempt).0
    + is_lost (faults attempt).1
    + (if not idempotent && timed_out (faults attempt)
        then 0
        else lost_from idempotent faults (attempt + 1) rounds)

-- With at most `lost` replies that do not arrive: a reply that is returned is that of the last
-- application, and each of the others lost its reply; if the call raises, all lost theirs.
abbrev pub IsReturned : ℕ → Command → Entry → Entry → Result ℕ → Type 0
IsReturned lost c e e' r =
    (m : ℕ) × (m ≤ lost) × (e' ≡ times (suc m) c e) × (r ≡ ok (answer c (times m c e)))

abbrev pub IsRaised : ℕ → Command → Entry → Entry → Error → Type 0
IsRaised lost c e e' x =
    (n : ℕ) × (n ≤ lost) × (e' ≡ times n c e) × ((x ≡ timeout_error) ⊎ (x ≡ redis_error))

-- The outcome of an attempt, and of a call.
abbrev IsSent : ℕ → Command → Entry → Entry × Result ℕ → Type 0
IsSent lost c e q =
    IsReturned lost c e q.0 q.1 ⊎ ((x : Error) × (q.1 ≡ raise x) × IsRaised lost c e q.0 x)

deliver-IsSent : (c : Command) (f : Fault) (e : Entry) → IsSent (is_lost f) c e (deliver c f e)
deliver-IsSent c answered e = inl (0, omega arith, refl, refl)
deliver-IsSent c applied_late e = inr (timeout_error, refl, (1, omega arith, refl, inl refl))
deliver-IsSent c applied_lost e = inr (redis_error, refl, (1, omega arith, refl, inr refl))
deliver-IsSent c dropped_late e = inr (timeout_error, refl, (0, omega arith, refl, inl refl))
deliver-IsSent c unreached e = inr (redis_error, refl, (0, omega arith, refl, inr refl))

times-times : (m n : ℕ) (c : Command) (e : Entry) → times m c (times n c e) ≡ times (m + n) c e
times-times zero n c e = let here : n ≡ 0 + n = omega arith in ap (λ k. times k c e) here
times-times (suc m) n c e =
    let here : suc (m + n) ≡ suc m + n = omega arith in
    ap (execute c) (times-times m n c e) ∙ ap (λ k. times k c e) here

-- Applications before are counted with those after.
IsSent-after :
    (c : Command) (e s : Entry) (n before lost total : ℕ) (q : Entry × Result ℕ)
    → n ≤ before
    → before + lost ≤ total
    → s ≡ times n c e
    → IsSent lost c s q
    → IsSent total c e q
IsSent-after c e s n before lost total q few sum h (inl (m, le, e', r)) = inl (
  m + n,
  omega (arith, few, sum, le),
  e' ∙ ap (times (suc m) c) h ∙ ap (execute c) (times-times m n c e),
  r ∙ ap (λ s'. ok (answer c s')) (ap (times m c) h ∙ times-times m n c e),
)
IsSent-after c e s n before lost total q few sum h (inr (x, r, (m, le, e', known))) =
    inr (
      x,
      r,
      (m + n, omega (arith, few, sum, le), e' ∙ ap (times m c) h ∙ times-times m n c e, known),
    )

resend-IsSent :
    (c : Command) (f g : Fault) (e : Entry)
    → IsSent (is_lost f + is_lost g) c e (resend c g (deliver c f e))
resend-IsSent c answered g e =
    IsSent-after c e e 0 0 0 (0 + is_lost g) _ (omega arith) (omega arith) refl
      (deliver-IsSent c answered e)
resend-IsSent c applied_late g e =
    IsSent-after c e (execute c e) 1 1 (is_lost g) (1 + is_lost g) _ (omega arith) (omega arith)
      refl (deliver-IsSent c g (execute c e))
resend-IsSent c applied_lost g e =
    IsSent-after c e e 0 0 1 (1 + is_lost g) _ (omega arith) (omega arith) refl
      (deliver-IsSent c applied_lost e)
resend-IsSent c dropped_late g e =
    IsSent-after c e e 0 0 (is_lost g) (0 + is_lost g) _ (omega arith) (omega arith) refl
      (deliver-IsSent c g e)
resend-IsSent c unreached g e =
    IsSent-after c e e 0 0 0 (0 + is_lost g) _ (omega arith) (omega arith) refl
      (deliver-IsSent c unreached e)

resend-timed_out :
    (c : Command) (f g : Fault) (e : Entry)
    → (resend c g (deliver c f e)).1 ≡ raise redis_error
    → timed_out (f, g) ≡ false
resend-timed_out c answered g e h = refl
resend-timed_out c applied_late answered e h = refl
resend-timed_out c applied_late applied_late e h = absurd cc
resend-timed_out c applied_late applied_lost e h = refl
resend-timed_out c applied_late dropped_late e h = absurd cc
resend-timed_out c applied_late unreached e h = refl
resend-timed_out c applied_lost g e h = refl
resend-timed_out c dropped_late answered e h = refl
resend-timed_out c dropped_late applied_late e h = absurd cc
resend-timed_out c dropped_late applied_lost e h = refl
resend-timed_out c dropped_late dropped_late e h = absurd cc
resend-timed_out c dropped_late unreached e h = refl
resend-timed_out c unreached g e h = refl

times-is_idempotent :
    (n : ℕ) (c : Command) (e : Entry)
    → is_idempotent c ≡ true
    → (times n c e ≡ e) ⊎ (times n c e ≡ execute c e)
times-is_idempotent zero c e h = inl refl
times-is_idempotent (suc n) c e h = elim (times-is_idempotent n c e h) [
  | inl none_yet ↦ inr (ap (execute c) none_yet)
  | inr once ↦ inr (ap (execute c) once ∙ execute-is_idempotent c e h)
]

-- The outcome of a call on an entry that was `e`: a reply, an exception, or no attempt.
abbrev pub IsOutcome : ℕ → ℕ → Command → Entry → Retried Entry ℕ → Type 0
IsOutcome max_retries lost c e r =
    ((m : ℕ) × (m ≤ lost)
      × (r.state ≡ times (suc m) c e)
      × (r.returned ≡ ok (some (answer c (times m c e)))))
    ⊎ (((x : Error) × (r.returned ≡ raise x) × IsRaised lost c e r.state x)
        ⊎ ((max_retries ≡ 0) × (r.state ≡ e) × (r.returned ≡ ok none)))

-- What a call leaves of an entry that was `e`.
pub record IsApplied (c : Command) (max_retries : ℕ) (faults : Faults) (e : Entry)
    (r : Retried Entry ℕ) : Type 0 where
  pub outcome : IsOutcome max_retries (lost_from (is_idempotent c) faults 0 max_retries) c e r
  pub once : (is_idempotent c ≡ false) ⊎ ((r.state ≡ e) ⊎ (r.state ≡ execute c e))
  pub rounds : length r.slept ≤ max_retries - 1

-- What the loop sleeps, whatever the operation does.
module _ (max_retries : ℕ) (idempotent : Bool) (op : ℕ → Entry → Entry × Result ℕ) where
  abbrev run : ℕ → ℕ → Entry → List ℕ → Retried Entry ℕ
  run = retry_from Entry ℕ max_retries idempotent op

  retry_from-rounds :
      (rounds attempt : ℕ) (s : Entry) (slept : List ℕ)
      → rounds + attempt ≡ max_retries
      → length slept ≤ max_retries - 1
      → length slept ≤ attempt
      → length (run rounds attempt s slept).slept ≤ max_retries - 1
  unfolding retry_from
  retry_from-rounds zero attempt s slept sum few count = few
  retry_from-rounds (suc rounds) attempt s slept sum few count = go (op attempt s).1 refl (λ other.
      retry_from-rounds rounds (attempt + 1) (op attempt s).0 (100 * 2 ^ attempt ∷ slept)
        (omega (arith, sum)) (omega (arith, other, sum, count)) (omega (arith, count)))
    where
      go :
          (r : Result ℕ)
          → (op attempt s).1 ≡ r
          → (attempt + 1 ≢ max_retries
              → length (run rounds (attempt + 1) (op attempt s).0 (100 * 2 ^ attempt ∷ slept)).slept
                ≤ max_retries - 1)
          → length (run (suc rounds) attempt s slept).slept ≤ max_retries - 1
      go (ok a) x again = rw (x, retry_from) few
      go (raise timeout_error) x again = elim (Bool-cases (attempt + 1 == max_retries)) [
        | inl l ↦ elim (Bool-cases idempotent) [
          | inl i ↦ rw (x, retry_from, l, i) few
          | inr i ↦ rw (x, retry_from, i) few
        ]
        | inr l ↦ elim (Bool-cases idempotent) [
          | inl i ↦ rw (x, retry_from, l, i) (again (ground (arith, l)))
          | inr i ↦ rw (x, retry_from, i) few
        ]
      ]
      go (raise redis_error) x again = elim (Bool-cases (attempt + 1 == max_retries)) [
        | inl l ↦ rw (x, retry_from, l) few
        | inr l ↦ rw (x, retry_from, l) (again (ground (arith, l)))
      ]
      go (raise _) x again = rw (x, retry_from) few

  -- The outcome of the loop, if the operation sends the command.
  module _ (c : Command) (faults : Faults) (e : Entry)
      (sends : (attempt : ℕ) (s : Entry)
        → IsSent (is_lost (faults attempt).0 + is_lost (faults attempt).1) c s (op attempt s))
      (lives : (attempt : ℕ) (s : Entry)
        → (op attempt s).1 ≡ raise redis_error
        → timed_out (faults attempt) ≡ false) where
    retry_from-IsOutcome :
        (rounds attempt : ℕ) (s : Entry) (slept : List ℕ) (n before total : ℕ)
        → rounds + attempt ≡ max_retries
        → (rounds ≡ 0 → (max_retries ≡ 0) × (n ≡ 0))
        → s ≡ times n c e
        → n ≤ before
        → before + lost_from idempotent faults attempt rounds ≤ total
        → IsOutcome max_retries total c e (run rounds attempt s slept)
    unfolding retry_from
    retry_from-IsOutcome zero attempt s slept n before total sum last h few enough =
        let (no_attempt, fresh) = last refl in
        inr (inr (no_attempt, h ∙ ap (λ k. times k c e) fresh, refl))
    retry_from-IsOutcome (suc rounds) attempt s slept n before total sum last h few enough =
        elim (IsSent-after c e s n before (is_lost (faults attempt).0 + is_lost (faults attempt).1)
          (before + (is_lost (faults attempt).0 + is_lost (faults attempt).1)) (op attempt s) few
          (omega arith) h (sends attempt s)) [
            | inl (m, le, e', r) ↦ rw (r, retry_from) (inl (m, omega (arith, le, enough), e', refl))
            | inr (x, r, (m, le, e', known)) ↦ elim known [
              | inl late ↦
                  raised timeout_error (r ∙ ap (λ y. raise y) late) m le e' (inl refl)
                    (λ other goes.
                      retry_from-IsOutcome rounds (attempt + 1) (op attempt s).0
                        (100 * 2 ^ attempt ∷ slept) m
                        (before + (is_lost (faults attempt).0 + is_lost (faults attempt).1)) total
                        (omega (arith, sum)) (λ z. absurd (omega (arith, z, other, sum))) e' le
                        (rest goes))
              | inr lost ↦
                  raised redis_error (r ∙ ap (λ y. raise y) lost) m le e' (inr refl) (λ other goes.
                    retry_from-IsOutcome rounds (attempt + 1) (op attempt s).0
                      (100 * 2 ^ attempt ∷ slept) m
                      (before + (is_lost (faults attempt).0 + is_lost (faults attempt).1)) total
                      (omega (arith, sum)) (λ z. absurd (omega (arith, z, other, sum))) e' le
                      (rest goes))
            ]
          ]
      where
        here : ℕ
        here = is_lost (faults attempt).0 + is_lost (faults attempt).1

        rest :
            (not idempotent && timed_out (faults attempt)) ≡ false
            → before + here + lost_from idempotent faults (attempt + 1) rounds ≤ total
        rest goes =
            let whole : lost_from idempotent faults attempt (suc rounds)
                ≡ here + lost_from idempotent faults (attempt + 1) rounds =
              rw goes refl in
            omega (arith, whole, enough)

        stop :
            (x : Error) (m : ℕ)
            → m ≤ before + here
            → (op attempt s).0 ≡ times m c e
            → (x ≡ timeout_error) ⊎ (x ≡ redis_error)
            → IsOutcome max_retries total c e (ended Entry ℕ (op attempt s).0 slept (raise x))
        stop x m le e' known = inr (inl (x, refl, (m, omega (arith, le, enough), e', known)))

        raised :
            (x : Error)
            → (op attempt s).1 ≡ raise x
            → (m : ℕ) → m ≤ before + here
            → (op attempt s).0 ≡ times m c e
            → (x ≡ timeout_error) ⊎ (x ≡ redis_error)
            → (attempt + 1 ≢ max_retries
                → (not idempotent && timed_out (faults attempt)) ≡ false
                → IsOutcome max_retries total c e
                    (run rounds (attempt + 1) (op attempt s).0 (100 * 2 ^ attempt ∷ slept)))
            → IsOutcome max_retries total c e (run (suc rounds) attempt s slept)
        raised timeout_error r m le e' known again =
            elim (Bool-cases (attempt + 1 == max_retries)) [
              | inl l ↦ elim (Bool-cases idempotent) [
                | inl i ↦ rw (r, retry_from, l, i) (stop timeout_error m le e' known)
                | inr i ↦ rw (r, retry_from, i) (stop timeout_error m le e' known)
              ]
              | inr l ↦ elim (Bool-cases idempotent) [
                | inl i ↦ rw (r, retry_from, l, i) (again (ground (arith, l)) (ground (arith, i)))
                | inr i ↦ rw (r, retry_from, i) (stop timeout_error m le e' known)
              ]
            ]
        raised redis_error r m le e' known again = elim (Bool-cases (attempt + 1 == max_retries)) [
          | inl l ↦ rw (r, retry_from, l) (stop redis_error m le e' known)
          | inr l ↦
              rw (r, retry_from, l) (again (ground (arith, l)) (ground (arith, lives attempt s r)))
        ]
        raised x r m le e' known again = rw (r, retry_from) (stop x m le e' known)

-- The command is left applied once or not at all.
once_of :
    (c : Command) (max_retries lost : ℕ) (e : Entry) (r : Retried Entry ℕ)
    → IsOutcome max_retries lost c e r
    → is_idempotent c ≡ true
    → (r.state ≡ e) ⊎ (r.state ≡ execute c e)
once_of c max_retries lost e r (inl (m, le, e', returned)) h =
    elim (times-is_idempotent (suc m) c e h) [ inl n ↦ inl (e' ∙ n) | inr n ↦ inr (e' ∙ n) ]
once_of c max_retries lost e r (inr (inl (x, returned, (m, le, e', known)))) h =
    elim (times-is_idempotent m c e h) [ inl n ↦ inl (e' ∙ n) | inr n ↦ inr (e' ∙ n) ]
once_of c max_retries lost e r (inr (inr (z, e', returned))) h = inl e'

-- Whatever happens to the sendings of a call - answered, applied with the reply too late or the
-- connection lost before it, dropped, or never at the server - the call either returns the reply of
-- the last application of its command, or raises a timeout or a Redis error, or makes no attempt
-- because none is allowed. The other applications are no more than the sendings that were applied
-- and whose reply did not arrive, counted up to the first attempt that times out if the command is
-- not called idempotent: a call that loses no reply applies its command exactly once if it returns,
-- and not at all if it raises. A command that the code calls idempotent leaves its key as it was or
-- as after one application, however often it is sent. The call sleeps less often than the attempts
-- that are allowed.
pub client_command-IsApplied :
    (c : Command) (max_retries : ℕ) (faults : Faults) (e : Entry)
    → IsApplied c max_retries faults e (client_command max_retries c faults e)
unfolding client_command retry_operation
client_command-IsApplied c max_retries faults e = record {
  outcome = done;
  once = elim (Bool-cases (is_idempotent c)) [
    | inl h ↦ inr (
        once_of c max_retries (lost_from (is_idempotent c) faults 0 max_retries) e
          (client_command max_retries c faults e) done h)
    | inr h ↦ inl h
  ];
  rounds =
      retry_from-rounds max_retries (is_idempotent c) (send c faults) max_retries 0 e []
        (omega arith) (omega arith) (omega arith);
}
  where
    done :
        IsOutcome max_retries
          (lost_from (is_idempotent c) faults 0 max_retries)
          c
          e
          (client_command max_retries c faults e)
    done =
        retry_from-IsOutcome max_retries (is_idempotent c) (send c faults) c faults e
          (λ attempt s. resend-IsSent c (faults attempt).0 (faults attempt).1 s)
          (λ attempt s. resend-timed_out c (faults attempt).0 (faults attempt).1 s) max_retries 0 e
          [] 0 0 (lost_from (is_idempotent c) faults 0 max_retries) (omega arith) (λ z. (z, refl))
          refl (omega arith) (omega arith)
