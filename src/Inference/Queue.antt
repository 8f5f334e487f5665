-- ===== src/Inference/Queue.antt =====
-- The queue between the two threads of inference/main.py.
use Prim.Native.String.{String}
use dip.Prelude.{
  ℕ, ◌+◌, ◌≤◌, ◌<◌, ◌≡◌, refl, sym, subst, ap, List, [], ◌∷◌, Option, none, some, Bool, true, false,
  not, ◌&&◌, ltb, leb, if◌then◌else◌, length, length-append, All, arith, inl, inr, Bool-cases,
}
use dip.Inference.{
  Config, Item, Service, Polled, nothing, consumer_error, invalid_json, message, drain_commits,
  apply_backpressure, receive, poll_once, take, collect_once, Outside, process_batch, finish_batch,
  batch_step,
}

-- A paused consumer brings no message.
abbrev pub IsQuiet : Polled → Type 0
IsQuiet (message task m) = ⊥
IsQuiet _ = Unit {0}

module _ (c : Config) where
  receive-length :
      (commit_raises : ℕ → Bool) (p : Polled) (s : Service)
      → length (receive commit_raises p s).pending ≤ length s.pending + 1
  unfolding receive
  receive-length r nothing s = omega arith
  receive-length r consumer_error s = omega arith
  receive-length r (invalid_json m) s = omega arith
  receive-length r (message task m) s = omega (arith, length-append s.pending ((task, m) ∷ []))

  receive-quiet :
      (commit_raises : ℕ → Bool) (p : Polled) (s : Service)
      → IsQuiet p
      → length (receive commit_raises p s).pending ≡ length s.pending
  unfolding receive
  receive-quiet r nothing s q = refl
  receive-quiet r consumer_error s q = refl
  receive-quiet r (invalid_json m) s q = refl
  receive-quiet r (message task m) s q = absurd q

  apply_backpressure-pending : (s : Service) → (apply_backpressure c s).pending ≡ s.pending
  unfolding apply_backpressure
  apply_backpressure-pending s = ground arith

  -- A full queue pauses the consumer, or leaves it paused.
  apply_backpressure-paused :
      (s : Service)
      → c.resume_queue < c.max_queue
      → leb c.max_queue (length s.pending) ≡ true
      → (apply_backpressure c s).paused ≡ true
  unfolding apply_backpressure
  apply_backpressure-paused s gap full = elim (Bool-cases s.paused) [
    | inl e ↦
        let stays : leb (length s.pending) c.resume_queue ≡ false = ground (arith, full, gap) in
        simp (e, full, stays) refl
    | inr e ↦ simp (e, full) refl
  ]

  poll_once-length :
      (commit_raises : ℕ → Bool) (poll : Bool → Polled) (s : Service)
      → c.resume_queue < c.max_queue
      → IsQuiet (poll true)
      → length s.pending ≤ c.max_queue
      → length (poll_once c commit_raises poll s).pending ≤ c.max_queue
  unfolding poll_once drain_commits
  poll_once-length r poll s gap quiet h = elim (Bool-cases (leb c.max_queue (length s.pending))) [
    | inl full ↦
        let w = apply_backpressure c (drain_commits r s) in
        let q : IsQuiet (poll w.paused) =
          subst (λ b. IsQuiet (poll b))
            (sym (apply_backpressure-paused (drain_commits r s) gap full)) quiet in
        omega (
          arith,
          receive-quiet r (poll w.paused) w q,
          ap length (apply_backpressure-pending (drain_commits r s)),
          h,
        )
    | inr room ↦
        let w = apply_backpressure c (drain_commits r s) in
        ground (
          arith,
          room,
          receive-length r (poll w.paused) w,
          ap length (apply_backpressure-pending (drain_commits r s)),
        )
  ]

  -- What comes of an iteration of the batcher holds no more.
  abbrev Shrinks : Service → Option Service → Type 0
  Shrinks s none = Unit {0}
  Shrinks s (some s') = length s'.pending ≤ length s.pending

  take-length : (d : ℕ) (s : Service) → length (take d s).pending ≤ length s.pending
  unfolding take
  take-length d s = go s.pending refl
    where
      go : (items : List Item) → s.pending ≡ items → length (take d s).pending ≤ length s.pending
      go [] e = simp (e, take) (omega arith)
      go (item ∷ items) e = simp (e, take) (omega arith)

  collect_once-Shrinks :
      (now : ℕ) (is_shutdown : Bool) (s : Service) → Shrinks s (collect_once c now is_shutdown s)
  unfolding collect_once
  collect_once-Shrinks now is_shutdown s =
      elim (Bool-cases (ltb (length s.batch) c.batch_size && not is_shutdown)) [
        | inr e ↦ rw e tt
        | inl e ↦ rw e (go s.deadline refl)
      ]
    where
      go :
          (d : Option ℕ)
          → s.deadline ≡ d
          → Shrinks s (elim s.deadline [
            | none ↦ some (take (now + c.batch_timeout_ms) s)
            | some d ↦ if leb d now then none else some (take d s)
          ])
      go none x = rw x (take-length (now + c.batch_timeout_ms) s)
      go (some d) x = elim (Bool-cases (leb d now)) [
        | inl late ↦ rw (x, late) tt
        | inr early ↦ rw (x, early) (take-length d s)
      ]

  module _ (Image : Type 0) (out : Outside Image) (worker_id : String) where
    process_batch-pending :
        (items : List Item) (s : Service)
        → (process_batch Image out worker_id items s).pending ≡ s.pending
    unfolding process_batch
    process_batch-pending items s = ground arith

    finish_batch-pending : (s : Service) → (finish_batch Image out worker_id s).pending ≡ s.pending
    unfolding finish_batch
    finish_batch-pending s = go s.batch refl
      where
        go :
            (items : List Item)
            → s.batch ≡ items
            → (finish_batch Image out worker_id s).pending ≡ s.pending
        go [] e = simp (e, finish_batch) refl
        go (item ∷ items) e = simp (e, finish_batch) (process_batch-pending (item ∷ items) _)

    batch_step-length :
        (now : ℕ) (is_shutdown : Bool) (s : Service)
        → length (batch_step Image c out worker_id now is_shutdown s).pending ≤ length s.pending
    unfolding batch_step
    batch_step-length now is_shutdown s = go (collect_once c now is_shutdown s) refl
      where
        go :
            (o : Option Service)
            → collect_once c now is_shutdown s ≡ o
            → length (batch_step Image c out worker_id now is_shutdown s).pending ≤ length s.pending
        go none e = rw (e, batch_step) (omega (arith, ap length (finish_batch-pending s)))
        go (some s') e =
            let h : Shrinks s (some s') =
              subst (Shrinks s) e (collect_once-Shrinks now is_shutdown s) in
            rw (e, batch_step) h

  -- An iteration of one of the two threads, with what the other code answers in it.
  pub data Turn (Image : Type 0) : Type 0 where
    polls : (commit_raises : ℕ → Bool) (poll : Bool → Polled) → Turn Image
    batches : (out : Outside Image) (worker_id : String) (now : ℕ) (is_shutdown : Bool) → Turn Image

  module _ (Image : Type 0) where
    abbrev pub happen : Turn Image → Service → Service
    happen (polls commit_raises poll) s = poll_once c commit_raises poll s
    happen (batches out worker_id now is_shutdown) s =
        batch_step Image c out worker_id now is_shutdown s

    abbrev pub interleave : List (Turn Image) → Service → Service
    interleave [] s = s
    interleave (e ∷ es) s = interleave es (happen e s)

    -- The poll of the iteration brings no message if the consumer is paused.
    abbrev pub IsCalm : Turn Image → Type 0
    IsCalm (polls commit_raises poll) = IsQuiet (poll true)
    IsCalm (batches out worker_id now is_shutdown) = Unit {0}

    -- If a paused consumer brings no message, and the queue resumes below its maximum, then no
    -- interleaving of the two threads makes the queue of pending tasks longer than its maximum.
    pub interleave-pending :
        (es : List (Turn Image)) (s : Service)
        → c.resume_queue < c.max_queue
        → All IsCalm es
        → length s.pending ≤ c.max_queue
        → length (interleave es s).pending ≤ c.max_queue
    interleave-pending [] s gap calm h = h
    interleave-pending (polls r poll ∷ es) s gap calm h =
        interleave-pending es _ gap calm.1 (poll_once-length r poll s gap calm.0 h)
    interleave-pending (batches out worker_id now is_shutdown ∷ es) s gap calm h =
        interleave-pending es _ gap calm.1
          (omega (arith, batch_step-length Image out worker_id now is_shutdown s, h))
