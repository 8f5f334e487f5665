-- ===== src/Reaper/Decision.antt =====
-- When master/reaper.py gives a job up, and which tiles it sends again.
use dip.Prelude.{
  ℕ, ◌+◌, ◌≤◌, ◌<◌, ◌≡◌, ◌⊎◌, refl, sym, subst, ap, ◌∙◌, max, List, [], ◌∷◌, Option, none, some,
  Bool, true, false, not, ltb, ok, arith, inl, inr, Bool-cases, keep_if, All, upto, All-upto,
  upto-All, All-keep_if, keep_if-All,
}
use dip.Imaging.{Geometry}
use dip.Redis.{Redis, job, Operation, Status, TileInfo}
use dip.Tasks.{Task}
use dip.Jobstore.{
  Job, get_last_reap_time, get_tile_results, get_abandoned_tiles, incr_tile_attempts,
}
use dip.Jobstore.View.{HoldsJob, get_job-HoldsJob, read_job}
use dip.Reaper.Cases.{reap_tile_cases}
use dip.Reaper.Invariant.{requeue_job-inv, All-trivial}
use dip.Jobstore.Frame.{returned-incr_tile_attempts}
use dip.Reaper.{
  requeue_task, Config, Outside, Sweep, is_some, missing_tile_ids, reap_tile, requeue_job,
  reap_missing, reap_job_data, reap_job,
}

module _ (R : Redis) where
  open R use {Server, entry}

  -- A tile of the job is missing, and every missing tile is abandoned.
  abbrev pub IsHopeless : ℕ → ℕ → Server → Type 0
  IsHopeless j n s =
      ((t : ℕ) × (t < n) × (get_tile_results R j s t ≡ none))
      × ((t : ℕ) → t < n → get_tile_results R j s t ≡ none → get_abandoned_tiles R j s t ≡ true)

  abbrev pub retryable : ℕ → Server → List ℕ → List ℕ
  retryable j s = keep_if (λ t. not (get_abandoned_tiles R j s t))

  pub is_missing : (o : Option TileInfo) → not (is_some o) ≡ true → o ≡ none
  is_missing none e = refl
  is_missing (some i) e = cc

  abbrev pub IsMissing : ℕ → ℕ → Server → ℕ → Type 0
  IsMissing j n s t = (t < n) × (not (is_some (get_tile_results R j s t)) ≡ true)

  Missing-All : (j n : ℕ) (s : Server) → All (IsMissing j n s) (missing_tile_ids R j n s)
  Missing-All j n s =
      All-keep_if _ (λ t. t < n) (upto n 0) (All-upto (λ t. t < n) n 0 (λ t lo hi. omega arith))

  abbrev pub IsRetryable : ℕ → ℕ → Server → ℕ → Type 0
  IsRetryable j n s t = IsMissing j n s t × (not (get_abandoned_tiles R j s t) ≡ true)

  pub Retryable-All :
      (j n : ℕ) (s : Server) → All (IsRetryable j n s) (retryable j s (missing_tile_ids R j n s))
  Retryable-All j n s =
      All-keep_if (λ t. not (get_abandoned_tiles R j s t)) (IsMissing j n s)
        (missing_tile_ids R j n s) (Missing-All j n s)

  pub missing-covers {ℓ} :
      (P : ℕ → Type ℓ) (j n : ℕ) (s : Server)
      → All P (missing_tile_ids R j n s)
      → (t : ℕ) → t < n
      → get_tile_results R j s t ≡ none
      → P t
  missing-covers P j n s h t lt e =
      upto-All _ n 0 t (keep_if-All _ P (upto n 0) h) (omega arith) (omega arith) (rw e refl)

  of_not-not : (b : Bool) → ¬ (not b ≡ true) → b ≡ true
  of_not-not true h = refl
  of_not-not false h = absurd (h refl)

  -- If tiles are missing and none of them is to be sent again, the job is hopeless.
  pub none_retryable-IsHopeless :
      (j n : ℕ) (s : Server) (m : ℕ) (ms : List ℕ)
      → missing_tile_ids R j n s ≡ m ∷ ms
      → retryable j s (m ∷ ms) ≡ []
      → IsHopeless j n s
  none_retryable-IsHopeless j n s m ms e f = (
    (m, head.0, is_missing _ head.1),
    λ t lt none_yet.
        of_not-not _ (missing-covers _ j n s (subst (All _) (sym e) rest) t lt none_yet),
  )
    where
      head : IsMissing j n s m
      head = (subst (All (IsMissing j n s)) e (Missing-All j n s)).0

      rest : All (λ x. ¬ (not (get_abandoned_tiles R j s x) ≡ true)) (m ∷ ms)
      rest = keep_if-All _ (λ _. ⊥) (m ∷ ms) (subst (All (λ _. ⊥)) (sym f) tt)

  module _ (c : Config) (out : Outside) (now j : ℕ) (found : Job) where
    requeue_job-degraded :
        (ts : List ℕ) (w : Sweep R) → (requeue_job R c out now j found ts w).degraded ≡ w.degraded
    requeue_job-degraded ts w =
        requeue_job-inv R c out now j (λ w'. w'.degraded ≡ w.degraded) (λ _. Unit {0})
          (record {
            tile = λ o gs t w' _ e.
                reap_tile_cases R c out j o gs (λ w''. w''.degraded ≡ w.degraded) t w' e e
                  (λ g h le there. e);
            noted = λ w' e. e;
          })
          found ts w (All-trivial ts) refl

    reap_missing-degraded :
        (n : ℕ) (w : Sweep R) (missing again : List ℕ)
        → missing_tile_ids R j n w.server ≡ missing
        → retryable j w.server missing ≡ again
        → (IsHopeless j n w.server
            × ((reap_missing R c out now j found missing again w).degraded ≡ j ∷ w.degraded))
          ⊎ ((¬ IsHopeless j n w.server)
              × ((reap_missing R c out now j found missing again w).degraded ≡ w.degraded))
    unfolding reap_missing
    reap_missing-degraded n w [] again e f = inr (
      (λ h.
          missing-covers (λ _. ⊥) j n w.server (subst (All (λ _. ⊥)) (sym e) tt) h.0.0 h.0.1 h.0.2),
      refl,
    )
    reap_missing-degraded n w (m ∷ ms) [] e f =
        inl (none_retryable-IsHopeless j n w.server m ms e f, refl)
    reap_missing-degraded n w (m ∷ ms) (t ∷ ts) e f = inr (
      (λ h. cc (h.1 t head.0.0 (is_missing _ head.0.1), head.1)),
      requeue_job-degraded (t ∷ ts) w,
    )
      where
        both : retryable j w.server (missing_tile_ids R j n w.server) ≡ t ∷ ts
        both = ap (retryable j w.server) e ∙ f

        head : IsRetryable j n w.server t
        head = (subst (All (IsRetryable j n w.server)) both (Retryable-All j n w.server)).0

  -- The sweep of a job that waits for its tiles and was quiet for the timeout.
  pub reap_job_late :
      (c : Config) (out : Outside) (now j n last : ℕ) (w : Sweep R)
      → (v : HoldsJob R c.default_tile_size j n Status.processing w.server)
      → get_last_reap_time R j w.server ≡ ok last
      → max v.job_hash.timestamp.0 last + c.outstanding_timeout ≤ now
      → let missing = missing_tile_ids R j n w.server in
        reap_job R c out now j w
        ≡ reap_missing R c out now j
            (read_job c.default_tile_size j n Status.processing
              (entry (job j) w.server).fields
              v.job_hash)
            missing
            (retryable j w.server missing)
            w
  unfolding reap_job reap_job_data
  reap_job_late c out now j n last w v e late =
      let t : ltb now (max v.job_hash.timestamp.0 last + c.outstanding_timeout) ≡ false =
        ground (arith, late) in
      rw
        (
          get_job-HoldsJob R c.default_tile_size j n Status.processing w.server v,
          reap_job,
          e,
          reap_job_data,
          t,
        )
        refl

  -- A job that waits for its tiles and was quiet for the timeout is given up by the sweep exactly if
  -- some tile of it is missing and every missing tile is abandoned; otherwise no job is given up.
  pub reap_job-IsHopeless :
      (c : Config) (out : Outside) (now j n last : ℕ) (w : Sweep R)
      → (v : HoldsJob R c.default_tile_size j n Status.processing w.server)
      → get_last_reap_time R j w.server ≡ ok last
      → max v.job_hash.timestamp.0 last + c.outstanding_timeout ≤ now
      → (IsHopeless j n w.server × ((reap_job R c out now j w).degraded ≡ j ∷ w.degraded))
        ⊎ ((¬ IsHopeless j n w.server) × ((reap_job R c out now j w).degraded ≡ w.degraded))
  reap_job-IsHopeless c out now j n last w v e late =
      rw (reap_job_late c out now j n last w v e late)
        (reap_missing-degraded c out now j _ n w _ _ refl refl)

  -- A task that the sweep of the job may send: of a tile of the job that was missing and not
  -- abandoned before the sweep, whose blob is there, as an attempt within the cap behind the first.
  pub record IsFair (c : Config) (out : Outside) (j n : ℕ) (s : Server) (k : Task) : Type 0 where
    pub of_job : k.job_id ≡ j
    pub in_range : k.tile_id < n
    pub not_received : get_tile_results R j s k.tile_id ≡ none
    pub not_abandoned : get_abandoned_tiles R j s k.tile_id ≡ false
    pub has_blob : out.tile_exists k.blob_key ≡ true
    pub within_cap : (a : ℕ) × (k.attempt ≡ some a) × (2 ≤ a) × (a ≤ c.max_tile_attempts)

  module _ (c : Config) (out : Outside) (now j n : ℕ) (s : Server) where
    abbrev AllFair : Sweep R → Type 0
    AllFair w = All (IsFair c out j n s) w.sent

    false_of_not : (b : Bool) → not b ≡ true → b ≡ false
    false_of_not true e = cc
    false_of_not false e = refl

    reap_tile-AllFair :
        (o : Operation) (gs : List Geometry) (t : ℕ) (w : Sweep R)
        → IsRetryable j n s t
        → AllFair w
        → AllFair (reap_tile R c out j o gs t w).0
    reap_tile-AllFair o gs t w q v = reap_tile_cases R c out j o gs AllFair t w v v (λ g e le there.
        (
          subst
              (λ u.
                IsFair c out j n s
                  (record (requeue_task j o g ((incr_tile_attempts R j t w.server).1 + 1)) {
                    tile_id = u;
                  }))
              (sym e)
              (record {
                of_job = refl;
                in_range = q.0.0;
                not_received = is_missing _ q.0.1;
                not_abandoned = false_of_not _ q.1;
                has_blob = there;
                within_cap =
                    (_, refl, omega (arith, returned-incr_tile_attempts R j t w.server), le);
              }),
          v,
        ))

    requeue_job-AllFair :
        (found : Job) (ts : List ℕ) (w : Sweep R)
        → All (IsRetryable j n s) ts
        → AllFair w
        → AllFair (requeue_job R c out now j found ts w)
    requeue_job-AllFair =
        requeue_job-inv R c out now j AllFair (IsRetryable j n s)
          (record { tile = reap_tile-AllFair; noted = λ w h. h })

    reap_missing-AllFair :
        (found : Job) (missing again : List ℕ) (w : Sweep R)
        → All (IsRetryable j n s) again
        → AllFair w
        → AllFair (reap_missing R c out now j found missing again w)
    unfolding reap_missing
    reap_missing-AllFair found [] again w q v = v
    reap_missing-AllFair found (m ∷ ms) [] w q v = v
    reap_missing-AllFair found (m ∷ ms) (t ∷ ts) w q v = requeue_job-AllFair found (t ∷ ts) w q v

  -- Whatever a sweep sends for a job with `n` tiles is of a tile that was missing and not abandoned,
  -- whose blob is still there, as the attempt 2, 3, ... up to the cap: a received tile is never
  -- processed twice on purpose, and an abandoned tile never again.
  pub reap_job-sent :
      (c : Config) (out : Outside) (now j n last : ℕ) (w : Sweep R)
      → (v : HoldsJob R c.default_tile_size j n Status.processing w.server)
      → get_last_reap_time R j w.server ≡ ok last
      → w.sent ≡ []
      → All (IsFair c out j n w.server) (reap_job R c out now j w).sent
  unfolding reap_job reap_job_data
  reap_job-sent c out now j n last w v e none_sent =
      let d = c.default_tile_size in
      let found = read_job d j n Status.processing (entry (job j) w.server).fields v.job_hash in
      let start : AllFair c out now j n w.server w = rw none_sent tt in
      elim (Bool-cases (ltb now (max v.job_hash.timestamp.0 last + c.outstanding_timeout))) [
        | inl early ↦
            rw
              (
                get_job-HoldsJob R d j n Status.processing w.server v,
                reap_job,
                e,
                reap_job_data,
                early,
              )
              start
        | inr late ↦ rw (reap_job_late c out now j n last w v e (ground (arith, late))) (
            reap_missing-AllFair c out now j n w.server found _ _ w (Retryable-All j n w.server)
              start)
      ]
