-- ===== src/Reaper/Liveness/Step.antt =====
-- One sweep of master/reaper.py over a job that waits for tiles that do not come.
use dip.Prelude.{
  ℕ, ◌+◌, ◌≤◌, ◌<◌, ◌≡◌, ◌⊎◌, refl, sym, subst, ap, ◌∙◌, max, List, [], ◌∷◌, none, Bool, true,
  false, not, ok, inl, inr, Bool-cases, All, All-imp, contains, keep_if-All, ==-refl,
}
use dip.Redis.{Redis, job, Field, Status}
use dip.Jobstore.{
  Job, int_or, get_last_reap_time, get_tile_results, get_abandoned_tiles, tile_info_of,
}
use dip.Jobstore.View.{HoldsJob, get_job-HoldsJob}
use dip.Reaper.Invariant.{requeue_job-inv, All-trivial}
use dip.Reaper.Decision.{
  IsHopeless, is_missing, IsRetryable, Retryable-All, retryable, missing-covers,
  none_retryable-IsHopeless, reap_job_late, reap_job-IsHopeless,
}
use dip.Reaper.Frame.{entry-reap_once-tiles, field-reap_once}
use dip.Reaper.Outcome.{fate, reap_once-Settled}
use dip.Reaper.Liveness.Lift.{Level, Sends, kept-Level, requeue_job-lift}
use dip.Reaper.{
  Config, Outside, Sweep, missing_tile_ids, requeue_job, reap_missing, reap_job, reap_once,
}

module _ (R : Redis) (c : Config) (out : Outside) (j : ℕ) where
  open R use {Server, entry}

  module _ (n : ℕ) where
    -- The job waits, and each of its missing tiles is abandoned or was counted `k` times.
    pub record Waits (k last created tile_size : ℕ) (w : Sweep R) : Type 0 where
      pub held : HoldsJob R c.default_tile_size j n Status.processing w.server
      pub size :
          int_or c.default_tile_size ((entry (job j) w.server).fields Field.tile_size)
          ≡ ok tile_size
      pub stamp : int_or 0 ((entry (job j) w.server).fields Field.timestamp) ≡ ok created
      pub noted : get_last_reap_time R j w.server ≡ ok last
      pub not_given_up : contains j w.degraded ≡ false
      pub levels :
          (t : ℕ) → t < n → get_tile_results R j w.server t ≡ none → Level R c out j k t w.server

    -- The tile has risen by one level, if it was not abandoned before.
    abbrev Covered : ℕ → Server → Server → ℕ → Type 0
    Covered k before after t =
        not (get_abandoned_tiles R j before t) ≡ true → Level R c out j (k + 1) t after

    module _ (now : ℕ) where
      abbrev only : List (Bool × ℕ)
      only = (true, j) ∷ []

      reap_once-only : (w : Sweep R) → reap_once R c out now only w ≡ reap_job R c out now j w
      unfolding reap_once
      reap_once-only w = refl

      pub get_tile_results-reap_once :
          (w : Sweep R) (t : ℕ)
          → get_tile_results R j (reap_once R c out now only w).server t
            ≡ get_tile_results R j w.server t
      get_tile_results-reap_once w t =
          ap (λ x. tile_info_of (x.fields (Field.tile t)))
            (entry-reap_once-tiles R c out now j only w)

      -- A job that was given up is not swept again.
      pub reap_once-degraded :
          (w : Sweep R)
          → HoldsJob R c.default_tile_size j n Status.degraded w.server
          → reap_once R c out now only w ≡ w
      unfolding reap_job
      reap_once-degraded w v =
          reap_once-only w
          ∙ rw (get_job-HoldsJob R c.default_tile_size j n Status.degraded w.server v, reap_job)
              refl

      module _ (sends : Sends R c out j) where
        reap_missing-levels :
            (k : ℕ) (found : Job) (w : Sweep R) (missing again : List ℕ)
            → missing_tile_ids R j n w.server ≡ missing
            → retryable R j w.server missing ≡ again
            → 0 < found.tile_size
            → ((t : ℕ)
                → t < n
                → get_tile_results R j w.server t ≡ none
                → Level R c out j k t w.server)
            → ((t : ℕ) × (t < n) × (get_tile_results R j w.server t ≡ none))
            → ¬ IsHopeless R j n w.server
            → ((t : ℕ)
                → t < n
                → get_tile_results R j w.server t ≡ none
                → Level R c out j
                    (k + 1)
                    t
                    (reap_missing R c out now j found missing again w).server)
              × (get_last_reap_time R j (reap_missing R c out now j found missing again w).server
                  ≡ ok now)
        unfolding reap_missing
        reap_missing-levels k found w [] again e f positive levels (t, lt, none_yet) h =
            absurd (
              missing-covers R (λ _. ⊥) j n w.server (subst (All (λ _. ⊥)) (sym e) tt) t lt
                none_yet)
        reap_missing-levels k found w (m ∷ ms) [] e f positive levels some_missing h =
            absurd (h (none_retryable-IsHopeless R j n w.server m ms e f))
        reap_missing-levels k found w (m ∷ ms) (a ∷ more) e f positive levels some_missing h = (
          λ t lt none_yet. elim (Bool-cases (get_abandoned_tiles R j w.server t)) [
            | inl gone ↦
                requeue_job-inv R c out now j (λ v. Level R c out j (k + 1) t v.server)
                  (λ _. Unit {0}) (kept-Level R c out j (k + 1) t now) found (a ∷ more) w
                  (All-trivial (a ∷ more)) (inl gone)
            | inr still ↦
                missing-covers R _ j n w.server
                  (subst (All (Covered k w.server after)) (sym e) covered) t lt none_yet
                  (rw still refl)
          ],
          lifted.1,
        )
          where
            after : Server
            after = (requeue_job R c out now j found (a ∷ more) w).server

            fair : All (IsRetryable R j n w.server) (a ∷ more)
            fair =
                subst (All (IsRetryable R j n w.server)) (ap (retryable R j w.server) e ∙ f)
                  (Retryable-All R j n w.server)

            lifted :
                All (λ t. Level R c out j (k + 1) t after) (a ∷ more)
                × (get_last_reap_time R j after ≡ ok now)
            lifted = requeue_job-lift R c out j sends k now found (a ∷ more) w positive (
                All-imp (IsRetryable R j n w.server) (λ t. Level R c out j k t w.server) (a ∷ more)
                  (λ t q. levels t q.0.0 (is_missing R _ q.0.1)) fair)

            covered : All (Covered k w.server after) (m ∷ ms)
            covered =
                keep_if-All (λ t. not (get_abandoned_tiles R j w.server t))
                  (λ t. Level R c out j (k + 1) t after) (m ∷ ms)
                  (subst (All (λ t. Level R c out j (k + 1) t after)) (sym f) lifted.0)

        -- A sweep gives the waiting job up, or its tiles rise by one level.
        pub reap_once-Waits :
            (k last created tile_size : ℕ) (w : Sweep R)
            → Waits k last created tile_size w
            → max created last + c.outstanding_timeout ≤ now
            → 0 < tile_size
            → ((t : ℕ) × (t < n) × (get_tile_results R j w.server t ≡ none))
            → HoldsJob R c.default_tile_size j n Status.degraded
                (reap_once R c out now only w).server
              ⊎ ((¬ IsHopeless R j n w.server)
                  × Waits (k + 1) now created tile_size (reap_once R c out now only w))
        reap_once-Waits k last created tile_size w q late positive some_missing =
            elim (reap_job-IsHopeless R c out now j n last w q.held q.noted late') [
              | inl (hopeless, d) ↦ inl (
                  subst (λ st. HoldsJob R c.default_tile_size j n st w'.server) (given_up d)
                    settled)
              | inr (h, d) ↦ inr (
                h,
                record {
                  held =
                      subst (λ st. HoldsJob R c.default_tile_size j n st w'.server) (not_yet d)
                        settled;
                  size =
                      ap (int_or c.default_tile_size)
                        (field-reap_once R c out now j only w Field.tile_size refl refl)
                      ∙ q.size;
                  stamp =
                      ap (int_or 0) (field-reap_once R c out now j only w Field.timestamp refl refl)
                      ∙ q.stamp;
                  noted = (waited h).1;
                  not_given_up = ap (contains j) (same d) ∙ q.not_given_up;
                  levels = λ t lt none_yet.
                      (waited h).0 t lt (sym (get_tile_results-reap_once w t) ∙ none_yet);
                },
              )
            ]
          where
            e : q.held.job_hash.timestamp.0 ≡ created
            e = cc (q.held.job_hash.timestamp.1, q.stamp)

            e' : q.held.job_hash.tile_size.0 ≡ tile_size
            e' = cc (q.held.job_hash.tile_size.1, q.size)

            late' : max q.held.job_hash.timestamp.0 last + c.outstanding_timeout ≤ now
            late' = rw e late

            w' : Sweep R
            w' = reap_once R c out now only w

            settled :
                HoldsJob R c.default_tile_size j n (fate Status.processing j w'.degraded) w'.server
            settled =
                reap_once-Settled R c c.default_tile_size j n Status.processing out now only w
                  (rw q.not_given_up q.held)

            same : (reap_job R c out now j w).degraded ≡ w.degraded → w'.degraded ≡ w.degraded
            same d = ap (λ v. v.degraded) (reap_once-only w) ∙ d

            given_up :
                (reap_job R c out now j w).degraded ≡ j ∷ w.degraded
                → fate Status.processing j w'.degraded ≡ Status.degraded
            given_up d = rw (reap_once-only w, d, ==-refl j) refl

            not_yet :
                (reap_job R c out now j w).degraded ≡ w.degraded
                → fate Status.processing j w'.degraded ≡ Status.processing
            not_yet d = rw (same d, q.not_given_up) refl

            waited :
                ¬ IsHopeless R j n w.server
                → ((t : ℕ)
                    → t < n
                    → get_tile_results R j w.server t ≡ none
                    → Level R c out j (k + 1) t w'.server)
                  × (get_last_reap_time R j w'.server ≡ ok now)
            waited h =
                rw (reap_once-only w, reap_job_late R c out now j n last w q.held q.noted late')
                  (reap_missing-levels k _ w _ _ refl refl (rw e' positive) q.levels some_missing h)
