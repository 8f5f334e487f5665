-- ===== src/Reaper/Frame.antt =====
-- What no sweep of master/reaper.py changes: the results, and the other fields of a job hash.
use dip.Prelude.{
  ℕ, ◌≡◌, refl, ap, ◌∙◌, sym, subst, Bool, List, false, ◌==◌, arith, inl, inr, Bool-cases, ==_iff,
}
use dip.Redis.{Redis, job, tiles, Field, Status, field_eq}
use dip.Jobstore.{set_job_status, set_last_reap_time}
use dip.Jobstore.Frame.{
  entry-incr_tile_attempts, entry-add_abandoned_tile, entry-set_job_status,
  entry-set_last_reap_time, field-set_last_reap_time, field-set_job_status,
}
use dip.Reaper.Cases.{reap_tile_cases}
use dip.Reaper.Invariant.{reap_once-inv}
use dip.Reaper.{Config, Outside, Sweep, reap_once}

module _ (R : Redis) where
  open R use {Server, entry, entry-command}

  module _ (c : Config) (out : Outside) (now j : ℕ) (jobs : List (Bool × ℕ)) (w : Sweep R) where
    pub entry-reap_once-tiles :
        entry (tiles j) (reap_once R c out now jobs w).server ≡ entry (tiles j) w.server
    entry-reap_once-tiles =
        reap_once-inv R c out now (λ w'. entry (tiles j) w'.server ≡ entry (tiles j) w.server)
          (record {
            requeue = λ j'. record {
              tile = λ o gs t w' _ e.
                  let counted = entry-incr_tile_attempts R j' w'.server (tiles j) t refl ∙ e in
                  reap_tile_cases R c out j' o gs
                    (λ w''. entry (tiles j) w''.server ≡ entry (tiles j) w.server) t w'
                    (entry-add_abandoned_tile R j' _ (tiles j) t refl ∙ counted) counted
                    (λ g h le there. counted);
              noted = λ w' e. entry-set_last_reap_time R j' w'.server (tiles j) now refl ∙ e;
            };
            given_up =
                λ j' w' e. entry-set_job_status R j' w'.server (tiles j) Status.degraded refl ∙ e;
          })
          jobs w refl

    module _ (f : Field) (not_note : field_eq Field.last_reap_time f ≡ false)
        (not_status : field_eq Field.status f ≡ false) where
      abbrev Same : Server → Type 0
      Same s = (entry (job j) s).fields f ≡ (entry (job j) w.server).fields f

      Same-entry : (s s' : Server) → entry (job j) s' ≡ entry (job j) s → Same s → Same s'
      Same-entry s s' e h = ap (λ x. x.fields f) e ∙ h

      noted-Same : (j' : ℕ) (s : Server) → Same s → Same (set_last_reap_time R j' now s)
      noted-Same j' s h = elim (Bool-cases (j' == j)) [
        | inl here ↦
            subst (λ k. Same (set_last_reap_time R k now s)) (sym ((==_iff j' j).0 here))
              (field-set_last_reap_time R j now s f not_note ∙ h)
        | inr away ↦
            Same-entry s _ (entry-set_last_reap_time R j' s (job j) now (ground (arith, away))) h
      ]

      given_up-Same : (j' : ℕ) (s : Server) → Same s → Same (set_job_status R j' Status.degraded s)
      given_up-Same j' s h = elim (Bool-cases (j' == j)) [
        | inl here ↦
            subst (λ k. Same (set_job_status R k Status.degraded s)) (sym ((==_iff j' j).0 here))
              (field-set_job_status R j Status.degraded s f not_status ∙ h)
        | inr away ↦
            Same-entry s _
              (entry-set_job_status R j' s (job j) Status.degraded (ground (arith, away))) h
      ]

      -- A field of the job other than the status and the note of the sweep stays as it was.
      pub field-reap_once : Same (reap_once R c out now jobs w).server
      field-reap_once =
          reap_once-inv R c out now (λ w'. Same w'.server)
            (record {
              requeue = λ j'. record {
                tile = λ o gs t w' _ h.
                    let counted =
                      Same-entry w'.server _
                        (entry-incr_tile_attempts R j' w'.server (job j) t refl) h in
                    reap_tile_cases R c out j' o gs (λ w''. Same w''.server) t w'
                      (Same-entry _ _ (entry-add_abandoned_tile R j' _ (job j) t refl) counted)
                      counted (λ g e le there. counted);
                noted = λ w' h. noted-Same j' w'.server h;
              };
              given_up = λ j' w' h. given_up-Same j' w'.server h;
            })
            jobs w refl
