-- ===== src/Reaper/Liveness/Lift.antt =====
-- What one sweep of master/reaper.py does to the counters of the tiles that it sends again.
use dip.Prelude.{
  ℕ, ◌+◌, ◌≤◌, ◌<◌, ◌≡◌, ◌⊎◌, refl, sym, subst, ap, ◌∙◌, max, List, [], ◌∷◌, true, ok, arith, inl,
  inr, All, All-imp, ==-refl,
}
use dip.Imaging.{Geometry}
use dip.Imaging.Layout.{tile_geometries-IsLayout}
use dip.Redis.{Redis, attempts, abandoned, Operation}
use dip.Tasks.{Topic, Task}
use dip.Jobstore.{
  Job, incr_tile_attempts, add_abandoned_tile, set_last_reap_time, get_abandoned_tiles,
  get_last_reap_time,
}
use dip.Jobstore.Frame.{
  entry-incr_tile_attempts, entry-add_abandoned_tile, entry-set_last_reap_time,
  counter-incr_tile_attempts, returned-incr_tile_attempts, members-add_abandoned_tile,
  get_last_reap_time-set_last_reap_time,
}
use dip.Reaper.Cases.{reap_tile_ends, reap_tile_cases}
use dip.Reaper.Invariant.{IsKeptByRequeue, reap_tiles-inv, All-trivial}
use dip.Reaper.{Config, Outside, Sweep, reap_tile, reap_tiles, requeue_job}

module _ (R : Redis) (c : Config) (out : Outside) (j : ℕ) where
  open R use {Server, entry}

  -- The tile is abandoned, or it was counted `k` times and may be counted again.
  abbrev pub Level : ℕ → ℕ → Server → Type 0
  Level k u s =
      (get_abandoned_tiles R j s u ≡ true)
      ⊎ ((k ≤ (entry (attempts j u) s).counter) × (k < max c.max_tile_attempts 1))

  -- The producer raises nothing.
  abbrev pub Sends : Type 0
  Sends = (topic : Topic) (k : Task) → out.produce topic k ≡ ok tt

  counted-Level : (k u t : ℕ) (s : Server) → Level k u s → Level k u (incr_tile_attempts R j t s).0
  counted-Level k u t s (inl gone) =
      inl (ap (λ x. x.members u) (entry-incr_tile_attempts R j s (abandoned j) t refl) ∙ gone)
  counted-Level k u t s (inr (le, lt)) =
      inr (rw (counter-incr_tile_attempts R j t j u s) (omega (arith, le)), lt)

  abandoned-Level : (k u t : ℕ) (s : Server) → Level k u s → Level k u (add_abandoned_tile R j t s)
  abandoned-Level k u t s (inl gone) =
      inl (members-add_abandoned_tile R j t u s ∙ ground (arith, gone))
  abandoned-Level k u t s (inr (le, lt)) =
      inr (rw (entry-add_abandoned_tile R j s (attempts j u) t refl) le, lt)

  reap_tile-Level :
      (k u : ℕ) (o : Operation) (gs : List Geometry) (t : ℕ) (w : Sweep R)
      → Level k u w.server
      → Level k u (reap_tile R c out j o gs t w).0.server
  reap_tile-Level k u o gs t w h =
      let counted = counted-Level k u t w.server h in
      reap_tile_cases R c out j o gs (λ w'. Level k u w'.server) t w
        (abandoned-Level k u t _ counted) counted (λ g e le there. counted)

  noted-Level : (k u now : ℕ) (s : Server) → Level k u s → Level k u (set_last_reap_time R j now s)
  noted-Level k u now s (inl gone) =
      inl (ap (λ x. x.members u) (entry-set_last_reap_time R j s (abandoned j) now refl) ∙ gone)
  noted-Level k u now s (inr (le, lt)) =
      inr (rw (entry-set_last_reap_time R j s (attempts j u) now refl) le, lt)

  pub kept-Level :
      (k u now : ℕ) → IsKeptByRequeue R c out now j (λ w. Level k u w.server) (λ _. Unit {0})
  kept-Level k u now = record {
    tile = λ o gs t w _. reap_tile-Level k u o gs t w;
    noted = λ w. noted-Level k u now w.server;
  }

  module _ (sends : Sends) where
    -- The tile that the loop body handles rises by one level.
    reap_tile-lift :
        (k : ℕ) (o : Operation) (gs : List Geometry) (t : ℕ) (w : Sweep R)
        → Level k t w.server
        → Level (k + 1) t (reap_tile R c out j o gs t w).0.server
          × ((reap_tile R c out j o gs t w).1 ≡ ok tt)
    reap_tile-lift k o gs t w h =
        reap_tile_ends R c out j o gs (λ p. Level (k + 1) t p.0.server × (p.1 ≡ ok tt)) t w
          (inl (members-add_abandoned_tile R j t t _ ∙ rw (==-refl t) refl), refl)
          (λ topic task x e. absurd (cc (sends topic task, e))) (λ g e le there. (again h le, refl))
      where
        s : Server
        s = w.server

        again :
            Level k t s
            → (incr_tile_attempts R j t s).1 + 1 ≤ c.max_tile_attempts
            → Level (k + 1) t (incr_tile_attempts R j t s).0
        again (inl gone) le = counted-Level (k + 1) t t s (inl gone)
        again (inr (low, lt)) le =
            let counter = (entry (attempts j t) (incr_tile_attempts R j t s).0).counter in
            let e : counter ≡ (entry (attempts j t) s).counter + 1 =
              counter-incr_tile_attempts R j t j t s ∙ rw (==-refl j, ==-refl t) refl in
            inr (omega (arith, e, low), omega (arith, low, le, returned-incr_tile_attempts R j t s))

    reap_tiles_ok :
        (o : Operation) (gs : List Geometry) (t : ℕ) (ts : List ℕ) (w : Sweep R)
        → (reap_tile R c out j o gs t w).1 ≡ ok tt
        → reap_tiles R c out j o gs (t ∷ ts) w
          ≡ reap_tiles R c out j o gs ts (reap_tile R c out j o gs t w).0
    unfolding reap_tiles
    reap_tiles_ok o gs t ts w e = rw (e, reap_tiles) refl

    -- So does every tile of the loop.
    reap_tiles-lift :
        (k : ℕ) (o : Operation) (gs : List Geometry) (ts : List ℕ) (w : Sweep R)
        → All (λ t. Level k t w.server) ts
        → All (λ t. Level (k + 1) t (reap_tiles R c out j o gs ts w).0.server) ts
          × ((reap_tiles R c out j o gs ts w).1 ≡ ok tt)
    unfolding reap_tiles
    reap_tiles-lift k o gs [] w h = (tt, refl)
    reap_tiles-lift k o gs (t ∷ ts) w h =
        let w' = (reap_tile R c out j o gs t w).0 in
        let (first, e) = reap_tile-lift k o gs t w h.0 in
        let (rest, e') =
          reap_tiles-lift k o gs ts w' (All-imp _ _ ts (λ u. reap_tile-Level k u o gs t w) h.1) in
        subst (λ p. All (λ u. Level (k + 1) u p.0.server) (t ∷ ts) × (p.1 ≡ ok tt))
          (sym (reap_tiles_ok o gs t ts w e))
          (
            (
              reap_tiles-inv R c out 0 j (λ v. Level (k + 1) t v.server) (λ _. Unit {0})
                  (kept-Level (k + 1) t 0) o gs ts w' (All-trivial ts) first,
              rest,
            ),
            e',
          )

    -- And the requeue notes its time.
    pub requeue_job-lift :
        (k now : ℕ) (found : Job) (ts : List ℕ) (w : Sweep R)
        → 0 < found.tile_size
        → All (λ t. Level k t w.server) ts
        → All (λ t. Level (k + 1) t (requeue_job R c out now j found ts w).server) ts
          × (get_last_reap_time R j (requeue_job R c out now j found ts w).server ≡ ok now)
    unfolding requeue_job
    requeue_job-lift k now found ts w positive h =
        elim (tile_geometries-IsLayout found.original_width found.original_height found.tile_size) [
          | inl (zero_size, e) ↦ absurd (omega (arith, positive, zero_size))
          | inr (gs, e, good) ↦
              let (lifted, sent) = reap_tiles-lift k found.operation gs ts w h in
              let w' = (reap_tiles R c out j found.operation gs ts w).0 in
              rw (e, requeue_job, sent)
                (
                  All-imp _ _ ts (λ u. noted-Level (k + 1) u now w'.server) lifted,
                  get_last_reap_time-set_last_reap_time R j now w'.server,
                )
        ]
