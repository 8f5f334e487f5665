-- ===== src/Publisher/Accounts.antt =====
-- What the two publishers count, and what they leave in the job hash.
use dip.Prelude.{
  ℕ, zero, suc, ◌+◌, ◌<◌, ◌≡◌, ◌∙◌, refl, sym, ap, List, [], ◌∷◌, Bool, true, false, ltb, ◌==◌,
  Result, ok, raise, if◌then◌else◌, ◌>>=◌, length, All, arith, ==-refl,
}
use dip.Imaging.{Geometry}
use dip.Redis.{Redis, job, Field, Operation, number_of}
use dip.Tasks.{Task}
use dip.Reaper.{topic_of}
use dip.Publisher.{
  staged_key, task_of, Outside, is_buffer_error, record_publish_failure, delivery_failures,
  Publishing, after_produce, after_failure, publish_tile, publish_all, nothing_published,
  publish_tile_tasks,
}

-- How the staging and the production of a tile end.
abbrev pub ending : Outside → ℕ → Operation → Geometry → Result (Unit {0})
ending out j o g = out.put_tile (staged_key j o g) >>= λ _.
    out.produce (topic_of o) (task_of j o g (staged_key j o g))

abbrev pub failures_in : Result (Unit {0}) → ℕ
failures_in (ok _) = 0
failures_in (raise e) = 1

-- The failed deliveries that are reported on behalf of a tile.
abbrev pub reports_in : ℕ → Result (Unit {0}) → ℕ
reports_in n (ok _) = n
reports_in n (raise e) = if is_buffer_error e then n else 0

abbrev pub total : (Geometry → ℕ) → List Geometry → ℕ
total f [] = 0
total f (g ∷ gs) = f g + total f gs

abbrev pub IsDispatch : ℕ → Task → Type 0
IsDispatch j k = (k.job_id ≡ j) × (k.blob_key.job_id ≡ j) × (k.blob_key.tile_id ≡ k.tile_id)

module _ (R : Redis) where
  open R use {Server, entry, entry-command}

  abbrev pub failed_tasks : ℕ → Server → ℕ
  failed_tasks j s = number_of ((entry (job j) s).fields Field.failed_tasks)

  delivery_failures-failed_tasks :
      (j n : ℕ) (s : Server) → failed_tasks j (delivery_failures R j n s) ≡ failed_tasks j s + n
  unfolding delivery_failures
  delivery_failures-failed_tasks j zero s = omega arith
  delivery_failures-failed_tasks j (suc n) s =
      delivery_failures-failed_tasks j n _ ∙ simp (entry-command, ==-refl) (omega arith)

  record_publish_failure-failed_tasks :
      (j : ℕ) (s : Server) → failed_tasks j (record_publish_failure R j s) ≡ failed_tasks j s + 1
  unfolding record_publish_failure
  record_publish_failure-failed_tasks j s = simp (entry-command, ==-refl) refl

  -- `tiles` tiles were tried; `failures` of them failed, and `reports` deliveries did.
  pub record IsAccounted (j tiles failures reports : ℕ) (s : Server) (w : Publishing R)
      : Type 0 where
    pub tried : w.published_count + w.failed_count ≡ tiles
    pub failed : w.failed_count ≡ failures
    pub produced : length w.sent ≡ w.published_count
    pub recorded : failed_tasks j w.server ≡ failed_tasks j s + failures + reports
    pub dispatched : All (IsDispatch j) w.sent

  module _ (out : Outside) (j : ℕ) (o : Operation) (batch_size : ℕ) where
    after_produce-IsAccounted :
        (task : Task) (n tiles failures reports : ℕ) (s : Server) (w : Publishing R)
        → 0 < batch_size
        → IsDispatch j task
        → IsAccounted j tiles failures reports s w
        → IsAccounted j
            (tiles + 1)
            (failures + 0)
            (reports + n)
            s
            (after_produce R j batch_size n task w)
    unfolding after_produce
    after_produce-IsAccounted task n tiles failures reports s w pos own v =
        let full : (batch_size == 0) ≡ false = ground (arith, pos) in
        rw full (record {
          tried = omega (arith, v.tried);
          failed = omega (arith, v.failed);
          produced = omega (arith, v.produced);
          recorded = omega (arith, v.recorded, delivery_failures-failed_tasks j n w.server);
          dispatched = (own, v.dispatched);
        })

    after_failure-IsAccounted :
        (b : Bool) (n tiles failures reports : ℕ) (s : Server) (w : Publishing R)
        → IsAccounted j tiles failures reports s w
        → IsAccounted j
            (tiles + 1)
            (failures + 1)
            (reports + (if b then n else 0))
            s
            (after_failure R j n b w)
    unfolding after_failure
    after_failure-IsAccounted true n tiles failures reports s w v = record {
      tried = omega (arith, v.tried);
      failed = omega (arith, v.failed);
      produced = v.produced;
      recorded = omega (
        arith,
        v.recorded,
        delivery_failures-failed_tasks j n w.server,
        record_publish_failure-failed_tasks j (delivery_failures R j n w.server),
      );
      dispatched = v.dispatched;
    }
    after_failure-IsAccounted false n tiles failures reports s w v = record {
      tried = omega (arith, v.tried);
      failed = omega (arith, v.failed);
      produced = v.produced;
      recorded = omega (arith, v.recorded, record_publish_failure-failed_tasks j w.server);
      dispatched = v.dispatched;
    }

    publish_tile-IsAccounted :
        (g : Geometry) (tiles failures reports : ℕ) (s : Server) (w : Publishing R)
        → 0 < batch_size
        → IsAccounted j tiles failures reports s w
        → IsAccounted j
            (tiles + 1)
            (failures + failures_in (ending out j o g))
            (reports + reports_in (out.failed_reports g) (ending out j o g))
            s
            (publish_tile R out j o batch_size g w)
    unfolding publish_tile after_produce after_failure
    publish_tile-IsAccounted g tiles failures reports s w pos v = go (ending out j o g) refl
      where
        go :
            (r : Result (Unit {0}))
            → ending out j o g ≡ r
            → IsAccounted j
                (tiles + 1)
                (failures + failures_in (ending out j o g))
                (reports + reports_in (out.failed_reports g) (ending out j o g))
                s
                (publish_tile R out j o batch_size g w)
        go (ok _) e =
            rw (e, ending, publish_tile)
              (after_produce-IsAccounted (task_of j o g (staged_key j o g)) (out.failed_reports g)
                tiles failures reports s w pos (refl, refl, refl) v)
        go (raise x) e =
            rw (e, ending, publish_tile)
              (after_failure-IsAccounted (is_buffer_error x) (out.failed_reports g) tiles failures
                reports s w v)

    publish_all-IsAccounted :
        (gs : List Geometry) (tiles failures reports : ℕ) (s : Server) (w : Publishing R)
        → 0 < batch_size
        → IsAccounted j tiles failures reports s w
        → IsAccounted j
            (tiles + length gs)
            (failures + total (λ g. failures_in (ending out j o g)) gs)
            (reports + total (λ g. reports_in (out.failed_reports g) (ending out j o g)) gs)
            s
            (publish_all R out j o batch_size gs w)
    unfolding publish_all
    publish_all-IsAccounted [] tiles failures reports s w pos v = record {
      tried = omega (arith, v.tried);
      failed = omega (arith, v.failed);
      produced = v.produced;
      recorded = omega (arith, v.recorded);
      dispatched = v.dispatched;
    }
    publish_all-IsAccounted (g ∷ gs) tiles failures reports s w pos v =
        let rest =
          publish_all-IsAccounted gs _ _ _ s _ pos
            (publish_tile-IsAccounted g tiles failures reports s w pos v) in
        record {
          tried = omega (arith, rest.tried);
          failed = omega (arith, rest.failed);
          produced = rest.produced;
          recorded = omega (arith, rest.recorded);
          dispatched = rest.dispatched;
        }

  -- With a positive batch size every tile of a new job is either published or counted as failed,
  -- and those that failed are those whose staging or `produce` raised. The `failed_tasks` of the
  -- job hash grows by exactly these and by the failed deliveries that the client reported, in
  -- between or in the last flush. Every task that was sent is of the job, with the blob of its own
  -- tile. The call says that it succeeded exactly if some task was sent.
  pub publish_tile_tasks-IsAccounted :
      (out : Outside) (j : ℕ) (tiles : List Geometry) (o : Operation) (batch_size : ℕ) (s : Server)
      → 0 < batch_size
      → let (w, success) = publish_tile_tasks R out j tiles o batch_size s in
        IsAccounted j
          (length tiles)
          (total (λ g. failures_in (ending out j o g)) tiles)
          (total (λ g. reports_in (out.failed_reports g) (ending out j o g)) tiles
            + out.last_reports)
          s
          w
        × (success ≡ ltb 0 (length w.sent))
  unfolding publish_tile_tasks
  publish_tile_tasks-IsAccounted out j tiles o batch_size s pos =
      let start : IsAccounted j 0 0 0 s (nothing_published R s) = record {
        tried = refl;
        failed = refl;
        produced = refl;
        recorded = omega arith;
        dispatched = tt;
      } in
      let w = publish_all R out j o batch_size tiles (nothing_published R s) in
      let v =
        publish_all-IsAccounted out j o batch_size tiles 0 0 0 s (nothing_published R s) pos
          start in
      (
        record {
          tried = omega (arith, v.tried);
          failed = omega (arith, v.failed);
          produced = v.produced;
          recorded =
              omega (arith, v.recorded, delivery_failures-failed_tasks j out.last_reports w.server);
          dispatched = v.dispatched;
        },
        ap (ltb 0) (sym v.produced),
      )
