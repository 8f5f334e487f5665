-- ===== src/Publisher/Readable.antt =====
-- The publishers leave their job readable, as it was but for its failed tasks.
use dip.Prelude.{
  ℕ, zero, suc, ◌≡◌, refl, List, [], ◌∷◌, ◌==◌, Result, ok, raise, arith, inl, inr, Bool-cases,
  ==-refl,
}
use dip.Imaging.{Geometry}
use dip.Redis.{Redis, Status, Operation, object_detection}
use dip.Jobstore.View.{HoldsJob}
use dip.Publisher.{
  Outside, is_buffer_error, record_publish_failure, delivery_failures, Publishing, after_produce,
  after_failure, publish_tile, publish_all, nothing_published, publish_tile_tasks, publish_ml_tasks,
}
use dip.Publisher.Accounts.{ending}

module _ (R : Redis) (d j n : ℕ) (st : Status) where
  open R use {Server, entry, command, entry-command}

  record_publish_failure-HoldsJob :
      (s : Server) → HoldsJob R d j n st s → HoldsJob R d j n st (record_publish_failure R j s)
  unfolding record_publish_failure
  record_publish_failure-HoldsJob s v =
      let h = v.job_hash in
      record {
        job_hash =
            simp (entry-command, ==-refl)
              (record {
                width = h.width;
                height = h.height;
                tile_size = h.tile_size;
                timestamp = h.timestamp;
                start = h.start;
                workers = h.workers;
                results = h.results;
                failed = (_, refl);
                completion = h.completion;
                status = h.status;
                expected = h.expected;
              });
        nonempty = simp (entry-command, ==-refl) (omega (arith, v.nonempty));
      }

  delivery_failures-HoldsJob :
      (k : ℕ) (s : Server) → HoldsJob R d j n st s → HoldsJob R d j n st (delivery_failures R j k s)
  unfolding delivery_failures record_publish_failure
  delivery_failures-HoldsJob zero s v = v
  delivery_failures-HoldsJob (suc k) s v =
      delivery_failures-HoldsJob k _ (record_publish_failure-HoldsJob s v)

  abbrev Readable : Publishing R → Type 0
  Readable w = HoldsJob R d j n st w.server

  module _ (out : Outside) (o : Operation) (batch_size : ℕ) where
    publish_tile-Readable :
        (g : Geometry) (w : Publishing R)
        → Readable w
        → Readable (publish_tile R out j o batch_size g w)
    unfolding publish_tile after_produce after_failure
    publish_tile-Readable g w v = go (ending out j o g) refl
      where
        produced :
            Readable (record w { server = delivery_failures R j (out.failed_reports g) w.server })
        produced = delivery_failures-HoldsJob (out.failed_reports g) w.server v

        go :
            (r : Result (Unit {0}))
            → ending out j o g ≡ r
            → Readable (publish_tile R out j o batch_size g w)
        go (ok _) e = elim (Bool-cases (batch_size == 0)) [
          | inl zero_size ↦
              rw (e, ending, publish_tile, zero_size) (record_publish_failure-HoldsJob _ produced)
          | inr positive ↦ rw (e, ending, publish_tile, positive) produced
        ]
        go (raise x) e = elim (Bool-cases (is_buffer_error x)) [
          | inl flushes ↦
              rw (e, ending, publish_tile, flushes) (record_publish_failure-HoldsJob _ produced)
          | inr other ↦
              rw (e, ending, publish_tile, other) (record_publish_failure-HoldsJob w.server v)
        ]

    publish_all-Readable :
        (gs : List Geometry) (w : Publishing R)
        → Readable w
        → Readable (publish_all R out j o batch_size gs w)
    unfolding publish_all
    publish_all-Readable [] w v = v
    publish_all-Readable (g ∷ gs) w v = publish_all-Readable gs _ (publish_tile-Readable g w v)

    pub publish_tile_tasks-HoldsJob :
        (gs : List Geometry) (s : Server)
        → HoldsJob R d j n st s
        → HoldsJob R d j n st (publish_tile_tasks R out j gs o batch_size s).0.server
    unfolding publish_tile_tasks
    publish_tile_tasks-HoldsJob gs s v =
        delivery_failures-HoldsJob out.last_reports _
          (publish_all-Readable gs (nothing_published R s) v)

  pub publish_ml_tasks-HoldsJob :
      (out : Outside) (batch_size : ℕ) (gs : List Geometry) (s : Server)
      → HoldsJob R d j n st s
      → HoldsJob R d j n st (publish_ml_tasks R out j gs batch_size s).0.server
  unfolding publish_ml_tasks
  publish_ml_tasks-HoldsJob out batch_size gs s v =
      delivery_failures-HoldsJob out.last_reports _
        (publish_all-Readable out object_detection batch_size gs (nothing_published R s) v)
