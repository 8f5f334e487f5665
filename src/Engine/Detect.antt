-- ===== src/Engine/Detect.antt =====
-- The detector of inference/engine.py: what it reports of the answer of its model.
pub mod Batching
use Prim.Native.String.{String}
use mathlib.Core.List.{append_assoc, append-nil}
use dip.Prelude.{
  ℤ, ℕ, zero, suc, ◌+◌, ◌≤◌, ◌<◌, ◌≡◌, refl, sym, ap, ◌∙◌, subst, List, [], ◌∷◌, ◌++◌, Option, none,
  some, Bool, true, false, ltb, leb, Result, ok, length, length-append, get_elem?, get_elem?-append,
  get_elem?-below, map, keep_if, All, All-imp, All-append, All-keep_if, arith, inl, inr, Bool-cases,
}
use dip.Redis.{Box, Detection}
use dip.Engine.Names.{coco_classes}
use dip.Engine.{
  each, argmax_from, argmax, Floats, Anchor, Scored, score, xywh_of, Xywh, Letterbox,
  undo_letterbox, detection_of, report, NmsBoxes, report_kept, is_confident, postprocess,
  detect_conf_threshold,
}

module _ {ℓ} {A : Type ℓ} where
  get_elem?-left :
      (xs ys : List A) (i : ℕ) (x : A) → get_elem? xs i ≡ some x → get_elem? (xs ++ ys) i ≡ some x
  get_elem?-left [] ys i x e = cc
  get_elem?-left (y ∷ xs) ys zero x e = e
  get_elem?-left (y ∷ xs) ys (suc i) x e = get_elem?-left xs ys i x e

  All-at {κ} :
      (P : A → Type κ) (xs : List A) (i : ℕ) (x : A) → All P xs → get_elem? xs i ≡ some x → P x
  All-at P [] i x h e = absurd cc
  All-at P (y ∷ xs) zero x h e = let same : y ≡ x = cc in subst P same h.0
  All-at P (y ∷ xs) (suc i) x h e = All-at P xs i x h.1 e

  below_of_at : (xs : List A) (i : ℕ) (x : A) → get_elem? xs i ≡ some x → i < length xs
  below_of_at [] i x e = absurd cc
  below_of_at (y ∷ xs) zero x e = omega arith
  below_of_at (y ∷ xs) (suc i) x e = omega (arith, below_of_at xs i x e)

-- The score stands at the index, and none is higher.
abbrev pub IsBest : List ℕ → ℕ → ℕ → Type 0
IsBest scores i x = (get_elem? scores i ≡ some x) × All (λ y. y ≤ x) scores

argmax_from-IsBest :
    (xs : List ℕ) (best x i : ℕ) (before : List ℕ)
    → length before ≡ i
    → IsBest before best x
    → IsBest (before ++ xs) (argmax_from best x i xs).0 (argmax_from best x i xs).1
argmax_from-IsBest [] best x i before e h = rw append-nil h
argmax_from-IsBest (y ∷ ys) best x i before e h = elim (Bool-cases (ltb x y)) [
  | inl higher ↦ rw (higher) (
      simp (append_assoc) at (
        argmax_from-IsBest ys i y (i + 1) (before ++ y ∷ [])
          (omega (arith, e, length-append before (y ∷ [])))
          (
            subst (λ n. get_elem? (before ++ y ∷ []) n ≡ some y) e (get_elem?-append before y []),
            All-append _ before (y ∷ [])
                (All-imp _ _ before (λ z le. ground (arith, le, higher)) h.1) (omega arith, tt),
          )))
  | inr lower ↦ rw (lower) (
      simp (append_assoc) at (
        argmax_from-IsBest ys best x (i + 1) (before ++ y ∷ [])
          (omega (arith, e, length-append before (y ∷ [])))
          (
            get_elem?-left before (y ∷ []) best x h.0,
            All-append _ before (y ∷ []) h.1 (ground (arith, lower), tt),
          )))
]

module _ (F : Floats) where
  open F use {Number, minus, plus, over, two, tenths}

  abbrev pub confidences : List (Scored F) → List ℕ
  confidences kept = map (λ (s : Scored F). s.confidence) kept

  -- An output has a score for each class, of which COCO has 80.
  abbrev pub HasScores : Anchor F → Type 0
  HasScores a = (0 < length a.scores) × (length a.scores ≤ 80)

  -- The anchors in their order, each with a best class and its score.
  abbrev pub IsScoring : List (Anchor F) → List (Scored F) → Type 0
  IsScoring [] scored = scored ≡ []
  IsScoring (a ∷ preds) scored =
      (s : Scored F) × (rest : List (Scored F)) × (scored ≡ s ∷ rest)
      × (s.anchor ≡ a)
      × IsBest a.scores s.class_id s.confidence
      × IsScoring preds rest

  -- The class is one of COCO.
  abbrev IsNamed : Scored F → Type 0
  IsNamed s = s.class_id < 80

  argmax-IsBest :
      (scores : List ℕ)
      → 0 < length scores
      → (r : ℕ × ℕ) × (argmax scores ≡ ok r) × IsBest scores r.0 r.1
  argmax-IsBest [] h = absurd (omega (arith, h))
  argmax-IsBest (x ∷ xs) h =
      (_, refl, argmax_from-IsBest xs 0 x 1 (x ∷ []) refl (refl, (omega arith, tt)))

  each-score :
      (preds : List (Anchor F))
      → All HasScores preds
      → (scored : List (Scored F)) × (each (score F) preds ≡ ok scored)
        × IsScoring preds scored
        × All IsNamed scored
  unfolding score
  each-score [] h = ([], refl, refl, tt)
  each-score (a ∷ preds) h =
      let (best, e, good) = argmax-IsBest a.scores h.0.0 in
      let (scored, e', rest, named) = each-score preds h.1 in
      let s : Scored F = record { anchor = a; class_id = best.0; confidence = best.1 } in
      (
        s ∷ scored,
        rw (e, e') refl,
        (s, scored, refl, refl, good, rest),
        (omega (arith, h.0.1, below_of_at a.scores best.0 best.1 good.0), named),
      )

  -- The indices of NMSBoxes are of its boxes.
  abbrev pub IsWithin : NmsBoxes F → Type 0
  IsWithin nms =
      (boxes : List (Xywh F)) (confidences : List ℕ)
      → All (λ i. i < length boxes) (nms boxes confidences)

  -- The left upper corner of an anchor, which is given by its centre, and its sides.
  abbrev pub box_of : Scored F → Xywh F
  box_of s = let a = s.anchor in (minus a.cx (over a.w two), minus a.cy (over a.h two), a.w, a.h)

  abbrev pub boxes_of : List (Scored F) → List (Xywh F)
  boxes_of kept = map box_of kept

  length-boxes_of : (kept : List (Scored F)) → length (boxes_of kept) ≡ length kept
  length-boxes_of [] = refl
  length-boxes_of (s ∷ kept) = omega (arith, length-boxes_of kept)

  -- The scored anchors that are not under the threshold of 4000 / 10000.
  abbrev pub over_threshold : List (Scored F) → List (Scored F)
  over_threshold scored = keep_if (λ (s : Scored F). leb 4_000 s.confidence) scored

  -- What NMSBoxes answers for them; it is not asked if there are none.
  abbrev pub indices_of : NmsBoxes F → List (Scored F) → List ℕ
  indices_of nms [] = []
  indices_of nms (s ∷ kept) = nms (boxes_of (s ∷ kept)) (confidences (s ∷ kept))

  module _ (l : Letterbox F) where
    -- A coordinate without the padding and the scale of the letterbox.
    abbrev pub original : Number → Number → ℤ
    original v padding = tenths (over (minus v padding) l.scale)

    -- The detection of an anchor: its corners in the image, its score, and the name of its class.
    abbrev pub detected : Scored F → String → Detection
    detected s name = record {
      class_name = name;
      confidence = s.confidence;
      classify_label = none;
      classify_confidence = none;
      box = record {
        x1 = original (box_of s).0 l.left;
        y1 = original (box_of s).1 l.top;
        x2 = original (plus (box_of s).0 s.anchor.w) l.left;
        y2 = original (plus (box_of s).1 s.anchor.h) l.top;
      };
    }

    -- The detection is that of the anchor at the index.
    abbrev pub IsReported : List (Scored F) → ℕ → Detection → Type 0
    IsReported kept idx d =
        (s : Scored F) × (name : String) × (get_elem? kept idx ≡ some s)
        × (get_elem? coco_classes s.class_id ≡ some name)
        × (d ≡ detected s name)

    -- One detection for each index, in their order.
    abbrev pub AreReported : List (Scored F) → List ℕ → List Detection → Type 0
    AreReported kept [] ds = ds ≡ []
    AreReported kept (idx ∷ indices) ds =
        (d : Detection) × (rest : List Detection) × (ds ≡ d ∷ rest)
        × IsReported kept idx d
        × AreReported kept indices rest

    report-IsReported :
        (kept : List (Scored F)) (idx : ℕ)
        → All IsNamed kept
        → idx < length kept
        → (d : Detection) × (report F l kept idx ≡ ok d) × IsReported kept idx d
    unfolding report
    report-IsReported kept idx h lt =
        let (s, e) = get_elem?-below kept idx lt in
        let (name, e') = get_elem?-below coco_classes s.class_id (All-at IsNamed kept idx s h e) in
        (detection_of F l s name, rw (e, e') refl, (s, name, e, e', refl))

    each-report :
        (kept : List (Scored F)) (indices : List ℕ)
        → All IsNamed kept
        → All (λ i. i < length kept) indices
        → (ds : List Detection) × (each (report F l kept) indices ≡ ok ds)
          × AreReported kept indices ds
    each-report kept [] h within = ([], refl, refl)
    each-report kept (idx ∷ indices) h within =
        let (d, e, good) = report-IsReported kept idx h within.0 in
        let (ds, e', rest) = each-report kept indices h within.1 in
        (d ∷ ds, rw (e, e') refl, (d, ds, refl, good, rest))

    report_kept-AreReported :
        (nms : NmsBoxes F) (kept : List (Scored F))
        → IsWithin nms
        → All IsNamed kept
        → (ds : List Detection) × (report_kept F nms l kept ≡ ok ds)
          × AreReported kept (indices_of nms kept) ds
    unfolding report_kept
    report_kept-AreReported nms [] within h = ([], refl, refl)
    report_kept-AreReported nms (s ∷ kept) within h = each-report (s ∷ kept) _ h (
        subst (λ n. All (λ i. i < n) (nms (boxes_of (s ∷ kept)) (confidences (s ∷ kept))))
          (length-boxes_of (s ∷ kept)) (within _ _))

    -- If NMSBoxes answers with indices of its boxes and each anchor has a score for each class, then
    -- the postprocessing raises nothing. It gives each anchor a best class, and reports, for each of
    -- the indices that NMSBoxes answers for the anchors over the threshold and in their order, the
    -- anchor at that index: the name of its class, its score, and its corners in the image.
    pub postprocess-AreReported :
        (nms : NmsBoxes F) (preds : List (Anchor F))
        → IsWithin nms
        → All HasScores preds
        → (scored : List (Scored F)) × (ds : List Detection) × IsScoring preds scored
          × (postprocess F nms preds l ≡ ok ds)
          × AreReported (over_threshold scored) (indices_of nms (over_threshold scored)) ds
    unfolding postprocess
    postprocess-AreReported nms preds within h =
        let (scored, e, scoring, named) = each-score preds h in
        let (ds, e', reported) = report_kept-AreReported nms (over_threshold scored) within (
          All-imp _ _ _ (λ s q. q.0)
            (All-keep_if (λ (s : Scored F). leb 4_000 s.confidence) IsNamed scored named)) in
        (scored, ds, scoring, rw e e', reported)
