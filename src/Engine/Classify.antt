-- ===== src/Engine/Classify.antt =====
-- The classifier of inference/engine.py against the model on one crop at a time.
use Prim.Native.String.{String}
use dip.Prelude.{
  ℕ, ◌+◌, ◌<◌, ◌≡◌, ◌⊎◌, refl, sym, ap, ◌∙◌, subst, List, [], ◌∷◌, ◌++◌, none, some, true, false,
  ok, if◌then◌else◌, length, length-append, get_elem?, get_elem?-append, get_elem?-below, replicate,
  map, keep_if, arith, inl, inr, Bool-cases,
}
use mathlib.Core.List.{append_assoc}
use dip.Engine.Names.{imagenet_classes}
use dip.Engine.{
  enumerate_from, set_elem, Classifier, Label, unknown_label, is_valid, valid_crops, write_labels,
  classify_valid, classify_batch,
}

module _ {ℓ} {A : Type ℓ} where
  set_elem-append :
      (xs : List A) (x a : A) (ys : List A) → set_elem (length xs) a (xs ++ x ∷ ys) ≡ xs ++ a ∷ ys
  set_elem-append [] x a ys = refl
  set_elem-append (y ∷ xs) x a ys = ap (λ zs. y ∷ zs) (set_elem-append xs x a ys)

-- The name of a class; there is no other index than of a class.
abbrev name_at : ℕ → String
name_at i = elim (get_elem? imagenet_classes i) [ some name ↦ name | none ↦ "unknown" ]

name_at_lem : (i : ℕ) → i < 1000 → get_elem? imagenet_classes i ≡ some (name_at i)
name_at_lem i h = let (name, e) = get_elem?-below imagenet_classes i h in rw e refl

module _ {Crop Tensor Logits : Type 0} (m : Classifier Crop Tensor Logits)
    (row : Tensor → Logits) where
  -- The label of a crop by itself.
  abbrev pub label_alone : Crop → Label
  label_alone crop =
      if is_valid m crop
      then (name_at (m.top_of (row (m.tensor_of crop))).0, (m.top_of (row (m.tensor_of crop))).1)
      else unknown_label

  abbrev kept : ℕ → List Crop → List (ℕ × Crop)
  kept i crops = keep_if (λ p. is_valid m p.1) (enumerate_from i crops)

  abbrev answers : List (ℕ × Crop) → List Logits
  answers valid = map (λ p. row (m.tensor_of p.1)) valid

  map_twice : (valid : List (ℕ × Crop)) → map row (map (λ p. m.tensor_of p.1) valid) ≡ answers valid
  map_twice [] = refl
  map_twice (v ∷ valid) = ap (λ xs. row (m.tensor_of v.1) ∷ xs) (map_twice valid)

  kept-valid :
      (c : Crop) (crops : List Crop) (i : ℕ)
      → is_valid m c ≡ true
      → kept i (c ∷ crops) ≡ (i, c) ∷ kept (i + 1) crops
  kept-valid c crops i e = rw e refl

  module _ (in_table : (l : Logits) → (m.top_of l).0 < 1000) where
    write_labels_step :
        (c : Crop) (valid : List (ℕ × Crop)) (i k : ℕ) (done : List Label) (pre rest : List Logits)
        (more : List Label)
        → length done ≡ i
        → length pre ≡ k
        → is_valid m c ≡ true
        → write_labels m k
            ((i, c) ∷ valid)
            (pre ++ row (m.tensor_of c) ∷ rest)
            (done ++ unknown_label ∷ more)
          ≡ write_labels m
              (k + 1)
              valid
              (pre ++ row (m.tensor_of c) ∷ rest)
              (done ++ label_alone c ∷ more)
    unfolding write_labels
    write_labels_step c valid i k done pre rest more ei ek e =
        rw
          (
            sym ei,
            sym ek,
            get_elem?-append pre (row (m.tensor_of c)) rest,
            name_at_lem (m.top_of (row (m.tensor_of c))).0 (in_table (row (m.tensor_of c))),
            e,
          )
          (ap (write_labels m (length pre + 1) valid (pre ++ row (m.tensor_of c) ∷ rest))
            (set_elem-append done unknown_label _ more))

    abbrev Writes : ℕ → List (ℕ × Crop) → List Logits → List Label → List Label → Type 0
    Writes k valid outputs results labels = write_labels m k valid outputs results ≡ ok labels

    -- The loop leaves what is written before, and writes the rest as each crop by itself.
    write_labels-alone :
        (crops : List Crop) (i k : ℕ) (done : List Label) (pre : List Logits)
        → length done ≡ i
        → length pre ≡ k
        → Writes k
            (kept i crops)
            (pre ++ answers (kept i crops))
            (done ++ replicate (length crops) unknown_label)
            (done ++ map label_alone crops)
    unfolding write_labels
    write_labels-alone [] i k done pre ei ek = refl
    write_labels-alone (c ∷ crops) i k done pre ei ek = go (Bool-cases (is_valid m c)) (λ k' before.
        write_labels-alone crops (i + 1) k' (done ++ label_alone c ∷ []) before
          (omega (arith, length-append done (label_alone c ∷ []), ei)))
      where
        go :
            (is_valid m c ≡ true) ⊎ (is_valid m c ≡ false)
            → ((k' : ℕ) (before : List Logits)
                → length before ≡ k'
                → Writes k'
                    (kept (i + 1) crops)
                    (before ++ answers (kept (i + 1) crops))
                    ((done ++ label_alone c ∷ []) ++ replicate (length crops) unknown_label)
                    ((done ++ label_alone c ∷ []) ++ map label_alone crops))
            → Writes k
                (kept i (c ∷ crops))
                (pre ++ answers (kept i (c ∷ crops)))
                (done ++ unknown_label ∷ replicate (length crops) unknown_label)
                (done ++ label_alone c ∷ map label_alone crops)
        go (inl e) h =
            let x = row (m.tensor_of c) in
            let h' =
              simp (append_assoc) at
                (h (k + 1) (pre ++ x ∷ []) (omega (arith, length-append pre (x ∷ []), ek))) in
            subst
              (λ valid.
                Writes k valid (pre ++ answers valid)
                  (done ++ unknown_label ∷ replicate (length crops) unknown_label)
                  (done ++ label_alone c ∷ map label_alone crops))
              (sym (kept-valid c crops i e))
              (write_labels_step c (kept (i + 1) crops) i k done pre _ _ ei ek e ∙ h')
        go (inr e) h = let h' = simp (append_assoc, e) at (h k pre ek) in rw e h'

    classify_valid-alone :
        (rowwise : (t : Tensor) (ts : List Tensor) → m.run (t ∷ ts) ≡ ok (map row (t ∷ ts)))
        (crops : List Crop) (valid : List (ℕ × Crop)) (labels : List Label)
        → Writes 0 valid (answers valid) (replicate (length crops) unknown_label) labels
        → classify_valid m crops valid ≡ ok labels
    unfolding classify_valid
    classify_valid-alone rowwise crops [] labels h = h
    classify_valid-alone rowwise crops (v ∷ valid) labels h =
        rw (rowwise (m.tensor_of v.1) (map (λ p. m.tensor_of p.1) valid), map_twice (v ∷ valid)) h

    -- If the model answers a batch row by row, and its answers name classes, then each crop of a
    -- batch gets the label that it gets by itself, in the place of the crop, and a crop with no pixel
    -- gets 'unknown'; nothing is raised.
    pub classify_batch-alone :
        (rowwise : (t : Tensor) (ts : List Tensor) → m.run (t ∷ ts) ≡ ok (map row (t ∷ ts)))
        (crops : List Crop)
        → classify_batch m crops ≡ ok (map label_alone crops)
    unfolding classify_batch
    classify_batch-alone rowwise crops =
        classify_valid-alone rowwise crops (valid_crops m crops) _
          (write_labels-alone crops 0 0 [] [] refl refl)
