-- ===== src/Detect/Merge.antt =====
-- The merge of master/ml_routes.py treats each class by itself.
use Prim.Native.String.{String}
use mathlib.Core.List.{append_assoc, append-nil}
use dip.Prelude.{
  ℕ, zero, suc, ◌<◌, ◌≡◌, refl, sym, ap, ◌∙◌, subst, List, [], ◌∷◌, ◌++◌, some, Bool, true, false,
  Result, ok, if◌then◌else◌, length, get_elem?, map, keep_if, All, All-append, arith, inl, inr,
  Bool-cases, ℤ, ◌+ℤ◌, neg, none, get_elem?-below, string_eq, string_eq→eq, string_eq_refl,
}
use dip.Redis.{Detection}
use dip.Detect.{
  Classes, add_to_class, group_by_class, box_xywh, Nms, pick, keep_class, keep_classes,
  cross_tile_nms,
}

-- The detection is of the class.
abbrev pub is_class : String → Detection → Bool
is_class c det = string_eq c det.class_name

-- What the documentation of NMSBoxes says of the indices: each is the index of a box.
abbrev pub IsWithin : Nms → Type 0
IsWithin nms =
    (boxes : List (ℤ × ℤ × ℤ × ℤ)) (confidences : List ℕ)
    → All (λ i. i < length boxes) (nms boxes confidences)

-- The items at the indices, in their order.
abbrev pub at_indices : List ℕ → List Detection → List Detection
at_indices [] dets = []
at_indices (i ∷ indices) dets = elim (get_elem? dets i) [
  | none ↦ at_indices indices dets
  | some det ↦ det ∷ at_indices indices dets
]

-- A box as NMSBoxes takes it: its left upper corner, its width and its height.
abbrev pub corner_and_sides : Detection → ℤ × ℤ × ℤ × ℤ
corner_and_sides det =
    (det.box.x1, det.box.y1, det.box.x2 +ℤ neg det.box.x1, det.box.y2 +ℤ neg det.box.y1)

-- What NMSBoxes keeps of detections by themselves; it is not asked for one alone.
abbrev pub alone : Nms → List Detection → List Detection
alone nms [] = []
alone nms (det ∷ []) = det ∷ []
alone nms (d ∷ e ∷ dets) =
    at_indices
      (nms (map corner_and_sides (d ∷ e ∷ dets))
        (map (λ (det : Detection). det.confidence) (d ∷ e ∷ dets)))
      (d ∷ e ∷ dets)

-- The group of a class, empty if there is none.
group_of : String → Classes → List Detection
group_of c [] = []
group_of c ((d, dets) ∷ classes) = if string_eq c d then dets else group_of c classes

group_of-add_to_class :
    (c : String) (det : Detection) (classes : Classes)
    → group_of c (add_to_class det classes)
      ≡ group_of c classes ++ (if is_class c det then det ∷ [] else [])
unfolding group_of add_to_class
group_of-add_to_class c det [] = elim (Bool-cases (is_class c det)) [
  | inl e ↦ rw e refl
  | inr e ↦ rw e refl
]
group_of-add_to_class c det ((d, dets) ∷ classes) = elim (Bool-cases (string_eq d det.class_name)) [
  | inl same ↦
      let e' : is_class c det ≡ string_eq c d =
        ap (string_eq c) (sym (string_eq→eq d det.class_name same)) in
      elim (Bool-cases (string_eq c d)) [
        | inl e ↦ rw (same, e', e) refl
        | inr e ↦ rw (same, e', e, append-nil) refl
      ]
  | inr other ↦ elim (Bool-cases (string_eq c d)) [
    | inl e ↦
        let e' : is_class c det ≡ false =
          ap (λ u. string_eq u det.class_name) (string_eq→eq c d e) ∙ other in
        rw (other, e, e', append-nil) refl
    | inr e ↦ rw (other, e) (group_of-add_to_class c det classes)
  ]
]

keep_if-append {ℓ} :
    {A : Type ℓ} (p : A → Bool) (xs ys : List A)
    → keep_if p (xs ++ ys) ≡ keep_if p xs ++ keep_if p ys
keep_if-append p [] ys = refl
keep_if-append p (x ∷ xs) ys = elim (Bool-cases (p x)) [
  | inl e ↦ rw (e, keep_if-append p xs ys) refl
  | inr e ↦ rw e (keep_if-append p xs ys)
]

group_of-group_by_class :
    (c : String) (dets : List Detection) (classes : Classes)
    → group_of c (group_by_class dets classes) ≡ group_of c classes ++ keep_if (is_class c) dets
unfolding group_by_class
group_of-group_by_class c [] classes = sym (append-nil (group_of c classes))
group_of-group_by_class c (det ∷ dets) classes =
    group_of-group_by_class c dets (add_to_class det classes)
    ∙ rw (group_of-add_to_class c det classes) (elim (Bool-cases (is_class c det)) [
      | inl e ↦ rw e (append_assoc (group_of c classes) (det ∷ []) (keep_if (is_class c) dets))
      | inr e ↦ rw (e, append-nil) refl
    ])

-- Each group holds detections of its class only, and no class has two groups.
abbrev IsGrouped : Classes → Type 0
IsGrouped [] = Unit {0}
IsGrouped ((c, dets) ∷ classes) =
    All (λ det. is_class c det ≡ true) dets × (group_of c classes ≡ []) × IsGrouped classes

add_to_class-IsGrouped :
    (det : Detection) (classes : Classes) → IsGrouped classes → IsGrouped (add_to_class det classes)
unfolding group_of add_to_class
add_to_class-IsGrouped det [] h = ((string_eq_refl det.class_name, tt), refl, tt)
add_to_class-IsGrouped det ((d, dets) ∷ classes) h =
    elim (Bool-cases (string_eq d det.class_name)) [
      | inl same ↦
          rw same
            (All-append (λ det'. is_class d det' ≡ true) dets (det ∷ []) h.0 (same, tt), h.1, h.2)
      | inr other ↦ rw other (
        h.0,
        group_of-add_to_class d det classes ∙ rw (h.1, other) refl,
        add_to_class-IsGrouped det classes h.2,
      )
    ]

group_by_class-IsGrouped :
    (dets : List Detection) (classes : Classes)
    → IsGrouped classes
    → IsGrouped (group_by_class dets classes)
unfolding group_by_class
group_by_class-IsGrouped [] classes h = h
group_by_class-IsGrouped (det ∷ dets) classes h =
    group_by_class-IsGrouped dets (add_to_class det classes) (add_to_class-IsGrouped det classes h)

-- The item at an index within the list has what all items have.
item_within {κ} :
    (P : Detection → Type κ) (dets : List Detection) (i : ℕ)
    → All P dets
    → i < length dets
    → (det : Detection) × (get_elem? dets i ≡ some det) × P det
item_within P [] i h lt = absurd (omega arith)
item_within P (det ∷ dets) zero h lt = (det, refl, h.0)
item_within P (det ∷ dets) (suc i) h lt = item_within P dets i h.1 (omega arith)

pick_within {κ} :
    (P : Detection → Type κ) (indices : List ℕ) (dets : List Detection)
    → All P dets
    → All (λ i. i < length dets) indices
    → (kept : List Detection) × (pick indices dets ≡ ok kept) × All P kept
unfolding pick
pick_within P [] dets h lt = ([], refl, tt)
pick_within P (i ∷ indices) dets h lt =
    let (det, found, p) = item_within P dets i h lt.0 in
    let (rest, picked, q) = pick_within P indices dets h lt.1 in
    (det ∷ rest, rw (found, picked) refl, (p, q))

length-map {ℓ κ} :
    {A : Type ℓ} {B : Type κ} (f : A → B) (xs : List A) → length (map f xs) ≡ length xs
length-map f [] = refl
length-map f (x ∷ xs) = omega (arith, length-map f xs)

keep_if-eq_self {ℓ} :
    {A : Type ℓ} (p : A → Bool) (xs : List A) → All (λ x. p x ≡ true) xs → keep_if p xs ≡ xs
keep_if-eq_self p [] h = refl
keep_if-eq_self p (x ∷ xs) h = rw (h.0, keep_if-eq_self p xs h.1) refl

-- A detection of one class is of no other.
keep_if_other :
    (c d : String) (dets : List Detection)
    → string_eq c d ≡ false
    → All (λ det. is_class d det ≡ true) dets
    → keep_if (is_class c) dets ≡ []
keep_if_other c d [] e h = refl
keep_if_other c d (det ∷ dets) e h =
    let e' : is_class c det ≡ false =
      ap (string_eq c) (sym (string_eq→eq d det.class_name h.0)) ∙ e in
    rw e' (keep_if_other c d dets e h.1)

ok_injective :
    {xs ys : List Detection} → ◌≡◌ {A = Result (List Detection)} (ok xs) (ok ys) → xs ≡ ys
ok_injective e = cc

module _ (nms : Nms) (w : IsWithin nms) where
  keep_class_within {κ} :
      (P : Detection → Type κ) (dets : List Detection)
      → All P dets
      → (kept : List Detection) × (keep_class nms dets ≡ ok kept) × All P kept
  unfolding keep_class
  keep_class_within P [] h = pick_within P (nms [] []) [] h (w [] [])
  keep_class_within P (det ∷ []) h = (det ∷ [], refl, h)
  keep_class_within P (d ∷ e ∷ dets) h =
      let all = d ∷ e ∷ dets in
      let boxes = map box_xywh all in
      let confidences = map (λ (det : Detection). det.confidence) all in
      pick_within P (nms boxes confidences) all h (
        subst (λ n. All (λ i. i < n) (nms boxes confidences)) (length-map box_xywh all)
          (w boxes confidences))

  keep_class-nil : keep_class nms [] ≡ ok []
  unfolding keep_class pick
  keep_class-nil = go (nms [] []) (w [] [])
    where
      go : (indices : List ℕ) → All (λ i. i < 0) indices → pick indices [] ≡ ok []
      go [] h = refl
      go (i ∷ indices) h = absurd (omega (arith, h.0))

  -- What the loop keeps of a class is what it keeps of its group.
  abbrev IsKeptByClass : (String → List Detection) → Result (List Detection) → Type 0
  IsKeptByClass group r =
      (kept : List Detection) × (r ≡ ok kept)
      × ((c : String) → ok (keep_if (is_class c) kept) ≡ keep_class nms (group c))

  keep_classes-IsKeptByClass :
      (classes : Classes)
      → IsGrouped classes
      → IsKeptByClass (λ c. group_of c classes) (keep_classes nms classes)
  unfolding keep_classes group_of
  keep_classes-IsKeptByClass [] h = ([], refl, λ c. sym keep_class-nil)
  keep_classes-IsKeptByClass ((d, dets) ∷ classes) h =
      let (kept, one, all_d) = keep_class_within (λ det. is_class d det ≡ true) dets h.0 in
      let (rest, others, by_class) = keep_classes-IsKeptByClass classes h.2 in
      let none_left : keep_if (is_class d) rest ≡ [] =
        ok_injective (by_class d ∙ ap (keep_class nms) h.1 ∙ keep_class-nil) in
      let at_d : ok (keep_if (is_class d) (kept ++ rest)) ≡ keep_class nms dets =
        rw
          (
            keep_if-append (is_class d) kept rest,
            keep_if-eq_self (is_class d) kept all_d,
            none_left,
            append-nil,
            one,
          )
          refl in
      (
        kept ++ rest,
        rw (one, others) refl,
        λ c. elim (Bool-cases (string_eq c d)) [
          | inl e ↦ rw e (
              subst (λ u. ok (keep_if (is_class u) (kept ++ rest)) ≡ keep_class nms dets)
                (sym (string_eq→eq c d e)) at_d)
          | inr e ↦
              rw (e, keep_if-append (is_class c) kept rest, keep_if_other c d kept e all_d)
                (by_class c)
        ],
      )

  pick-at_indices :
      (indices : List ℕ) (dets : List Detection)
      → All (λ i. i < length dets) indices
      → pick indices dets ≡ ok (at_indices indices dets)
  unfolding pick
  pick-at_indices [] dets h = refl
  pick-at_indices (i ∷ indices) dets h =
      let (det, found) = get_elem?-below dets i h.0 in
      rw (found, at_indices, pick-at_indices indices dets h.1) refl

  keep_class-alone : (dets : List Detection) → keep_class nms dets ≡ ok (alone nms dets)
  unfolding keep_class
  keep_class-alone [] = keep_class-nil
  keep_class-alone (det ∷ []) = refl
  keep_class-alone (d ∷ e ∷ dets) =
      let all = d ∷ e ∷ dets in
      let boxes = map box_xywh all in
      let confidences = map (λ (det : Detection). det.confidence) all in
      pick-at_indices (nms boxes confidences) all (
        subst (λ n. All (λ i. i < n) (nms boxes confidences)) (length-map box_xywh all)
          (w boxes confidences))

  -- What is kept of a class is what NMSBoxes keeps of its group.
  abbrev pub IsByClass : (String → List Detection) → Result (List Detection) → Type 0
  IsByClass group r =
      (kept : List Detection) × (r ≡ ok kept)
      × ((c : String) → keep_if (is_class c) kept ≡ alone nms (group c))

  -- If NMSBoxes answers with indices of the boxes that it is given, the merge raises nothing, and
  -- what it keeps of a class is what NMSBoxes keeps of the detections of that class alone, in their
  -- order: all if there is just one, and no detection suppresses one of another class.
  pub cross_tile_nms-IsByClass :
      (dets : List Detection) → IsByClass (λ c. keep_if (is_class c) dets) (cross_tile_nms nms dets)
  unfolding cross_tile_nms group_of
  cross_tile_nms-IsByClass dets =
      let (kept, e, by_class) =
        keep_classes-IsKeptByClass (group_by_class dets []) (group_by_class-IsGrouped dets [] tt) in
      (
        kept,
        e,
        λ c. ok_injective (
            by_class c
            ∙ ap (keep_class nms) (group_of-group_by_class c dets [])
            ∙ keep_class-alone (keep_if (is_class c) dets)),
      )
