-- ===== src/Imaging/Canvas/RoundTrip.antt =====
-- An image that app/imaging.py cuts into tiles and puts together again.
use dip.Prelude.{
  ℕ, ◌+◌, ◌-◌, ◌*◌, ◌≤◌, ◌<◌, ◌≡◌, refl, sym, ap, ◌∙◌, subst, List, [], ◌∷◌, Option, Bool, true,
  false, ◌⊎◌, ◌&&◌, leb, Result, ok, arith, All, inl, inr, Bool-cases, map,
}
use native.Mathlib.Nat.{zero-add}
use dip.Imaging.{Geometry, layout, side}
use dip.Imaging.Layout.{covers, coverage, coverage-layout, IsWithin, layout-IsLayout}
use dip.Imaging.Canvas.{
  Image, crop, decode_image, split_image_into_tiles, reconstruct_image_from_tiles,
}
use dip.Imaging.Canvas.Tiles.{IsSound, pixel_of, held, holder, holders, reconstruct-at}

-- A tile that is split off, with what is stored for it.
abbrev pub stored_tile : (Geometry × Image → List ℕ) → Geometry × Image → Geometry × List ℕ
stored_tile stored t = (t.0, stored t)

-- The tiles of the image and their stored bytes, for some of its geometries.
abbrev cut : Image → Geometry → Geometry × Image
cut image g = (g, crop image g)

split_image_into_tiles-ok :
    (max_tiles ts : ℕ) (image : Image) (tiles : List (Geometry × Image))
    → split_image_into_tiles max_tiles ts image ≡ ok tiles
    → tiles ≡ map (cut image) (layout image.width image.height ts)
unfolding split_image_into_tiles
split_image_into_tiles-ok max_tiles ts image tiles e = ground arith

module _ {ℓ} (Near : ℕ → ℕ → Type ℓ) (imdecode : List ℕ → Option Image)
    (stored : Geometry × Image → List ℕ) where
  -- The tile comes back from its stored bytes in its size, each of its pixels near to what it was.
  -- With equality for `Near` that is a lossless codec, with a tolerance a lossy one.
  pub record Returns (t : Geometry × Image) : Type ℓ where
    pub decoded : Image
    pub decodes : decode_image imdecode (stored t) ≡ ok decoded
    pub sized : (decoded.width ≡ t.1.width) × (decoded.height ≡ t.1.height)
    pub near :
        (px py : ℕ) → px < t.1.width → py < t.1.height → Near (decoded.at px py) (t.1.at px py)

  module _ (image : Image) where
    abbrev back : List Geometry → List (Geometry × List ℕ)
    back gs = map (stored_tile stored) (map (cut image) gs)

    holders-coverage :
        (px py : ℕ) (gs : List Geometry) → holders px py (back gs) ≡ coverage px py gs
    holders-coverage px py [] = refl
    holders-coverage px py (g ∷ gs) = omega (arith, holders-coverage px py gs)

    ok_injective : {a b : Image} → ◌≡◌ {A = Result Image} (ok a) (ok b) → a ≡ b
    ok_injective e = cc

    crop-sized :
        (g : Geometry)
        → g.x + g.width ≤ image.width
        → g.y + g.height ≤ image.height
        → ((crop image g).width ≡ g.width) × ((crop image g).height ≡ g.height)
    unfolding crop
    crop-sized g right lower = (ground (arith, right), ground (arith, lower))

    decoded-sized :
        (ts : ℕ) (g : Geometry) (tile : Image)
        → IsWithin image.width image.height ts g
        → Returns (cut image g)
        → decode_image imdecode (stored (cut image g)) ≡ ok tile
        → (tile.width ≡ g.width) × (tile.height ≡ g.height)
    decoded-sized ts g tile k r e =
        let same : r.decoded ≡ tile = ok_injective (sym r.decodes ∙ e) in
        let size = crop-sized g k.right k.lower in
        (
          sym (ap (λ (u : Image). u.width) same) ∙ r.sized.0 ∙ size.0,
          sym (ap (λ (u : Image). u.height) same) ∙ r.sized.1 ∙ size.1,
        )

    back-IsSound :
        (ts : ℕ) (gs : List Geometry)
        → All (IsWithin image.width image.height ts) gs
        → All Returns (map (cut image) gs)
        → All (IsSound imdecode image.width image.height) (back gs)
    back-IsSound ts [] k r = tt
    back-IsSound ts (g ∷ gs) k r = (
      record {
        right = k.0.right;
        lower = k.0.lower;
        wide = omega (arith, k.0.wide);
        high = omega (arith, k.0.high);
        sized = λ tile e. decoded-sized ts g tile k.0 r.0 e;
      },
      back-IsSound ts gs k.1 r.1,
    )

    -- What the canvas shows at a pixel of the image: near to it if some tile holds it, else 0.
    abbrev IsHeld : ℕ → ℕ → ℕ → ℕ → Type ℓ
    IsHeld px py n shown = ((0 < n) × Near shown (image.at px py)) ⊎ ((n ≡ 0) × (shown ≡ 0))

    tile-Near :
        (px py ts : ℕ) (g : Geometry)
        → IsWithin image.width image.height ts g
        → Returns (cut image g)
        → covers px py g ≡ true
        → Near
            (pixel_of (px - g.x) (py - g.y) (decode_image imdecode (stored (cut image g))) 0)
            (image.at px py)
    unfolding crop
    tile-Near px py ts g k r in_tile =
        let size = crop-sized g k.right k.lower in
        let x : g.x + (px - g.x) ≡ px = ground (arith, in_tile) in
        let y : g.y + (py - g.y) ≡ py = ground (arith, in_tile) in
        let near =
          r.near (px - g.x) (py - g.y) (ground (arith, in_tile, size.0))
            (ground (arith, in_tile, size.1)) in
        rw r.decodes (
          subst (λ v. Near (r.decoded.at (px - g.x) (py - g.y)) v)
            (ap (λ u. image.at u (g.y + (py - g.y))) x ∙ ap (image.at px) y) near)

    held-back :
        (px py ts : ℕ) (gs : List Geometry)
        → All (IsWithin image.width image.height ts) gs
        → All Returns (map (cut image) gs)
        → IsHeld px py (coverage px py gs) (held imdecode px py (holder px py (back gs)))
    held-back px py ts [] k r = inr (refl, refl)
    held-back px py ts (g ∷ gs) k r = elim (Bool-cases (covers px py g)) [
      | inl in_tile ↦ rw in_tile (inl (omega arith, tile-Near px py ts g k.0 r.0 in_tile))
      | inr out ↦ rw (out, zero-add) (held-back px py ts gs k.1 r.1)
    ]

    -- Both sides of the cell are at least 16 long.
    abbrev pub is_kept : ℕ → ℕ → ℕ → Bool
    is_kept ts i j = leb 16 (side image.width ts (i * ts)) && leb 16 (side image.height ts (j * ts))

    -- At a place (dx, dy) in the cell (i, j) an image shows a pixel near to the original's if the
    -- cell is kept, and 0 if not.
    abbrev pub IsRebuilt : ℕ → ℕ → ℕ → ℕ → ℕ → Image → Type ℓ
    IsRebuilt ts i j dx dy rebuilt =
        ((is_kept ts i j ≡ true)
          × Near (rebuilt.at (i * ts + dx) (j * ts + dy)) (image.at (i * ts + dx) (j * ts + dy)))
        ⊎ ((is_kept ts i j ≡ false) × (rebuilt.at (i * ts + dx) (j * ts + dy) ≡ 0))

    -- If every tile that was split off comes back from its stored bytes in its size with its pixels
    -- near to what they were, then the image that is put together from them, in the size of the
    -- original, shows a pixel near to the original's wherever both sides of the cell are at least 16
    -- long, and 0 in the strips that are in no tile. A pixel is given by its cell (i, j) and its
    -- place (dx, dy) in the cell; near is any relation of pixels.
    pub reconstruct-split :
        (max_tiles ts i j dx dy : ℕ) (tiles : List (Geometry × Image))
        → split_image_into_tiles max_tiles ts image ≡ ok tiles
        → All Returns tiles
        → dx < ts
        → dy < ts
        → i * ts + dx < image.width
        → j * ts + dy < image.height
        → IsRebuilt ts i j dx dy (
            reconstruct_image_from_tiles imdecode
              (map (stored_tile stored) tiles)
              image.width
              image.height)
    reconstruct-split max_tiles ts i j dx dy tiles e r hx hy px py =
        let gs = layout image.width image.height ts in
        let same = split_image_into_tiles-ok max_tiles ts image tiles e in
        let r' : All Returns (map (cut image) gs) = subst (All Returns) same r in
        let here = coverage-layout image.width image.height ts i j dx dy hx hy px py in
        let within = (layout-IsLayout image.width image.height ts).within in
        let one : coverage (i * ts + dx) (j * ts + dy) gs ≤ 1 = ground (arith, here) in
        let shown =
          reconstruct-at imdecode image.width image.height (i * ts + dx) (j * ts + dy) (back gs)
            (back-IsSound ts gs within r')
            (omega (arith, holders-coverage (i * ts + dx) (j * ts + dy) gs, one)) in
        elim (held-back (i * ts + dx) (j * ts + dy) ts gs within r') [
          | inl (some_tile, near) ↦ rw (same, shown) (inl (ground (arith, here, some_tile), near))
          | inr (no_tile, dark) ↦ rw (same, shown) (inr (ground (arith, here, no_tile), dark))
        ]
