-- ===== src/Imaging/Canvas/Tiles.antt =====
-- What app/imaging.py puts together: each pixel comes from the tile that holds it.
use dip.Prelude.{
  ℕ, ◌+◌, ◌-◌, ◌≤◌, ◌<◌, ◌≡◌, refl, List, [], ◌∷◌, Option, none, some, Bool, true, false, ◌==◌,
  Result, ok, raise, if◌then◌else◌, arith, All, inl, inr, Bool-cases,
}
use dip.Imaging.{Geometry}
use dip.Imaging.Layout.{covers}
use dip.Imaging.Canvas.{
  Image, slice, decode_image, zeros, paint, or_else, add_tile, add_tiles,
  reconstruct_image_from_tiles,
}

-- The first of the tiles that holds the pixel.
abbrev pub holder : ℕ → ℕ → List (Geometry × List ℕ) → Option (Geometry × List ℕ)
holder px py [] = none
holder px py (t ∷ ts) = if covers px py t.0 then some t else holder px py ts

-- What the canvas shows of a tile at a place in it: nothing if it does not decode.
abbrev pub pixel_of : ℕ → ℕ → Result Image → ℕ → ℕ
pixel_of dx dy (ok tile) old = tile.at dx dy
pixel_of dx dy (raise e) old = old

abbrev pub held : (List ℕ → Option Image) → ℕ → ℕ → Option (Geometry × List ℕ) → ℕ
held imdecode px py none = 0
held imdecode px py (some t) = pixel_of (px - t.0.x) (py - t.0.y) (decode_image imdecode t.1) 0

-- How many of the tiles hold the pixel.
abbrev pub holders : ℕ → ℕ → List (Geometry × List ℕ) → ℕ
holders px py [] = 0
holders px py (t ∷ ts) = (if covers px py t.0 then 1 else 0) + holders px py ts

-- The tile lies in an image of the size, and its bytes do not decode or have the tile's own size.
pub record IsSound (imdecode : List ℕ → Option Image) (w h : ℕ) (t : Geometry × List ℕ)
    : Type 0 where
  pub right : t.0.x + t.0.width ≤ w
  pub lower : t.0.y + t.0.height ≤ h
  pub wide : 1 < t.0.width
  pub high : 1 < t.0.height
  pub sized :
      (tile : Image)
      → decode_image imdecode t.1 ≡ ok tile
      → (tile.width ≡ t.0.width) × (tile.height ≡ t.0.height)

-- A canvas of that size that shows `v` at the pixel.
record Shows (w h px py v : ℕ) (canvas : Image) : Type 0 where
  columns : canvas.width ≡ w
  rows : canvas.height ≡ h
  pixel : canvas.at px py ≡ v

ite_same : (b : Bool) (v : ℕ) → (if b then v else v) ≡ v
ite_same true v = refl
ite_same false v = refl

module _ (imdecode : List ℕ → Option Image) (w h px py : ℕ) where
  paint-Shows :
      (g : Geometry) (tile canvas : Image) (v : ℕ)
      → g.x + g.width ≤ w
      → g.y + g.height ≤ h
      → 1 < g.width
      → 1 < g.height
      → tile.width ≡ g.width
      → tile.height ≡ g.height
      → Shows w h px py v canvas
      → Shows w h px py
          (if covers px py g then tile.at (px - g.x) (py - g.y) else v)
          (or_else canvas (paint g tile canvas))
  unfolding paint
  paint-Shows g tile canvas v right lower wide high tw th s =
      let columns : slice canvas.width g.x g.width ≡ g.width = ground (arith, s.columns, right) in
      let rows : slice canvas.height g.y g.height ≡ g.height = ground (arith, s.rows, lower) in
      let fit : (tile.width == g.width) ≡ true = ground (arith, tw) in
      let fit' : (tile.height == g.height) ≡ true = ground (arith, th) in
      let one : (tile.width == 1) ≡ false = ground (arith, tw, wide) in
      let one' : (tile.height == 1) ≡ false = ground (arith, th, high) in
      simp (columns, rows, fit, fit', one, one')
        (record { columns = s.columns; rows = s.rows; pixel = ground (arith, s.pixel) })

  add_tile-Shows :
      (canvas : Image) (v : ℕ) (t : Geometry × List ℕ)
      → IsSound imdecode w h t
      → Shows w h px py v canvas
      → Shows w h px py
          (if covers px py t.0
            then pixel_of (px - t.0.x) (py - t.0.y) (decode_image imdecode t.1) v
            else v)
          (add_tile imdecode canvas t)
  unfolding add_tile
  add_tile-Shows canvas v (g, bytes) k s = go (decode_image imdecode bytes) refl
    where
      go :
          (r : Result Image)
          → decode_image imdecode bytes ≡ r
          → Shows w h px py
              (if covers px py g
                then pixel_of (px - g.x) (py - g.y) (decode_image imdecode bytes) v
                else v)
              (add_tile imdecode canvas (g, bytes))
      go (raise e) d = rw (d, add_tile, ite_same (covers px py g) v) s
      go (ok tile) d =
          let size = k.sized tile d in
          rw (d, add_tile)
            (paint-Shows g tile canvas v k.right k.lower k.wide k.high size.0 size.1 s)

  -- Tiles that do not hold the pixel leave it.
  add_tiles_elsewhere :
      (ts : List (Geometry × List ℕ)) (canvas : Image) (v : ℕ)
      → All (IsSound imdecode w h) ts
      → holders px py ts ≡ 0
      → Shows w h px py v canvas
      → Shows w h px py v (add_tiles imdecode canvas ts)
  unfolding add_tiles
  add_tiles_elsewhere [] canvas v k e s = s
  add_tiles_elsewhere (t ∷ ts) canvas v k e s =
      let out : covers px py t.0 ≡ false = ground (arith, e) in
      add_tiles_elsewhere ts (add_tile imdecode canvas t) v k.1 (ground (arith, e))
        (rw out at (add_tile-Shows canvas v t k.0 s))

  add_tiles-Shows :
      (ts : List (Geometry × List ℕ)) (canvas : Image)
      → All (IsSound imdecode w h) ts
      → holders px py ts ≤ 1
      → Shows w h px py 0 canvas
      → Shows w h px py (held imdecode px py (holder px py ts)) (add_tiles imdecode canvas ts)
  unfolding add_tiles
  add_tiles-Shows [] canvas k e s = s
  add_tiles-Shows (t ∷ ts) canvas k e s = elim (Bool-cases (covers px py t.0)) [
    | inl in_tile ↦ rw in_tile (
        add_tiles_elsewhere ts (add_tile imdecode canvas t) _ k.1 (ground (arith, e, in_tile))
          (rw in_tile at (add_tile-Shows canvas 0 t k.0 s)))
    | inr out ↦ rw out (
        add_tiles-Shows ts (add_tile imdecode canvas t) k.1 (ground (arith, e, out))
          (rw out at (add_tile-Shows canvas 0 t k.0 s)))
  ]

  -- If every tile lies in the image and decodes, if at all, to its own size, then a pixel that at
  -- most one tile holds shows the pixel of that tile at its place in it, and is 0 if no tile holds
  -- it or the tile does not decode: one tile that is broken spoils no other.
  pub reconstruct-at :
      (ts : List (Geometry × List ℕ))
      → All (IsSound imdecode w h) ts
      → holders px py ts ≤ 1
      → (reconstruct_image_from_tiles imdecode ts w h).at px py
        ≡ held imdecode px py (holder px py ts)
  unfolding reconstruct_image_from_tiles
  reconstruct-at ts k e =
      (add_tiles-Shows ts (zeros w h) k e
        (record { columns = refl; rows = refl; pixel = refl })).pixel
