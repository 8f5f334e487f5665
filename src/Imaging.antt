-- ===== src/Imaging.antt =====
-- app/imaging.py: the tile layout of an image.
pub mod Layout
pub mod Probe
pub mod Canvas
use dip.Prelude.{
  ℕ, ◌+◌, ◌-◌, ◌/◌, ◌*◌, List, [], ◌∷◌, ◌++◌, ◌||◌, Result, ok, raise, value_error, min, ltb, ◌==◌,
  if◌then◌else◌, length, range, Bool,
}

pub record Geometry : Type 0 where
  pub tile_id : ℕ
  pub x : ℕ
  pub y : ℕ
  pub width : ℕ
  pub height : ℕ

-- `min(x + tile_size, width) - x`, the side of the tile that begins at `x`.
abbrev pub side : ℕ → ℕ → ℕ → ℕ
side limit tile_size x = min (x + tile_size) limit - x

-- The body of the two loops: a tile with a side under 16 pixels is skipped.
pub add_tile : ℕ → ℕ → ℕ → ℕ → ℕ → List Geometry → List Geometry
add_tile width height tile_size y x geometries =
    if ltb (side width tile_size x) 16 || ltb (side height tile_size y) 16
    then geometries
    else (geometries
        ++ record {
          tile_id = length geometries;
          x = x;
          y = y;
          width = side width tile_size x;
          height = side height tile_size y;
        }
          ∷ [])

-- `for x in range(0, width, tile_size)`
pub add_row : ℕ → ℕ → ℕ → ℕ → List ℕ → List Geometry → List Geometry
add_row width height tile_size y [] geometries = geometries
add_row width height tile_size y (x ∷ xs) geometries =
    add_row width height tile_size y xs (add_tile width height tile_size y x geometries)

-- `for y in range(0, height, tile_size)`
pub add_rows : ℕ → ℕ → ℕ → List ℕ → List ℕ → List Geometry → List Geometry
add_rows width height tile_size xs [] geometries = geometries
add_rows width height tile_size xs (y ∷ ys) geometries =
    add_rows width height tile_size xs ys (add_row width height tile_size y xs geometries)

pub layout : ℕ → ℕ → ℕ → List Geometry
layout width height tile_size =
    add_rows width height tile_size (range width tile_size) (range height tile_size) []

-- `range` raises on the step 0.
pub tile_geometries : ℕ → ℕ → ℕ → Result (List Geometry)
unfolding layout
tile_geometries width height tile_size =
    if tile_size == 0 then raise value_error else ok (layout width height tile_size)
