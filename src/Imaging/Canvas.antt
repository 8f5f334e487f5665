-- ===== src/Imaging/Canvas.antt =====
-- app/imaging.py: images as sizes with pixels, the tiles that are cut out of one, the JPEG codec
-- around OpenCV, and the image that is put together from tiles.
pub mod Tiles
pub mod RoundTrip
mod Tests
use dip.Prelude.{
  ℕ, ◌+◌, ◌-◌, ◌/◌, ◌*◌, List, [], ◌∷◌, Option, none, some, Bool, ◌&&◌, ◌||◌, ltb, leb, ◌==◌,
  Result, ok, raise, value_error, other_error, if◌then◌else◌, length, min, ◌>>=◌, map,
}
use dip.Imaging.{Geometry, layout}

-- An array of `height` rows and `width` columns. A pixel is a number that stands for its channels;
-- `at` has a meaning only for a column below the width and a row below the height.
pub record Image : Type 0 where
  pub width : ℕ
  pub height : ℕ
  pub at : ℕ → ℕ → ℕ

-- The length of the slice `start:start + n` of an axis.
abbrev pub slice : ℕ → ℕ → ℕ → ℕ
slice limit start n = min (start + n) limit - min start limit

-- `image[y:y + height, x:x + width].copy()`
pub crop : Image → Geometry → Image
crop image g = record {
  width = slice image.width g.x g.width;
  height = slice image.height g.y g.height;
  at = λ px py. image.at (g.x + px) (g.y + py);
}

-- `split_image_into_tiles`; the tile size 0 divides by zero.
pub split_image_into_tiles : ℕ → ℕ → Image → Result (List (Geometry × Image))
unfolding crop
split_image_into_tiles max_tiles tile_size image =
    let tiles_x = (image.width + tile_size - 1) / tile_size in
    let tiles_y = (image.height + tile_size - 1) / tile_size in
    if tile_size == 0
    then raise other_error
    else (if ltb max_tiles (tiles_x * tiles_y)
        then raise value_error
        else ok (map (λ g. (g, crop image g)) (layout image.width image.height tile_size)))

-- `encode_image`, over `cv2.imencode`.
pub encode_image : (Image → Option (List ℕ)) → Image → Result (List ℕ)
encode_image imencode image = elim (imencode image) [
  | none ↦ raise value_error
  | some bytes ↦ ok bytes
]

-- `image is None or image.size == 0`
abbrev pub checked : Option Image → Result Image
checked none = raise value_error
checked (some image) = if image.width == 0 || image.height == 0 then raise value_error else ok image

-- `decode_image`, over `cv2.imdecode`.
pub decode_image : (List ℕ → Option Image) → List ℕ → Result Image
decode_image imdecode bytes =
    if ltb (length bytes) 100 then raise value_error else checked (imdecode bytes)

-- `np.zeros`
abbrev pub zeros : ℕ → ℕ → Image
zeros width height = record { width = width; height = height; at = λ px py. 0 }

-- NumPy repeats an axis of length 1, and raises ValueError for any other wrong length.
abbrev pub stretches : ℕ → ℕ → Bool
stretches n length_of_slice = n == length_of_slice || n == 1

abbrev pub source : ℕ → ℕ → ℕ
source n i = if n == 1 then 0 else i

-- `reconstructed[y:y + height, x:x + width] = tile_image`
pub paint : Geometry → Image → Image → Result Image
paint g tile canvas =
    let columns = slice canvas.width g.x g.width in
    let rows = slice canvas.height g.y g.height in
    if stretches tile.width columns && stretches tile.height rows
    then ok (record canvas {
      at = λ px py.
          if (leb g.x px && ltb px (g.x + columns)) && (leb g.y py && ltb py (g.y + rows))
          then tile.at (source tile.width (px - g.x)) (source tile.height (py - g.y))
          else canvas.at px py;
    })
    else raise value_error

-- An exception of a tile is logged, and the tile is left out.
abbrev pub or_else : Image → Result Image → Image
or_else canvas (ok painted) = painted
or_else canvas (raise e) = canvas

module _ (imdecode : List ℕ → Option Image) where
  -- The body of the loop.
  pub add_tile : Image → Geometry × List ℕ → Image
  unfolding paint decode_image
  add_tile canvas (g, bytes) =
      or_else canvas (decode_image imdecode bytes >>= λ tile. paint g tile canvas)

  pub add_tiles : Image → List (Geometry × List ℕ) → Image
  unfolding add_tile
  add_tiles canvas [] = canvas
  add_tiles canvas (t ∷ ts) = add_tiles (add_tile canvas t) ts

  pub reconstruct_image_from_tiles : List (Geometry × List ℕ) → ℕ → ℕ → Image
  unfolding add_tiles
  reconstruct_image_from_tiles tiles_data original_width original_height =
      add_tiles (zeros original_width original_height) tiles_data
