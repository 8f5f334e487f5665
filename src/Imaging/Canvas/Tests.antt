-- ===== src/Imaging/Canvas/Tests.antt =====
-- The theorems on the tiles of an image, at concrete inputs.
use dip.Prelude.{
  ℕ, ◌-◌, ◌/◌, ◌≤◌, ◌+◌, ◌*◌, ◌≡◌, refl, List, [], ◌∷◌, Option, none, some, ok, replicate, arith,
  All, map,
}
use dip.Imaging.{Geometry, layout, add_rows, add_row, add_tile}
use dip.Imaging.Canvas.{
  Image, crop, decode_image, split_image_into_tiles, reconstruct_image_from_tiles,
}
use dip.Imaging.Canvas.RoundTrip.{stored_tile, Returns, IsRebuilt, reconstruct-split}

-- A picture of 75 by 40 pixels whose colour grows to the right and downwards.
abbrev slope : Image
slope = record { width = 75; height = 40; at = λ px py. 3 * px + py + 1 }

-- A codec for slopes: the size of a tile, its first pixel without its last bit, the two steps, and
-- some filling.
abbrev stored : Geometry × Image → List ℕ
stored t =
    t.1.width
    ∷ t.1.height
    ∷ t.1.at 0 0 / 2
    ∷ (t.1.at 1 0 - t.1.at 0 0)
    ∷ (t.1.at 0 1 - t.1.at 0 0)
    ∷ replicate 96 0

abbrev imdecode : List ℕ → Option Image
imdecode (w ∷ h ∷ c ∷ right ∷ down ∷ rest) =
    some (record { width = w; height = h; at = λ px py. 2 * c + (right * px + down * py) })
imdecode _ = none

-- A pixel may lose 1.
abbrev Near : ℕ → ℕ → Type 0
Near a b = (a ≤ b) × (b ≤ a + 1)

abbrev tiles : List (Geometry × Image)
tiles =
    (
      record { tile_id = 0; x = 0; y = 0; width = 32; height = 32 },
      record { width = 32; height = 32; at = λ px py. 3 * (0 + px) + (0 + py) + 1 },
    )
    ∷ (
      record { tile_id = 1; x = 32; y = 0; width = 32; height = 32 },
      record { width = 32; height = 32; at = λ px py. 3 * (32 + px) + (0 + py) + 1 },
    )
    ∷ []

slope-split : split_image_into_tiles 100 32 slope ≡ ok tiles
unfolding split_image_into_tiles crop layout add_rows add_row add_tile
slope-split = refl

stored-Returns : All (Returns Near imdecode stored) tiles
unfolding decode_image
stored-Returns = (
  record {
    decoded = record { width = 32; height = 32; at = λ px py. 2 * 0 + (3 * px + 1 * py) };
    decodes = refl;
    sized = (refl, refl);
    near = λ px py x y. (omega arith, omega arith);
  },
  (
    record {
      decoded = record { width = 32; height = 32; at = λ px py. 2 * 48 + (3 * px + 1 * py) };
      decodes = refl;
      sized = (refl, refl);
      near = λ px py x y. (omega arith, omega arith);
    },
    tt,
  ),
)

reconstruct-split_example :
    IsRebuilt Near imdecode stored slope 32 1 0 8 20
      (reconstruct_image_from_tiles imdecode (map (stored_tile stored) tiles) 75 40)
reconstruct-split_example =
    reconstruct-split Near imdecode stored slope 100 32 1 0 8 20 tiles slope-split stored-Returns
      (omega arith) (omega arith) (omega arith) (omega arith)
