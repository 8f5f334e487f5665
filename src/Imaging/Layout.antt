-- ===== src/Imaging/Layout.antt =====
-- The layout of app/imaging.py tiles the image: identifiers, bounds and coverage.
use dip.Prelude.{
  ℕ, zero, suc, ◌+◌, ◌-◌, ◌/◌, ◌*◌, ◌≤◌, ◌<◌, ◌≡◌, refl, List, [], ◌∷◌, ◌++◌, ◌||◌, ◌&&◌, ok, raise,
  value_error, ltb, leb, ◌==◌, if◌then◌else◌, length, range, range_from, Bool, arith, All,
  All-append, inl, inr, ◌⊎◌, Bool-cases,
}
use dip.Imaging.{Geometry, side, add_tile, add_row, add_rows, layout, tile_geometries}

-- The tile holds the pixel.
abbrev pub covers : ℕ → ℕ → Geometry → Bool
covers px py g = (leb g.x px && ltb px (g.x + g.width)) && (leb g.y py && ltb py (g.y + g.height))

-- The number of tiles that hold the pixel.
abbrev pub coverage : ℕ → ℕ → List Geometry → ℕ
coverage px py [] = 0
coverage px py (g ∷ gs) = (if covers px py g then 1 else 0) + coverage px py gs

coverage-append :
    (px py : ℕ) (gs hs : List Geometry)
    → coverage px py (gs ++ hs) ≡ coverage px py gs + coverage px py hs
coverage-append px py [] hs = omega arith
coverage-append px py (g ∷ gs) hs = omega (arith, coverage-append px py gs hs)

-- The pixel lies on the side that begins at `x`, and the side is long enough to be a tile.
abbrev on_side : ℕ → ℕ → ℕ → ℕ → Bool
on_side limit tile_size x px =
    (leb x px && ltb px (x + side limit tile_size x)) && leb 16 (side limit tile_size x)

coverage-add_tile :
    (w h ts y x px py : ℕ) (gs : List Geometry)
    → coverage px py (add_tile w h ts y x gs)
      ≡ coverage px py gs + (if on_side w ts x px && on_side h ts y py then 1 else 0)
unfolding add_tile
coverage-add_tile w h ts y x px py gs =
    elim (Bool-cases (ltb (side w ts x) 16 || ltb (side h ts y) 16)) [
      | inl thin ↦ rw thin (ground arith)
      | inr wide ↦ rw (wide, coverage-append px py gs) (ground arith)
    ]

-- The sum of a row, and of all rows, without the accumulator.
row_sum : ℕ → ℕ → ℕ → List ℕ → ℕ
row_sum w ts px [] = 0
row_sum w ts px (x ∷ xs) = (if on_side w ts x px then 1 else 0) + row_sum w ts px xs

coverage-add_row :
    (w h ts y px py : ℕ) (xs : List ℕ) (gs : List Geometry)
    → coverage px py (add_row w h ts y xs gs)
      ≡ coverage px py gs + (if on_side h ts y py then row_sum w ts px xs else 0)
unfolding add_row row_sum
coverage-add_row w h ts y px py [] gs = ground arith
coverage-add_row w h ts y px py (x ∷ xs) gs = elim (Bool-cases (on_side h ts y py)) [
  | inl e ↦ ground (
    arith,
    e,
    coverage-add_row w h ts y px py xs (add_tile w h ts y x gs),
    coverage-add_tile w h ts y x px py gs,
  )
  | inr e ↦ ground (
    arith,
    e,
    coverage-add_row w h ts y px py xs (add_tile w h ts y x gs),
    coverage-add_tile w h ts y x px py gs,
  )
]

coverage-add_rows :
    (w h ts px py : ℕ) (xs ys : List ℕ) (gs : List Geometry)
    → coverage px py (add_rows w h ts xs ys gs)
      ≡ coverage px py gs + row_sum h ts py ys * row_sum w ts px xs
unfolding add_rows row_sum
coverage-add_rows w h ts px py xs [] gs = omega arith
coverage-add_rows w h ts px py xs (y ∷ ys) gs = ground (
  arith,
  coverage-add_rows w h ts px py xs ys (add_row w h ts y xs gs),
  coverage-add_row w h ts y px py xs gs,
)

-- No side that begins behind the pixel holds it.
row_sum_behind : (w ts px x n : ℕ) → px < x → row_sum w ts px (range_from n x ts) ≡ 0
unfolding row_sum
row_sum_behind w ts px x zero h = refl
row_sum_behind w ts px x (suc n) h = ground (arith, row_sum_behind w ts px (x + ts) n)

-- Of the sides `x, x + ts, ...` only the one at `o`, which is `m` steps on, holds a pixel of `o ..
-- o + ts`.
row_sum_at :
    (w ts x m o p n : ℕ)
    → o ≡ x + m * ts
    → o ≤ p
    → p < o + ts
    → m < n
    → p < w
    → row_sum w ts p (range_from n x ts) ≡ (if leb 16 (side w ts o) then 1 else 0)
unfolding row_sum
row_sum_at w ts x m o p zero e lo hi hm hp = absurd (omega arith)
row_sum_at w ts x zero o p (suc n) e lo hi hm hp =
    let e' : o ≡ x = omega arith in rw e' (ground (arith, e', row_sum_behind w ts p (x + ts) n))
row_sum_at w ts x (suc m) o p (suc n) e lo hi hm hp =
    let e' : o ≡ x + ts + m * ts = omega arith in
    ground (arith, row_sum_at w ts (x + ts) m o p n e')

-- The origin of a pixel is one of the values of the range.
step-lt-count : (w ts m d : ℕ) → d < ts → m * ts + d < w → m < (w + ts - 1) / ts
step-lt-count w ts m d hd hp = grind arith

row_sum-range :
    (w ts i d : ℕ)
    → d < ts
    → i * ts + d < w
    → row_sum w ts (i * ts + d) (range w ts) ≡ (if leb 16 (side w ts (i * ts)) then 1 else 0)
row_sum-range w ts i d hd hp =
    row_sum_at w ts 0 i (i * ts) (i * ts + d) _ (omega arith) (omega arith) (omega arith)
      (step-lt-count w ts i d hd hp) hp

-- Every pixel of the image lies in exactly one tile if both sides of its cell are at least 16 long,
-- and in none otherwise: the pixels of a strip under 16 pixels at the right or lower edge are in no
-- tile. A pixel is given by its cell (i, j) and its place (dx, dy) in the cell.
pub coverage-layout :
    (w h ts i j dx dy : ℕ)
    → dx < ts
    → dy < ts
    → i * ts + dx < w
    → j * ts + dy < h
    → coverage (i * ts + dx) (j * ts + dy) (layout w h ts)
      ≡ (if leb 16 (side w ts (i * ts)) && leb 16 (side h ts (j * ts)) then 1 else 0)
unfolding layout
coverage-layout w h ts i j dx dy hx hy px py = ground (
  arith,
  coverage-add_rows w h ts (i * ts + dx) (j * ts + dy) (range w ts) (range h ts) [],
  row_sum-range w ts i dx hx px,
  row_sum-range h ts j dy hy py,
)

-- A tile lies within the image, has sides from 16 to the tile size.
pub record IsWithin (w h ts : ℕ) (g : Geometry) : Type 0 where
  pub right : g.x + g.width ≤ w
  pub lower : g.y + g.height ≤ h
  pub wide : 16 ≤ g.width
  pub high : 16 ≤ g.height
  pub narrow : g.width ≤ ts
  pub flat : g.height ≤ ts

-- The identifiers count up from `n`.
abbrev pub NumberedFrom : ℕ → List Geometry → Type 0
NumberedFrom n [] = Unit {0}
NumberedFrom n (g ∷ gs) = (g.tile_id ≡ n) × NumberedFrom (n + 1) gs

pub record IsLayout (w h ts : ℕ) (gs : List Geometry) : Type 0 where
  pub within : All (IsWithin w h ts) gs
  pub numbered : NumberedFrom 0 gs

NumberedFrom-append :
    (n : ℕ) (gs : List Geometry) (g : Geometry)
    → NumberedFrom n gs
    → g.tile_id ≡ n + length gs
    → NumberedFrom n (gs ++ g ∷ [])
NumberedFrom-append n [] g h e = (omega arith, tt)
NumberedFrom-append n (f ∷ gs) g h e = (h.0, NumberedFrom-append (n + 1) gs g h.1 (omega arith))

add_tile-IsLayout :
    (w h ts y x : ℕ) (gs : List Geometry)
    → IsLayout w h ts gs
    → IsLayout w h ts (add_tile w h ts y x gs)
unfolding add_tile
add_tile-IsLayout w h ts y x gs v =
    elim (Bool-cases (ltb (side w ts x) 16 || ltb (side h ts y) 16)) [
      | inl thin ↦ rw thin v
      | inr wide ↦ rw wide (record {
        within = All-append (IsWithin w h ts) gs _ v.within (ground (arith, wide), tt);
        numbered = NumberedFrom-append 0 gs _ v.numbered (omega arith);
      })
    ]

add_row-IsLayout :
    (w h ts y : ℕ) (xs : List ℕ) (gs : List Geometry)
    → IsLayout w h ts gs
    → IsLayout w h ts (add_row w h ts y xs gs)
unfolding add_row
add_row-IsLayout w h ts y [] gs v = v
add_row-IsLayout w h ts y (x ∷ xs) gs v =
    add_row-IsLayout w h ts y xs _ (add_tile-IsLayout w h ts y x gs v)

add_rows-IsLayout :
    (w h ts : ℕ) (xs ys : List ℕ) (gs : List Geometry)
    → IsLayout w h ts gs
    → IsLayout w h ts (add_rows w h ts xs ys gs)
unfolding add_rows
add_rows-IsLayout w h ts xs [] gs v = v
add_rows-IsLayout w h ts xs (y ∷ ys) gs v =
    add_rows-IsLayout w h ts xs ys _ (add_row-IsLayout w h ts y xs gs v)

pub layout-IsLayout : (w h ts : ℕ) → IsLayout w h ts (layout w h ts)
unfolding layout
layout-IsLayout w h ts = add_rows-IsLayout w h ts _ _ [] (record { within = tt; numbered = tt })

-- For a positive tile size the layout is made, every tile of it lies within the image with sides
-- from 16 to the tile size, and the identifiers are 0, 1, 2, ... in order; for the size 0 it raises
-- ValueError.
pub tile_geometries-IsLayout :
    (w h ts : ℕ)
    → ((ts ≡ 0) × (tile_geometries w h ts ≡ raise value_error))
      ⊎ ((gs : List Geometry) × (tile_geometries w h ts ≡ ok gs) × IsLayout w h ts gs)
unfolding tile_geometries
tile_geometries-IsLayout w h ts = elim (Bool-cases (ts == 0)) [
  | inl e ↦ inl (ground arith, rw e)
  | inr e ↦ inr (layout w h ts, rw e, layout-IsLayout w h ts)
]
