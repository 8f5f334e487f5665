-- ===== src/Admin/Metadata/Grid.antt =====
-- The grid that /metadata of master/admin_routes.py shows for the tiles of a job.
use dip.Prelude.{
  ℕ, zero, suc, ◌+◌, ◌-◌, ◌*◌, ◌/◌, ◌≤◌, ◌<◌, ◌≡◌, false, leb, ◌==◌, arith, inl, inr, Bool-cases,
}
use dip.Admin.Metadata.{root_below, grid_rows, grid_columns}

-- The root is at least 1 for a positive number, and its square is not larger.
root_below-le : (n r : ℕ) → root_below n r * root_below n r ≤ n
unfolding root_below
root_below-le n zero = omega arith
root_below-le n (suc r) = ground (arith, root_below-le n r)

root_below-ge : (n r : ℕ) → 0 < n → 0 < r → 0 < root_below n r
unfolding root_below
root_below-ge n zero some_n some_r = absurd (omega arith)
root_below-ge n (suc zero) some_n some_r = ground arith
root_below-ge n (suc (suc r)) some_n some_r =
    ground (arith, root_below-ge n (suc r) some_n (omega arith))

-- The next root is too large.
root_below-lt : (n r : ℕ) → n < (r + 1) * (r + 1) → n < (root_below n r + 1) * (root_below n r + 1)
unfolding root_below
root_below-lt n zero h = omega (arith, h)
root_below-lt n (suc r) h = elim (Bool-cases (leb (suc r * suc r) n)) [
  | inl e ↦ rw e h
  | inr e ↦ rw e (root_below-lt n r (ground (arith, e)))
]

-- A job of at least one tile is shown as a grid of full rows but for the last column: it has room
-- for all tiles, would have none without its last column, and is at least as wide as high.
pub record IsGrid (tiles rows cols : ℕ) : Type 0 where
  pub room : tiles ≤ rows * cols
  pub tight : rows * (cols - 1) < tiles
  pub wide : rows ≤ cols

ceil-IsGrid :
    (tiles rows : ℕ)
    → 0 < rows
    → rows * rows ≤ tiles
    → IsGrid tiles rows ((tiles + rows - 1) / rows)
ceil-IsGrid tiles rows some_rows square = record {
  room = grind arith;
  tight = grind arith;
  wide = grind arith;
}

pub grid_columns-IsGrid :
    (tiles : ℕ)
    → 0 < tiles
    → (IsGrid tiles (grid_rows tiles) (grid_columns tiles))
      × (grid_rows tiles * grid_rows tiles ≤ tiles)
      × (tiles < (grid_rows tiles + 1) * (grid_rows tiles + 1))
unfolding grid_rows grid_columns
grid_columns-IsGrid tiles some_tile =
    let some_rows = root_below-ge tiles tiles some_tile some_tile in
    let square = root_below-le tiles tiles in
    let next = root_below-lt tiles tiles (grind arith) in
    let e : (root_below tiles tiles == 0) ≡ false = ground (arith, some_rows) in
    rw e (ceil-IsGrid tiles (root_below tiles tiles) some_rows square, square, next)
