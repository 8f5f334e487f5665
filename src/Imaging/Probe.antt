-- ===== src/Imaging/Probe.antt =====
-- app/imaging.py: `probe_image_dimensions`, the width and height in the header of a PNG, JPEG or
-- BMP file, as a function on its bytes.
pub mod Total
pub mod Frames
use dip.Prelude.{
  ℕ, zero, suc, ◌+◌, ◌*◌, List, [], ◌∷◌, Option, none, some, Bool, true, false, not, ◌&&◌, ◌||◌,
  ltb, leb, ◌==◌, Result, ok, raise, value_error, other_error, ◌>>=◌, if◌then◌else◌, length,
  get_elem?, ℤ, starts_with, pos, abs, signed32,
}

-- A file has one of these as its prefix.
abbrev pub png_signature : List ℕ
png_signature = 0x89 ∷ 0x50 ∷ 0x4e ∷ 0x47 ∷ 0x0d ∷ 0x0a ∷ 0x1a ∷ 0x0a ∷ []

abbrev pub jpeg_signature : List ℕ
jpeg_signature = 0xff ∷ 0xd8 ∷ []

abbrev pub bmp_signature : List ℕ
bmp_signature = 0x42 ∷ 0x4d ∷ []

-- `data[i]`; IndexError, or the struct.error of a slice that is too short, is `value_error`.
abbrev pub or_raise : Option ℕ → Result ℕ
or_raise (some b) = ok b
or_raise none = raise value_error

pub byte : List ℕ → ℕ → Result ℕ
byte bytes i = or_raise (get_elem? bytes i)

-- `struct.unpack('>H', data[i:i + 2])`
pub unpack_be16 : List ℕ → ℕ → Result ℕ
unfolding byte
unpack_be16 bytes i = do high ← byte bytes i; low ← byte bytes (i + 1); ok (high * 256 + low)

-- One number of `struct.unpack('>II', ...)`.
pub unpack_be32 : List ℕ → ℕ → Result ℕ
unfolding unpack_be16
unpack_be32 bytes i = do
  high ← unpack_be16 bytes i
  low ← unpack_be16 bytes (i + 2)
  ok (high * 65536 + low)

-- The word of one number of `struct.unpack('<ii', ...)`.
pub unpack_le32 : List ℕ → ℕ → Result ℕ
unfolding byte
unpack_le32 bytes i = do
  b0 ← byte bytes i
  b1 ← byte bytes (i + 1)
  b2 ← byte bytes (i + 2)
  b3 ← byte bytes (i + 3)
  ok (b0 + b1 * 256 + b2 * 65536 + b3 * 16777216)

abbrev pub Size : Type 0
Size = ℤ × ℕ

-- SOFn: 0xC0 to 0xCF without DHT, JPG and DAC.
abbrev pub is_frame : ℕ → Bool
is_frame marker =
    (leb 0xc0 marker && leb marker 0xcf) && not (marker == 0xc4 || marker == 0xc8 || marker == 0xcc)

-- A marker with no segment behind it.
abbrev pub is_standalone : ℕ → Bool
is_standalone marker = marker == 0xd8 || marker == 0x01 || (leb 0xd0 marker && leb marker 0xd7)

-- What a round of the loop does: it returns, or goes on at another `pos`.
pub data Round : Type 0 where
  return : Option Size → Round
  continue : ℕ → Round

pub frame_size : List ℕ → ℕ → Result Round
unfolding unpack_be16
frame_size bytes p = if ltb (length bytes) (p + 9) then ok (return none) else do
  height ← unpack_be16 bytes (p + 5)
  width ← unpack_be16 bytes (p + 7)
  ok (return (some (pos width, height)))

pub skip_segment : List ℕ → ℕ → Result Round
unfolding unpack_be16
skip_segment bytes p =
    if ltb (length bytes) (p + 4)
    then ok (return none)
    else do seg_len ← unpack_be16 bytes (p + 2); ok (continue (p + (2 + seg_len)))

-- The rounds behind a byte 0xFF.
pub at_marker : List ℕ → ℕ → ℕ → Result Round
unfolding frame_size skip_segment
at_marker bytes p marker =
    if is_frame marker
    then frame_size bytes p
    else (if is_standalone marker then ok (continue (p + 2)) else skip_segment bytes p)

-- One round of the loop, with its condition.
pub scan_round : List ℕ → ℕ → Result Round
unfolding byte at_marker
scan_round bytes p = if ltb (length bytes) (p + 4) then ok (return none) else do
  b ← byte bytes p
  if b == 0xff then byte bytes (p + 1) >>= at_marker bytes p else ok (continue (p + 1))

-- The loop; `other_error` is the end of the fuel.
pub scan_jpeg : ℕ → List ℕ → ℕ → Result (Option Size)
unfolding scan_round
scan_jpeg zero bytes p = raise other_error
scan_jpeg (suc fuel) bytes p = elim (scan_round bytes p) [
  | raise e ↦ raise e
  | ok (return size) ↦ ok size
  | ok (continue p') ↦ scan_jpeg fuel bytes p'
]

pub probe_png : List ℕ → Result (Option Size)
unfolding unpack_be32
probe_png bytes = if ltb (length bytes) 24 then ok none else do
  width ← unpack_be32 bytes 16
  height ← unpack_be32 bytes 20
  ok (some (pos width, height))

pub probe_bmp : List ℕ → Result (Option Size)
unfolding unpack_le32
probe_bmp bytes = if ltb (length bytes) 26 then ok none else do
  width ← unpack_le32 bytes 18
  height ← unpack_le32 bytes 22
  ok (some (signed32 width, abs (signed32 height)))

-- `probe_image_dimensions`. Every round moves on, so one round for each byte is enough.
pub probe_image_dimensions : List ℕ → Result (Option Size)
unfolding probe_png scan_jpeg probe_bmp
probe_image_dimensions bytes =
    if starts_with png_signature bytes
    then probe_png bytes
    else (if starts_with jpeg_signature bytes
        then scan_jpeg (length bytes) bytes 2
        else (if starts_with bmp_signature bytes then probe_bmp bytes else ok none))
