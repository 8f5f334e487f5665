-- ===== src/Tests/Images.antt =====
-- The theorems on the headers of images, at concrete inputs.
use dip.Prelude.{◌≡◌, refl, List, [], ◌∷◌, Option, some, ok, pos}
use dip.Imaging.Probe.{Size, probe_image_dimensions}
use dip.Imaging.Probe.Total.{probe_image_dimensions_total}
use dip.Imaging.Probe.Frames.{
  Chunk, fill, alone, segment, Frame, print_jpeg, probe_image_dimensions-print_jpeg,
}

-- A JPEG signature with a segment that is cut off.
probe_image_dimensions_total_example :
    (o : Option Size) × (probe_image_dimensions (0xff ∷ 0xd8 ∷ 0xff ∷ 0xe0 ∷ 0x00 ∷ []) ≡ ok o)
probe_image_dimensions_total_example =
    probe_image_dimensions_total (0xff ∷ 0xd8 ∷ 0xff ∷ 0xe0 ∷ 0x00 ∷ [])

-- An APP0 segment with four bytes, a restart marker and a fill byte.
abbrev chunks : List Chunk
chunks = segment 0xe0 (1 ∷ 2 ∷ 3 ∷ 4 ∷ []) ∷ alone 0xd0 ∷ fill 0x00 ∷ []

abbrev vga : Frame
vga = record {
  marker = 0xc0;
  size_high = 0;
  size_low = 17;
  precision = 8;
  height = 480;
  width = 640;
}

probe_image_dimensions-print_jpeg_example :
    probe_image_dimensions (print_jpeg chunks vga (3 ∷ [])) ≡ ok (some (pos 640, 480))
probe_image_dimensions-print_jpeg_example =
    probe_image_dimensions-print_jpeg chunks vga (3 ∷ []) ((refl, refl), ((refl, refl), (refl, tt)))
      refl
