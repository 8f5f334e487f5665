-- ===== src/Imaging/Probe/Frames.antt =====
-- The probe of app/imaging.py on headers that are printed from their parts.
use dip.Prelude.{
  ℕ, zero, suc, ◌+◌, ◌*◌, ◌/◌, ◌%◌, ◌≤◌, ◌<◌, ◌≡◌, refl, ap, ◌∙◌, subst, List, [], ◌∷◌, ◌++◌, some,
  true, false, ltb, ◌==◌, ok, length, length-append, get_elem?, arith, pos, All,
}
use mathlib.Core.List.{append_assoc}
use dip.Imaging.Probe.{
  byte, or_raise, unpack_be16, unpack_be32, is_frame, is_standalone, return, continue, frame_size,
  skip_segment, at_marker, scan_round, scan_jpeg, probe_png, probe_image_dimensions, png_signature,
}

-- From `p` on, the bytes are `rest`.
record Shows (bytes : List ℕ) (p : ℕ) (rest : List ℕ) : Type 0 where
  elem : (i : ℕ) → get_elem? bytes (p + i) ≡ get_elem? rest i
  size : length bytes ≡ p + length rest

Shows-self : (bytes : List ℕ) → Shows bytes 0 bytes
Shows-self bytes = record { elem = λ i. ap (get_elem? bytes) (omega arith); size = omega arith }

module _ (bytes : List ℕ) where
  Shows-next : (p x : ℕ) (xs : List ℕ) → Shows bytes p (x ∷ xs) → Shows bytes (p + 1) xs
  Shows-next p x xs h = record {
    elem = λ i. ap (get_elem? bytes) (omega arith) ∙ h.elem (suc i);
    size = omega (arith, h.size);
  }

  Shows-append :
      (p q : ℕ) (xs ys : List ℕ) → Shows bytes p (xs ++ ys) → q ≡ p + length xs → Shows bytes q ys
  Shows-append p q [] ys h e = subst (λ k. Shows bytes k ys) (omega arith) h
  Shows-append p q (x ∷ xs) ys h e =
      Shows-append (p + 1) q xs ys (Shows-next p x (xs ++ ys) h) (omega (arith, e))

  -- What is read at a place where the bytes are known.
  byte-Shows :
      (p i b : ℕ) (rest : List ℕ)
      → Shows bytes p rest
      → get_elem? rest i ≡ some b
      → byte bytes (p + i) ≡ ok b
  unfolding byte
  byte-Shows p i b rest h e = ap or_raise (h.elem i ∙ e)

  first-Shows : (p b : ℕ) (rest : List ℕ) → Shows bytes p (b ∷ rest) → byte bytes p ≡ ok b
  first-Shows p b rest h =
      subst (λ k. byte bytes k ≡ ok b) (omega arith) (byte-Shows p 0 b (b ∷ rest) h refl)

  unpack_be16-Shows :
      (p i high low : ℕ) (rest : List ℕ)
      → Shows bytes p rest
      → get_elem? rest i ≡ some high
      → get_elem? rest (i + 1) ≡ some low
      → unpack_be16 bytes (p + i) ≡ ok (high * 256 + low)
  unfolding unpack_be16
  unpack_be16-Shows p i high low rest h e e' =
      let second : byte bytes (p + i + 1) ≡ ok low =
        subst (λ k. byte bytes k ≡ ok low) (omega arith) (byte-Shows p (i + 1) low rest h e') in
      rw (byte-Shows p i high rest h e, second) refl

-- What the loop skips: a byte that is no 0xFF, a marker that stands alone, and a segment with its
-- length in two bytes, that counts itself.
pub data Chunk : Type 0 where
  fill : ℕ → Chunk
  alone : ℕ → Chunk
  segment : ℕ → List ℕ → Chunk

abbrev pub print_be16 : ℕ → List ℕ
print_be16 n = n / 256 ∷ n % 256 ∷ []

abbrev pub print_chunk : Chunk → List ℕ
print_chunk (fill b) = b ∷ []
print_chunk (alone marker) = 0xff ∷ marker ∷ []
print_chunk (segment marker payload) =
    0xff ∷ marker ∷ (length payload + 2) / 256 ∷ (length payload + 2) % 256 ∷ payload

abbrev pub IsSkipped : Chunk → Type 0
IsSkipped (fill b) = (b == 0xff) ≡ false
IsSkipped (alone marker) = (is_frame marker ≡ false) × (is_standalone marker ≡ true)
IsSkipped (segment marker payload) = (is_frame marker ≡ false) × (is_standalone marker ≡ false)

abbrev pub print_chunks : List Chunk → List ℕ
print_chunks [] = []
print_chunks (c ∷ cs) = print_chunk c ++ print_chunks cs

-- The frame header, whose length field the loop does not read.
pub record Frame : Type 0 where
  pub marker : ℕ
  pub size_high : ℕ
  pub size_low : ℕ
  pub precision : ℕ
  pub height : ℕ
  pub width : ℕ

abbrev pub print_frame : Frame → List ℕ
print_frame f =
    0xff
    ∷ f.marker
    ∷ f.size_high
    ∷ f.size_low
    ∷ f.precision
    ∷ (print_be16 f.height ++ print_be16 f.width)

module _ (bytes : List ℕ) (p : ℕ) where
  scan_round-chunk :
      (c : Chunk) (rest : List ℕ)
      → IsSkipped c
      → 4 ≤ length rest
      → Shows bytes p (print_chunk c ++ rest)
      → scan_round bytes p ≡ ok (continue (p + length (print_chunk c)))
  unfolding scan_round at_marker skip_segment
  scan_round-chunk (fill b) rest k room h =
      let long : ltb (length bytes) (p + 4) ≡ false = ground (arith, h.size) in
      rw (long, first-Shows bytes p b rest h, k) refl
  scan_round-chunk (alone marker) rest k room h =
      let long : ltb (length bytes) (p + 4) ≡ false = ground (arith, h.size) in
      rw
        (
          long,
          first-Shows bytes p 0xff (marker ∷ rest) h,
          byte-Shows bytes p 1 marker (0xff ∷ marker ∷ rest) h refl,
          k.0,
          k.1,
        )
        refl
  scan_round-chunk (segment marker payload) rest k room h =
      let n = length payload + 2 in
      let long : ltb (length bytes) (p + 4) ≡ false = ground (arith, h.size) in
      let whole = 0xff ∷ marker ∷ n / 256 ∷ n % 256 ∷ payload ++ rest in
      let read : unpack_be16 bytes (p + 2) ≡ ok n =
        unpack_be16-Shows bytes p 2 (n / 256) (n % 256) whole h refl refl ∙ ap ok (omega arith) in
      rw
        (
          long,
          first-Shows bytes p 0xff _ h,
          byte-Shows bytes p 1 marker whole h refl,
          k.0,
          k.1,
          long,
          read,
        )
        (ap (λ m. ok (continue (p + m))) (omega arith))

  scan_round-frame :
      (f : Frame) (rest : List ℕ)
      → is_frame f.marker ≡ true
      → Shows bytes p (print_frame f ++ rest)
      → scan_round bytes p ≡ ok (return (some (pos f.width, f.height)))
  unfolding scan_round at_marker frame_size
  scan_round-frame f rest k h =
      let whole = print_frame f ++ rest in
      let long : ltb (length bytes) (p + 4) ≡ false = ground (arith, h.size) in
      let long' : ltb (length bytes) (p + 9) ≡ false = ground (arith, h.size) in
      let height : unpack_be16 bytes (p + 5) ≡ ok f.height =
        unpack_be16-Shows bytes p 5 (f.height / 256) (f.height % 256) whole h refl refl
        ∙ ap ok (omega arith) in
      let width : unpack_be16 bytes (p + 7) ≡ ok f.width =
        unpack_be16-Shows bytes p 7 (f.width / 256) (f.width % 256) whole h refl refl
        ∙ ap ok (omega arith) in
      rw
        (
          long,
          first-Shows bytes p 0xff _ h,
          byte-Shows bytes p 1 f.marker whole h refl,
          k,
          long',
          height,
          width,
        )
        refl

scan_jpeg-print :
    (fuel : ℕ) (bytes : List ℕ) (p : ℕ) (cs : List Chunk) (f : Frame) (rest : List ℕ)
    → length cs < fuel
    → All IsSkipped cs
    → is_frame f.marker ≡ true
    → Shows bytes p (print_chunks cs ++ (print_frame f ++ rest))
    → scan_jpeg fuel bytes p ≡ ok (some (pos f.width, f.height))
unfolding scan_jpeg
scan_jpeg-print zero bytes p cs f rest enough k m h = absurd (omega arith)
scan_jpeg-print (suc fuel) bytes p [] f rest enough k m h =
    rw (scan_jpeg, scan_round-frame bytes p f rest m h) refl
scan_jpeg-print (suc fuel) bytes p (c ∷ cs) f rest enough k m h =
    let tail = print_chunks cs ++ (print_frame f ++ rest) in
    let h' : Shows bytes p (print_chunk c ++ tail) =
      subst (Shows bytes p) (append_assoc (print_chunk c) (print_chunks cs) _) h in
    let room : 4 ≤ length tail =
      omega (arith, length-append (print_chunks cs) (print_frame f ++ rest)) in
    let on : Shows bytes (p + length (print_chunk c)) tail =
      Shows-append bytes p _ (print_chunk c) tail h' refl in
    rw (scan_jpeg, scan_round-chunk bytes p c tail k.0 room h')
      (scan_jpeg-print fuel bytes (p + length (print_chunk c)) cs f rest (omega arith) k.1 m on)

-- Every chunk is at least a byte long.
length-print_chunks : (cs : List Chunk) → length cs ≤ length (print_chunks cs)
length-print_chunks [] = omega arith
length-print_chunks (fill b ∷ cs) = omega (arith, length-print_chunks cs)
length-print_chunks (alone m ∷ cs) = omega (arith, length-print_chunks cs)
length-print_chunks (segment m payload ∷ cs) =
    omega (arith, length-print_chunks cs, length-append payload (print_chunks cs))

abbrev pub print_jpeg : List Chunk → Frame → List ℕ → List ℕ
print_jpeg cs f rest = 0xff ∷ 0xd8 ∷ (print_chunks cs ++ (print_frame f ++ rest))

-- Of a JPEG file that consists of the signature, of fill bytes, markers that stand alone and
-- segments in any number and order, and then of a frame header with whatever follows, the probe
-- reads the width and the height of the frame header.
pub probe_image_dimensions-print_jpeg :
    (cs : List Chunk) (f : Frame) (rest : List ℕ)
    → All IsSkipped cs
    → is_frame f.marker ≡ true
    → probe_image_dimensions (print_jpeg cs f rest) ≡ ok (some (pos f.width, f.height))
unfolding probe_image_dimensions
probe_image_dimensions-print_jpeg cs f rest k m =
    let bytes = print_jpeg cs f rest in
    let h : Shows bytes 2 (print_chunks cs ++ (print_frame f ++ rest)) =
      Shows-append bytes 0 2 (0xff ∷ 0xd8 ∷ []) _ (Shows-self bytes) (omega arith) in
    scan_jpeg-print (length bytes) bytes 2 cs f rest
      (omega
        (arith, length-print_chunks cs, length-append (print_chunks cs) (print_frame f ++ rest)))
      k m h

-- The signature, the length and the name of the IHDR chunk, and the two sides in four bytes each.
abbrev pub print_be32 : ℕ → List ℕ
print_be32 n = print_be16 (n / 65536) ++ print_be16 (n % 65536)

abbrev pub print_png : ℕ → ℕ → List ℕ → List ℕ
print_png width height rest =
    png_signature
    ++ (0
        ∷ 0
        ∷ 0
        ∷ 13
        ∷ 0x49
        ∷ 0x48
        ∷ 0x44
        ∷ 0x52
        ∷ (print_be32 width ++ (print_be32 height ++ rest)))

word :
    (n : ℕ)
    → (n / 65536 / 256 * 256 + n / 65536 % 256) * 65536 + (n % 65536 / 256 * 256 + n % 65536 % 256)
      ≡ n
word n = omega arith

-- Of a PNG file with its IHDR chunk in front, the probe reads the width and the height.
pub probe_image_dimensions-print_png :
    (width height : ℕ) (rest : List ℕ)
    → probe_image_dimensions (print_png width height rest) ≡ ok (some (pos width, height))
unfolding probe_image_dimensions probe_png unpack_be32 unpack_be16 byte
probe_image_dimensions-print_png width height rest =
    let long : ltb (length (print_png width height rest)) 24 ≡ false = ground arith in
    rw (long, word width, word height) refl
