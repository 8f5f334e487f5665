-- ===== src/Imaging/Probe/Total.antt =====
-- The probe of app/imaging.py ends on every input, and raises on none.
use dip.Prelude.{
  starts_with, ℕ, zero, suc, ◌+◌, ◌*◌, ◌≤◌, ◌<◌, ◌≡◌, refl, List, [], ◌∷◌, Option, none, some, true,
  false, ltb, ◌==◌, Result, ok, length, arith, inl, inr, Bool-cases, abs, signed32, pos,
}
use dip.Imaging.Probe.{
  byte, unpack_be16, unpack_be32, unpack_le32, Size, is_frame, is_standalone, Round, return,
  continue, frame_size, skip_segment, at_marker, scan_round, scan_jpeg, probe_png, probe_bmp,
  probe_image_dimensions, png_signature, jpeg_signature, bmp_signature,
}

byte_total : (bytes : List ℕ) (i : ℕ) → i < length bytes → (b : ℕ) × (byte bytes i ≡ ok b)
unfolding byte
byte_total [] i h = absurd (omega arith)
byte_total (b ∷ bs) zero h = (b, refl)
byte_total (b ∷ bs) (suc i) h = byte_total bs i (omega arith)

unpack_be16_total :
    (bytes : List ℕ) (i : ℕ) → i + 1 < length bytes → (n : ℕ) × (unpack_be16 bytes i ≡ ok n)
unfolding unpack_be16
unpack_be16_total bytes i h =
    let high = byte_total bytes i (omega arith) in
    let low = byte_total bytes (i + 1) h in (high.0 * 256 + low.0, rw (high.1, low.1) refl)

unpack_be32_total :
    (bytes : List ℕ) (i : ℕ) → i + 3 < length bytes → (n : ℕ) × (unpack_be32 bytes i ≡ ok n)
unfolding unpack_be32
unpack_be32_total bytes i h =
    let high = unpack_be16_total bytes i (omega arith) in
    let low = unpack_be16_total bytes (i + 2) (omega arith) in
    (high.0 * 65536 + low.0, rw (high.1, low.1) refl)

unpack_le32_total :
    (bytes : List ℕ) (i : ℕ) → i + 3 < length bytes → (n : ℕ) × (unpack_le32 bytes i ≡ ok n)
unfolding unpack_le32
unpack_le32_total bytes i h =
    let b0 = byte_total bytes i (omega arith) in
    let b1 = byte_total bytes (i + 1) (omega arith) in
    let b2 = byte_total bytes (i + 2) (omega arith) in
    let b3 = byte_total bytes (i + 3) h in
    (b0.0 + b1.0 * 256 + b2.0 * 65536 + b3.0 * 16777216, rw (b0.1, b1.1, b2.1, b3.1) refl)

-- A round returns, or goes on further behind in the bytes.
data Advances (bytes : List ℕ) (p : ℕ) (r : Result Round) : Type 0 where
  ends : (o : Option Size) → r ≡ ok (return o) → Advances bytes p r
  moves : (p' : ℕ) → r ≡ ok (continue p') → p < p' → p < length bytes → Advances bytes p r

module _ (bytes : List ℕ) (p : ℕ) where
  frame_size-Advances : Advances bytes p (frame_size bytes p)
  unfolding frame_size
  frame_size-Advances = elim (Bool-cases (ltb (length bytes) (p + 9))) [
    | inl short ↦ ends none (rw short)
    | inr long ↦
        let height = unpack_be16_total bytes (p + 5) (ground (arith, long)) in
        let width = unpack_be16_total bytes (p + 7) (ground (arith, long)) in
        ends (some (pos width.0, height.0)) (rw (long, height.1, width.1) refl)
  ]

  module _ (long : ltb (length bytes) (p + 4) ≡ false) where
    skip_segment-Advances : Advances bytes p (skip_segment bytes p)
    unfolding skip_segment
    skip_segment-Advances =
        let seg_len = unpack_be16_total bytes (p + 2) (ground (arith, long)) in
        moves (p + (2 + seg_len.0)) (rw (long, seg_len.1) refl) (omega arith) (ground (arith, long))

    at_marker-Advances : (marker : ℕ) → Advances bytes p (at_marker bytes p marker)
    unfolding at_marker
    at_marker-Advances marker = elim (Bool-cases (is_frame marker)) [
      | inl frame ↦ rw frame frame_size-Advances
      | inr other ↦ elim (Bool-cases (is_standalone marker)) [
        | inl alone ↦ rw (other, alone) (moves (p + 2) refl (omega arith) (ground (arith, long)))
        | inr segment ↦ rw (other, segment) skip_segment-Advances
      ]
    ]

  scan_round-Advances : Advances bytes p (scan_round bytes p)
  unfolding scan_round
  scan_round-Advances = elim (Bool-cases (ltb (length bytes) (p + 4))) [
    | inl short ↦ ends none (rw short)
    | inr long ↦
        let b = byte_total bytes p (ground (arith, long)) in
        let marker = byte_total bytes (p + 1) (ground (arith, long)) in
        elim (Bool-cases (b.0 == 0xff)) [
          | inl e ↦ rw (long, b.1, e, marker.1) (at_marker-Advances long marker.0)
          | inr e ↦ rw (long, b.1, e) (moves (p + 1) refl (omega arith) (ground (arith, long)))
        ]
  ]

scan_jpeg_total :
    (fuel : ℕ) (bytes : List ℕ) (p : ℕ)
    → 0 < fuel
    → length bytes < p + fuel
    → (o : Option Size) × (scan_jpeg fuel bytes p ≡ ok o)
unfolding scan_jpeg
scan_jpeg_total zero bytes p some_fuel enough = absurd (omega arith)
scan_jpeg_total (suc fuel) bytes p some_fuel enough =
    go (scan_round-Advances bytes p) (scan_jpeg_total fuel bytes)
  where
    go :
        Advances bytes p (scan_round bytes p)
        → ((p' : ℕ)
            → 0 < fuel
            → length bytes < p' + fuel
            → (o : Option Size) × (scan_jpeg fuel bytes p' ≡ ok o))
        → (o : Option Size) × (scan_jpeg (suc fuel) bytes p ≡ ok o)
    go (ends o e) ih = (o, rw (scan_jpeg, e) refl)
    go (moves p' e on inside) ih =
        let rest = ih p' (omega arith) (omega arith) in (rest.0, rw (scan_jpeg, e) rest.1)

starts_with-length :
    (signature bytes : List ℕ)
    → starts_with signature bytes ≡ true
    → length signature ≤ length bytes
starts_with-length [] bytes h = omega arith
starts_with-length (s ∷ ss) [] h = cc
starts_with-length (s ∷ ss) (b ∷ bs) h = ground (arith, starts_with-length ss bs)

-- Whatever the bytes are, the probe ends and raises nothing: neither an index nor a slice is ever
-- out of range, and one round of the JPEG loop for each byte is enough.
pub probe_image_dimensions_total :
    (bytes : List ℕ) → (o : Option Size) × (probe_image_dimensions bytes ≡ ok o)
unfolding probe_image_dimensions probe_png probe_bmp
probe_image_dimensions_total bytes = elim (Bool-cases (starts_with png_signature bytes)) [
  | inl png ↦ elim (Bool-cases (ltb (length bytes) 24)) [
    | inl short ↦ (none, rw (png, short) refl)
    | inr long ↦
        let width = unpack_be32_total bytes 16 (ground (arith, long)) in
        let height = unpack_be32_total bytes 20 (ground (arith, long)) in
        (some (pos width.0, height.0), rw (png, long, width.1, height.1) refl)
  ]
  | inr e ↦ elim (Bool-cases (starts_with jpeg_signature bytes)) [
    | inl jpeg ↦
        let two = starts_with-length jpeg_signature bytes jpeg in
        let found = scan_jpeg_total (length bytes) bytes 2 (omega arith) (omega arith) in
        (found.0, rw (e, jpeg) found.1)
    | inr e' ↦ elim (Bool-cases (starts_with bmp_signature bytes)) [
      | inr e'' ↦ (none, rw (e, e', e'') refl)
      | inl bmp ↦ elim (Bool-cases (ltb (length bytes) 26)) [
        | inl short ↦ (none, rw (e, e', bmp, short) refl)
        | inr long ↦
            let width = unpack_le32_total bytes 18 (ground (arith, long)) in
            let height = unpack_le32_total bytes 22 (ground (arith, long)) in
            (
              some (signed32 width.0, abs (signed32 height.0)),
              rw (e, e', bmp, long, width.1, height.1) refl,
            )
      ]
    ]
  ]
]
