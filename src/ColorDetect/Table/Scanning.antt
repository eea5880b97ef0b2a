-- ===== src/ColorDetect/Table/Scanning.antt =====
-- `detect_blobs` reads each pixel of the image once and keeps every blob inside the image.
use hawkeye.Base.{
  ℕ, zero, suc, ◌+◌, ◌-◌, ◌*◌, ◌≤◌, ◌<◌, ◌≡◌, refl, subst, if-intro, true, false, some, [], ◌∷◌,
  arith, length, if◌then◌else◌, All, All-replicate, replicate, ◌==◌, Bytes,
}
use hawkeye.ColorDetect.Blob.{zero_blob, num_blobs_max, Detections, clear_blobs}
use hawkeye.ColorDetect.Merge.{combine_blobs_from_largest}
use hawkeye.ColorDetect.Detect.{
  no_detect, Scan, start_line, end_line, scan_pixel, scan_row, end_row, scan_rows, initial_scan,
  success, detect_blobs,
}
use hawkeye.ColorDetect.Table.{Guarded, InBox, IsTable, IsTable_mono, new_or_append_blob-IsTable}
use hawkeye.ColorDetect.Table.Merging.{
  IsMerged, IsTable-IsMerged, cull_blobs-IsTable, combine_blobs_from_largest-IsMerged,
}

-- The state in row `h` before column `w`: the open line, if any, ends before `w`.
record IsScan (width h w : ℕ) (s : Scan) : Type 0 where
  table : IsTable width h s.detections
  line : Guarded s.in_line ((s.line_min ≤ s.line_max) × (s.line_max < w))

module _ (width height : ℕ) where
  end_line-IsTable :
      (h w : ℕ) (s : Scan)
      → s.in_line ≡ true
      → w ≤ width
      → IsScan width h w s
      → IsTable width h (end_line width height h s).detections
  unfolding end_line
  end_line-IsTable h w s on le i =
      let line : (s.line_min ≤ s.line_max) × (s.line_max < w) = rw on at i.line in
      new_or_append_blob-IsTable h (omega arith) i.table s.line_min s.line_max width height
        s.line_color line.0 (omega (arith, line))

  end_line-IsScan :
      (h w : ℕ) (s : Scan)
      → s.in_line ≡ true
      → w ≤ width
      → IsScan width h w s
      → IsScan width h w (end_line width height h s)
  end_line-IsScan h w s on le i = record {
    table = end_line-IsTable h w s on le i;
    line = unfold end_line in tt;
  }

  start_line-IsScan :
      (h w color : ℕ) (s : Scan)
      → IsTable width h s.detections
      → IsScan width h (w + 1) (start_line s w color)
  start_line-IsScan h w color s t = record { table = t; line = omega arith }

  IsScan-next : (h w : ℕ) (s : Scan) → IsScan width h w s → IsScan width h (w + 1) s
  IsScan-next h w s i = record { table = i.table; line = ground (arith, i.line) }

  scan_pixel-IsScan :
      (h w color : ℕ) (s : Scan)
      → w < width
      → IsScan width h w s
      → IsScan width h (w + 1) (scan_pixel width height h w color s)
  unfolding scan_pixel
  scan_pixel-IsScan h w color s lt i =
      let after = IsScan width h (w + 1) in
      if-intro after (color == no_detect)
        (λ _.
          if-intro after s.in_line
            (λ on. IsScan-next h w _ (end_line-IsScan h w s on (omega arith) i))
            (λ _. IsScan-next h w s i))
        (λ _.
          if-intro after s.in_line
            (λ on.
              if-intro after (color == s.line_color)
                (λ _. record { table = i.table; line = rw on (ground (arith, i.line)) })
                (λ _.
                  start_line-IsScan h w color (end_line width height h s)
                    (end_line-IsTable h w s on (omega arith) i)))
            (λ _. start_line-IsScan h w color s i.table))

  -- A row of an image that is long enough is read to its end, and the rest is handed on.
  scan_row-total :
      (n h w : ℕ) (pixels : Bytes) (s : Scan)
      → w + n ≡ width
      → n ≤ length pixels
      → IsScan width h w s
      → (t : Scan) × (rest : Bytes) × (scan_row width height n h w pixels s ≡ some (t, rest))
        × (length rest + n ≡ length pixels)
        × IsScan width h width t
  unfolding scan_row
  scan_row-total zero h w pixels s e le i =
      (s, pixels, refl, omega arith, subst (λ k. IsScan width h k s) (omega arith) i)
  scan_row-total (suc n) h w [] s e le i = absurd (omega arith)
  scan_row-total (suc n) h w (color ∷ pixels) s e le i =
      let (t, rest, run, len, j) =
        scan_row-total n h (w + 1) pixels (scan_pixel width height h w color s) (omega arith)
          (omega arith) (scan_pixel-IsScan h w color s (omega arith) i) in
      (t, rest, run, omega (arith, len), j)

  -- Between two rows no line is open.
  Rested : ℕ → Scan → Type 0
  Rested row s = (s.in_line ≡ false) × IsTable width row s.detections

  line_closed :
      (h : ℕ) (s : Scan)
      → IsScan width h width s
      → Rested h (if s.in_line then end_line width height h s else s)
  unfolding Rested
  line_closed h s i =
      if-intro (Rested h) s.in_line
        (λ on. (unfold end_line in refl, end_line-IsTable h width s on (omega arith) i))
        (λ off. (off, i.table))

  end_row-Rested :
      (min_detect_conf h : ℕ) (s : Scan)
      → IsScan width h width s
      → Rested h (end_row width height min_detect_conf h s)
  unfolding end_row Rested
  end_row-Rested m h s i =
      let (closed, table) = line_closed h s i in (closed, cull_blobs-IsTable table h width height m)

  scan_rows-total :
      (min_detect_conf n h : ℕ) (pixels : Bytes) (s : Scan)
      → h + n ≡ height
      → n * width ≤ length pixels
      → Rested (h - 1) s
      → (t : Scan) × (scan_rows width height min_detect_conf n h pixels s ≡ some t)
        × IsTable width (height - 1) t.detections
  unfolding scan_rows Rested
  scan_rows-total m zero h pixels s e le i =
      (s, refl, subst (λ k. IsTable width k s.detections) (omega arith) i.1)
  scan_rows-total m (suc n) h pixels s e le i =
      let first : IsScan width h 0 s = record {
        table = IsTable_mono h (omega arith) i.1;
        line = rw i.0 tt;
      } in
      let (t, rest, run, len, j) =
        scan_row-total width h 0 pixels s (omega arith) (grind arith) first in
      let next = end_row-Rested m h t j in
      let done = (end_row width height m h t).detections in
      let (u, runs, table) =
        scan_rows-total m n (h + 1) rest (end_row width height m h t) (omega arith)
          (grind (arith, len)) (next.0, subst (λ k. IsTable width k done) (omega arith) next.1) in
      (u, rw run runs, table)

zero-All-InBox : (width row n : ℕ) → All (InBox width row) (replicate n zero_blob)
zero-All-InBox width row n = All-replicate (InBox width row) n zero_blob tt

clear_blobs-IsTable : (width row : ℕ) → IsTable width row clear_blobs
clear_blobs-IsTable width row = record {
  size = refl;
  counted = refl;
  boxes = zero-All-InBox width row num_blobs_max;
}

-- On an image of `width` times `height` pixels, neither of them zero, `detect_blobs` succeeds
-- without reading past the image, whatever the table held before. It leaves a table of ten blobs,
-- and the bounding box of each blob in use is not inverted and lies inside the image; at most
-- `num_blobs` of them are in use.
pub detect_blobs-IsMerged :
    (d : Detections) (image : Bytes) (width height detect_color_count min_detect_conf : ℕ)
    → 0 < width
    → 0 < height
    → height * width ≤ length image
    → (d' : Detections) × (detect_blobs d
          (some image)
          width
          height
          detect_color_count
          min_detect_conf
        ≡ some (success, d'))
      × IsMerged width (height - 1) d'
unfolding detect_blobs
detect_blobs-IsMerged d image width height n m pw ph le =
    let (s, run, table) =
      scan_rows-total width height m height 0 image initial_scan (omega arith) le
        (unfold Rested in (refl, clear_blobs-IsTable width 0)) in
    let merged =
      combine_blobs_from_largest-IsMerged width (height - 1) s.detections n
        (IsTable-IsMerged table) in
    (combine_blobs_from_largest s.detections n, rw run (ground arith), merged)
