-- ===== src/ColorDetect/Reported.antt =====
-- The text of `get_blob_data_string` always fits its buffer.
use hawkeye.Base.{
  ℕ, suc, ◌+◌, ◌-◌, ◌*◌, ◌≤◌, ◌<◌, ◌≡◌, ap, ◌∙◌, none, some, List, [], ◌∷◌, ◌++◌, arith, Bytes,
  length, length-append, ◌==◌, if-intro, if◌then◌else◌, All,
}
use hawkeye.Base.Print.{print_int, length-print_int}
use hawkeye.Report.{returned}
use hawkeye.Report.Fitting.{
  joined, IsShort, finished, report-finished, length-comma_separated, fitting_all,
}
use hawkeye.ColorDetect.Blob.{Blob, Detections, num_blobs_max}
use hawkeye.ColorDetect.Merge.{num_complete_blobs}
use hawkeye.ColorDetect.Report.{is_written, blob_text, blob_texts, get_blob_data_string}

length-blob_text : (i : ℕ) (b : Blob) → length (blob_text i b) ≤ 84
unfolding blob_text
length-blob_text i b =
    length-comma_separated
      (i ∷ b.bb_x_min ∷ b.bb_x_max ∷ b.bb_y_min ∷ b.bb_y_max ∷ b.color_index ∷ b.num_pixels ∷ [])

abbrev Bounded : ℕ → List Bytes → Type 0
Bounded n texts = All IsShort texts × (length (joined texts) ≤ 84 * n)

blob_texts-Bounded : (i : ℕ) (bs : List Blob) → Bounded (length bs) (blob_texts i bs)
unfolding blob_texts
blob_texts-Bounded i [] = (tt, omega arith)
blob_texts-Bounded i (b ∷ bs) =
    let taken = blob_texts-Bounded (i + 1) bs in
    let passed = blob_texts-Bounded i bs in
    let size = length-blob_text i b in
    if-intro (Bounded (suc (length bs))) (is_written b)
      (λ on. (
        (omega (arith, size), taken.0),
        omega (
          arith,
          size,
          taken.1,
          length-append {0} (blob_text i b) (joined (blob_texts (i + 1) bs)),
        ),
      ))
      (λ off. (passed.0, omega (arith, passed.1)))

-- For a table of at most ten blobs, `get_blob_data_string` stays inside its buffer. It returns NULL if no
-- blob is complete, and otherwise the number of complete blobs, the text of every one of them that
-- has pixels, in the order of the table, and a line-feed.
pub get_blob_data_string-joined :
    (d : Detections)
    → length d.blobs ≤ num_blobs_max
    → get_blob_data_string d ≡ (
        if num_complete_blobs d.blobs == 0
        then some none
        else some (
            some (
              (print_int (num_complete_blobs d.blobs) ++ joined (blob_texts 0 d.blobs))
              ++ (10 ∷ []))))
unfolding get_blob_data_string
get_blob_data_string-joined d few =
    let n = num_complete_blobs d.blobs in
    let texts = blob_texts 0 d.blobs in
    let bound = blob_texts-Bounded 0 d.blobs in
    let head = print_int n in
    let body = head ++ joined texts in
    let room = 1024 - length head in
    let size : length (joined texts) ≤ room = omega (arith, bound.1, few, length-print_int n) in
    let total : length body + 1 < 1024 =
      omega (arith, length-append {0} head (joined texts), bound.1, few, length-print_int n) in
    let written : finished 1024 body ≡ some (body ++ (10 ∷ [])) = ground (arith, total) in
    ap (λ r. if n == 0 then some none else returned r)
      (report-finished 1024 n texts (omega arith) bound.0
        ∙ ap (λ ts. finished 1024 (head ++ joined ts)) (fitting_all room texts size)
        ∙ written)
