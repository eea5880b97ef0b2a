-- ===== src/ColorDetect/Largest.antt =====
-- `find_largest_blob` finds a complete blob of the colour with the most pixels.
use hawkeye.Base.{
  ℕ, zero, suc, ◌+◌, ◌≤◌, ◌<◌, ◌≡◌, true, ◌&&◌, Option, none, some, List, [], ◌∷◌, arith, length,
  get_or, Bool-cases, inl, inr, ltb, ◌==◌,
}
use hawkeye.ColorDetect.Blob.{Blob, zero_blob, Detections, blob_at}
use hawkeye.ColorDetect.Merge.{largest_from, find_largest_blob}

-- The blobs that `find_largest_blob` looks at.
abbrev pub Counts : ℕ → Blob → Type 0
Counts color b = (color ≡ b.color_index) × (b.valid ≡ true) × (b.complete ≡ true)

-- No blob of the list that counts has more than `size` pixels.
abbrev pub AtMost : ℕ → ℕ → List Blob → Type 0
AtMost color size bs =
    (m : ℕ)
    → m < length bs
    → Counts color (get_or bs m zero_blob)
    → (get_or bs m zero_blob).num_pixels ≤ size

-- The result of the loop from index `i` on, with the largest size so far: the old best where
-- nothing is larger, or else a blob that is, of greatest size.
data Outcome (color : ℕ) (bs : List Blob) (i size : ℕ) (best : Option ℕ) : Option ℕ → Type 0 where
  kept : AtMost color size bs → Outcome color bs i size best best
  found :
      (k : ℕ)
      → k < length bs
      → Counts color (get_or bs k zero_blob)
      → size < (get_or bs k zero_blob).num_pixels
      → AtMost color (get_or bs k zero_blob).num_pixels bs
      → {r : Option ℕ} → r ≡ some (i + k)
      → Outcome color bs i size best r

module _ (color : ℕ) (b : Blob) (bs : List Blob) where
  AtMost-cons :
      (size : ℕ)
      → (Counts color b → b.num_pixels ≤ size)
      → AtMost color size bs
      → AtMost color size (b ∷ bs)
  AtMost-cons size h k zero lt c = h c
  AtMost-cons size h k (suc m) lt c = k m (omega arith) c

  skip :
      (i size : ℕ) {best r : Option ℕ}
      → (Counts color b → b.num_pixels ≤ size)
      → Outcome color bs (i + 1) size best r
      → Outcome color (b ∷ bs) i size best r
  skip i size h (kept a) = kept (AtMost-cons size h a)
  skip i size h (found k lt c more a {r} e) =
      found (suc k) (omega arith) c more (AtMost-cons _ (λ n. omega (arith, h n)) a) (ground arith)

  take_this :
      (i size : ℕ) {best r : Option ℕ}
      → Counts color b
      → size < b.num_pixels
      → Outcome color bs (i + 1) b.num_pixels (some i) r
      → Outcome color (b ∷ bs) i size best r
  take_this i size c more (kept a) =
      found 0 (omega arith) c more (AtMost-cons _ (λ _. omega arith) a) (ground arith)
  take_this i size c more (found k lt c' more' a {r} e) =
      found (suc k) (omega arith) c' (omega arith) (AtMost-cons _ (λ _. omega arith) a)
        (ground arith)

largest_from-Outcome :
    (color : ℕ) (bs : List Blob) (i size : ℕ) (best : Option ℕ)
    → Outcome color bs i size best (largest_from color bs i size best)
unfolding largest_from
largest_from-Outcome color [] i size best = kept (λ m lt c. absurd (omega arith))
largest_from-Outcome color (b ∷ bs) i size best =
    elim (Bool-cases (color == b.color_index && (b.valid && b.complete) && ltb size b.num_pixels)) [
      | inl better ↦ rw better (
          take_this color b bs i size (ground arith) (ground arith)
            (largest_from-Outcome color bs (i + 1) b.num_pixels (some i)))
      | inr not ↦ rw not (
          skip color b bs i size (λ c. ground arith)
            (largest_from-Outcome color bs (i + 1) size best))
    ]

-- What the answer means for the table.
abbrev pub IsLargest : ℕ → Detections → Option ℕ → Type 0
IsLargest color d none = AtMost color 0 d.blobs
IsLargest color d (some i) =
    (i < length d.blobs)
    × Counts color (blob_at d i)
    × (0 < (blob_at d i).num_pixels)
    × AtMost color (blob_at d i).num_pixels d.blobs

Outcome-IsLargest :
    (color : ℕ) (d : Detections) {r : Option ℕ}
    → Outcome color d.blobs 0 0 none r
    → IsLargest color d r
Outcome-IsLargest color d (kept a) = a
Outcome-IsLargest color d (found k lt c more a {r} e) =
    let e' : r ≡ some k = ground arith in rw e' (lt, c, more, a)

-- The answer of `find_largest_blob` is a blob of the table that is complete, has the colour and at
-- least one pixel, and no other such blob has more pixels; no answer means that no complete blob of
-- the colour has any.
pub find_largest_blob-IsLargest :
    (d : Detections) (color : ℕ) → IsLargest color d (find_largest_blob d color)
unfolding find_largest_blob
find_largest_blob-IsLargest d color =
    Outcome-IsLargest color d (largest_from-Outcome color d.blobs 0 0 none)
