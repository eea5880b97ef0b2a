-- ===== src/ColorDetect/Containing.antt =====
-- Which blob `find_containing_blob` chooses for a segment.
use hawkeye.Base.{
  ℕ, zero, suc, Option, All, All-at, Option-cases, ltb→lt, ltb→le, ◌+◌, ◌-◌, ◌^◌, ◌≤◌, ◌<◌, ◌≡◌,
  ◌↔◌, Bool, true, false, none, some, arith, length, Bool-cases, inl, inr, min, int_leb, ltb,
}
use hawkeye.ColorDetect.Blob.{
  Blob, zero_blob, Detections, blob_at, allowed_miss, any_inside, left_bound, right_bound,
  lower_bound, takes_segment, find_containing_blob,
}
use hawkeye.ColorDetect.Table.{Guarded, find_index-IsFirst, find_index-none}

-- The loop over the columns of the segment in closed form.
pub any_inside_iff :
    (n j x_min x_max : ℕ)
    → (any_inside n j x_min x_max ≡ true)
      ↔ ((0 < n) × (x_min < j + n) × (j ≤ x_max) × (x_min ≤ x_max))
unfolding any_inside
any_inside_iff zero j x_min x_max = ground arith
any_inside_iff (suc n) j x_min x_max = ground (arith, any_inside_iff n (j + 1) x_min x_max)

-- The blob is in use, has the colour, was last extended at most `row_miss` rows above, and its
-- columns, widened by `column_miss` to both sides, meet those of the segment.
pub record Near (column_miss row_miss w_min w_max h width height color : ℕ) (b : Blob)
    : Type 0 where
  pub in_use : b.valid ≡ true
  pub same_color : color ≡ b.color_index
  pub recent : h ≤ min height (b.bb_y_max + row_miss)
  pub left_of : b.bb_x_min < w_max + column_miss
  pub right_of : w_min ≤ min width (b.bb_x_max + column_miss)
  pub inside : b.bb_x_min ≤ column_miss + min width (b.bb_x_max + column_miss)

module _ (column_miss row_miss : ℕ) (b : Blob) where
  left_bound-eq :
      column_miss ≤ b.bb_x_min
      → b.bb_x_min < 2 ^ 31
      → left_bound column_miss b ≡ b.bb_x_min - column_miss
  unfolding left_bound
  left_bound-eq p q = ground arith

  left_bound-huge :
      b.bb_x_min < column_miss → column_miss < 2 ^ 31 → 2 ^ 63 ≤ left_bound column_miss b
  unfolding left_bound
  left_bound-huge p q = ground arith

  right_bound-eq :
      (width : ℕ)
      → b.bb_x_max + column_miss < 2 ^ 31
      → width < 2 ^ 31
      → right_bound column_miss width b ≡ min width (b.bb_x_max + column_miss)
  unfolding right_bound
  right_bound-eq width p q = ground arith

  lower_bound_reads :
      (h height : ℕ)
      → b.bb_y_max + row_miss < 2 ^ 31
      → height < 2 ^ 31
      → h < 2 ^ 31
      → (int_leb h (lower_bound row_miss height b) ≡ true)
        ↔ (h ≤ min height (b.bb_y_max + row_miss))
  unfolding lower_bound
  lower_bound_reads h height p q r = ground arith

-- What the arithmetic of `find_containing_blob` needs to stay clear of the sign bit.
pub record IsSmall (column_miss row_miss w_max h width height : ℕ) (b : Blob) : Type 0 where
  pub left : b.bb_x_min < 2 ^ 31
  pub right : b.bb_x_max + column_miss < 2 ^ 31
  pub bottom : b.bb_y_max + row_miss < 2 ^ 31
  pub image_width : width < 2 ^ 31
  pub image_height : height < 2 ^ 31
  pub row : h < 2 ^ 31
  pub segment : w_max < 2 ^ 31

module _ {column_miss row_miss w_max h width height : ℕ} {b : Blob}
    (s : IsSmall column_miss row_miss w_max h width height b) (w_min color : ℕ)
    (longer : w_min < w_max) where
  takes_segment_iff :
      column_miss ≤ b.bb_x_min
      → (takes_segment column_miss row_miss w_min w_max h width height color b ≡ true)
        ↔ Near column_miss row_miss w_min w_max h width height color b
  unfolding takes_segment
  takes_segment_iff p = ground (
    arith,
    left_bound-eq column_miss row_miss b p s.left,
    right_bound-eq column_miss row_miss b width s.right s.image_width,
    lower_bound_reads column_miss row_miss b h height s.bottom s.image_height s.row,
    any_inside_iff (w_max - w_min) w_min (left_bound column_miss b)
        (right_bound column_miss width b),
  )

  takes_segment_left_edge :
      b.bb_x_min < column_miss
      → takes_segment column_miss row_miss w_min w_max h width height color b ≡ false
  unfolding takes_segment
  takes_segment_left_edge p = ground (
    arith,
    left_bound-huge column_miss row_miss b p (omega (arith, s.right)),
    any_inside_iff (w_max - w_min) w_min (left_bound column_miss b)
        (right_bound column_miss width b),
    s.segment,
  )

-- Where the blobs in use keep `column_miss` columns from the left edge of the image, the answer is
-- the first near blob, or there is none.
abbrev pub Chooses : (Blob → Type 0) → Detections → Option ℕ → Type 0
Chooses P d none = (m : ℕ) → m < length d.blobs → ¬ P (blob_at d m)
Chooses P d (some i) = P (blob_at d i) × ((m : ℕ) → m < i → ¬ P (blob_at d m))

abbrev pub NearIn : ℕ → ℕ → ℕ → ℕ → ℕ → ℕ → Blob → Type 0
NearIn w_min w_max h width height color =
    Near (allowed_miss width) (allowed_miss height) w_min w_max h width height color

abbrev pub IsSmallIn : ℕ → ℕ → ℕ → ℕ → Blob → Type 0
IsSmallIn w_max h width height =
    IsSmall (allowed_miss width) (allowed_miss height) w_max h width height

-- The distance that the intended test needs from the left edge.
abbrev pub KeepsLeft : ℕ → Blob → Type 0
KeepsLeft width b = Guarded b.valid (allowed_miss width ≤ b.bb_x_min)

module _ (w_min w_max h width height color : ℕ) (longer : w_min < w_max) where
  abbrev taken : Blob → Bool
  taken = takes_segment (allowed_miss width) (allowed_miss height) w_min w_max h width height color

  taken_iff :
      (b : Blob)
      → IsSmallIn w_max h width height b
      → KeepsLeft width b
      → (taken b ≡ true) ↔ NearIn w_min w_max h width height color b
  taken_iff b s g = elim (Bool-cases b.valid) [
    | inl used ↦ takes_segment_iff s w_min color longer (rw used at g)
    | inr unused ↦ (λ e. absurd (unfold takes_segment in ground arith), λ n. absurd (cc (n.in_use)))
  ]

  not_taken :
      (b : Blob)
      → IsSmallIn w_max h width height b
      → KeepsLeft width b
      → taken b ≡ false
      → ¬ NearIn w_min w_max h width height color b
  not_taken b s g e n = cc (e, (taken_iff b s g).1 n)

  module _ (d : Detections) (small : All (IsSmallIn w_max h width height) d.blobs) where
    small_at : (i : ℕ) → i < length d.blobs → IsSmallIn w_max h width height (blob_at d i)
    small_at i lt = All-at (IsSmallIn w_max h width height) d.blobs i zero_blob lt small

    first_taken :
        {i : ℕ}
        → find_containing_blob d w_min w_max h width height color ≡ some i
        → (i < length d.blobs)
          × (taken (blob_at d i) ≡ true)
          × ((m : ℕ) → m < i → taken (blob_at d m) ≡ false)
    unfolding find_containing_blob
    first_taken {i} e =
        let f = find_index-IsFirst taken d.blobs 0 e in
        let o : f.offset ≡ i = omega (arith, f.index_is) in
        (rw o at f.inside, rw o at f.passes, rw o at f.earlier)

    none_is_taken :
        find_containing_blob d w_min w_max h width height color ≡ none
        → (m : ℕ) → m < length d.blobs
        → taken (blob_at d m) ≡ false
    unfolding find_containing_blob
    none_is_taken e = find_index-none taken d.blobs 0 e

    -- Where every blob in use keeps its distance from the left edge of the image, the answer of
    -- `find_containing_blob` is the first blob that is near the segment, and no answer means that
    -- none is. The coordinates stay clear of the sign bit.
    pub find_containing_blob-Chooses :
        All (KeepsLeft width) d.blobs
        → Chooses
            (NearIn w_min w_max h width height color)
            d
            (find_containing_blob d w_min w_max h width height color)
    find_containing_blob-Chooses away =
        let away_at = λ (m : ℕ) (lt : m < length d.blobs).
          All-at (KeepsLeft width) d.blobs m zero_blob lt away in
        elim (Option-cases (find_containing_blob d w_min w_max h width height color)) [
          | inl e ↦ rw e (λ m lt.
              not_taken (blob_at d m) (small_at m lt) (away_at m lt) (none_is_taken e m lt))
          | inr (i, e) ↦
              let (inside, pass, earlier) = first_taken e in
              rw e (
                (taken_iff (blob_at d i) (small_at i inside) (away_at i inside)).0 pass,
                λ m lt.
                    not_taken (blob_at d m) (small_at m (omega arith)) (away_at m (omega arith))
                      (earlier m lt),
              )
        ]

    -- `find_containing_blob` never answers with a blob whose left edge is nearer to that of the
    -- image than the allowed miss, wherever the segment lies.
    pub find_containing_blob-left_edge :
        {i : ℕ}
        → find_containing_blob d w_min w_max h width height color ≡ some i
        → allowed_miss width ≤ (blob_at d i).bb_x_min
    find_containing_blob-left_edge {i} e =
        let (inside, pass, _) = first_taken e in
        elim (Bool-cases (ltb (blob_at d i).bb_x_min (allowed_miss width))) [
          | inl near ↦ absurd (
              ground (
                arith,
                pass,
                takes_segment_left_edge (small_at i inside) w_min color longer (ltb→lt _ _ near),
              ))
          | inr far ↦ ltb→le _ _ far
        ]
