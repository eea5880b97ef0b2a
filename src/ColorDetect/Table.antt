-- ===== src/ColorDetect/Table.antt =====
-- What the table of blobs satisfies while an image is scanned, and that `append_blob`, `new_blob`,
-- `new_or_append_blob` and `cull_blobs` keep it.
pub mod Merging
pub mod Scanning
use hawkeye.Base.{
  ℕ, zero, suc, ◌+◌, ◌-◌, ◌^◌, ◌≤◌, ◌<◌, ◌≡◌, refl, sym, ◌∙◌, ap, ◌==◌, u64, Bool, true, false, not,
  Option, none, some, List, [], ◌∷◌, inl, inr, arith, length, get_or, set, length-set,
  if◌then◌else◌, All, All-set, All-get_or, Option-cases, Bool-cases, ltb,
}
use hawkeye.ColorDetect.Blob.{
  Blob, zero_blob, num_blobs_max, Detections, blob_at, clear_blobs, find_index, extend_blob,
  append_blob, start_blob, new_blob, find_containing_blob, new_or_append_blob,
}
use hawkeye.ColorDetect.Merge.{is_culled, cull_from, cull_blobs}

-- A statement about a blob that is in use.
abbrev pub Guarded : Bool → Type 0 → Type 0
Guarded true P = P
Guarded false P = Unit

-- The bounding box lies in columns below `width` and rows up to `row`.
abbrev pub InBox : ℕ → ℕ → Blob → Type 0
InBox width row b = Guarded b.valid (
    (b.bb_x_min ≤ b.bb_x_max)
    × (b.bb_x_max < width)
    × (b.bb_y_min ≤ b.bb_y_max)
    × (b.bb_y_max ≤ row))

abbrev pub count_valid : List Blob → ℕ
count_valid [] = 0
count_valid (b ∷ bs) = (if b.valid then 1 else 0) + count_valid bs

-- The table between two segments: ten blobs, boxes in the rows seen, and an exact counter.
pub record IsTable (width row : ℕ) (d : Detections) : Type 0 where
  pub size : length d.blobs ≡ num_blobs_max
  pub counted : d.num_blobs ≡ count_valid d.blobs
  pub boxes : All (InBox width row) d.blobs

pub count_valid-le-length : (bs : List Blob) → count_valid bs ≤ length bs
count_valid-le-length [] = omega arith
count_valid-le-length (b ∷ bs) = ground (arith, count_valid-le-length bs)

pub count_valid-set :
    (bs : List Blob) (i : ℕ) (v : Blob)
    → i < length bs
    → count_valid (set bs i v) + (if (get_or bs i zero_blob).valid then 1 else 0)
      ≡ count_valid bs + (if v.valid then 1 else 0)
count_valid-set [] i v h = absurd (omega arith)
count_valid-set (b ∷ bs) zero v h = omega arith
count_valid-set (b ∷ bs) (suc i) v h = omega (arith, count_valid-set bs i v (omega arith))

pub count_valid-set_same :
    (bs : List Blob) (i : ℕ) (v : Blob)
    → v.valid ≡ (get_or bs i zero_blob).valid
    → count_valid (set bs i v) ≡ count_valid bs
count_valid-set_same [] i v h = refl
count_valid-set_same (b ∷ bs) zero v h = ap (λ (t : Bool). (if t then 1 else 0) + count_valid bs) h
count_valid-set_same (b ∷ bs) (suc i) v h =
    ap (λ (n : ℕ). (if b.valid then 1 else 0) + n) (count_valid-set_same bs i v h)

pub InBox-mono :
    (width row row' : ℕ) (b : Blob) → row ≤ row' → InBox width row b → InBox width row' b
InBox-mono width row row' b h p = ground arith

pub boxes_mono :
    (width row row' : ℕ) (bs : List Blob)
    → row ≤ row'
    → All (InBox width row) bs
    → All (InBox width row') bs
boxes_mono width row row' [] h p = tt
boxes_mono width row row' (b ∷ bs) h p =
    (InBox-mono width row row' b h p.0, boxes_mono width row row' bs h p.1)

-- What `find_index` returned: the first index, counted from `i`, whose blob passes the test.
pub record IsFirst (test : Blob → Bool) (bs : List Blob) (i j : ℕ) : Type 0 where
  pub offset : ℕ
  pub index_is : j ≡ i + offset
  pub inside : offset < length bs
  pub passes : test (get_or bs offset zero_blob) ≡ true
  pub earlier : (m : ℕ) → m < offset → test (get_or bs m zero_blob) ≡ false

module _ (test : Blob → Bool) where
  earlier-cons :
      (b : Blob) (bs : List Blob) (k : ℕ)
      → test b ≡ false
      → ((m : ℕ) → m < k → test (get_or bs m zero_blob) ≡ false)
      → (m : ℕ) → m < suc k
      → test (get_or (b ∷ bs) m zero_blob) ≡ false
  earlier-cons b bs k e h zero lt = e
  earlier-cons b bs k e h (suc m) lt = h m (omega arith)

  pub find_index-IsFirst :
      (bs : List Blob) (i : ℕ) {j : ℕ} → find_index test bs i ≡ some j → IsFirst test bs i j
  unfolding find_index
  find_index-IsFirst [] i h = absurd (ground arith)
  find_index-IsFirst (b ∷ bs) i {j} h = elim (Bool-cases (test b)) [
    | inl pass ↦ record {
      offset = 0;
      index_is = ground arith;
      inside = omega arith;
      passes = pass;
      earlier = λ m lt. absurd (omega arith);
    }
    | inr fail ↦
        let r = find_index-IsFirst bs (i + 1) (rw (fail, find_index) at h) in
        record {
          offset = suc r.offset;
          index_is = omega (arith, r.index_is);
          inside = omega (arith, r.inside);
          passes = r.passes;
          earlier = earlier-cons b bs r.offset fail r.earlier;
        }
  ]

  pub find_index-none :
      (bs : List Blob) (i : ℕ)
      → find_index test bs i ≡ none
      → (m : ℕ) → m < length bs
      → test (get_or bs m zero_blob) ≡ false
  unfolding find_index
  find_index-none [] i h m lt = absurd (omega arith)
  find_index-none (b ∷ bs) i h zero lt = ground arith
  find_index-none (b ∷ bs) i h (suc m) lt =
      find_index-none bs (i + 1) (ground arith) m (omega arith)

zero_blob-InBox : (width row : ℕ) → InBox width row zero_blob
zero_blob-InBox width row = tt

module _ {width row : ℕ} {d : Detections} (h : ℕ) (row-le : row ≤ h) (t : IsTable width row d) where
  pub IsTable_mono : IsTable width h d
  IsTable_mono = record {
    size = t.size;
    counted = t.counted;
    boxes = boxes_mono width row h d.blobs row-le t.boxes;
  }

  blob_at-InBox : (i : ℕ) → InBox width row (blob_at d i)
  blob_at-InBox i = All-get_or (InBox width row) d.blobs i zero_blob t.boxes tt

  -- A blob replaced by one that is as much in use.
  set-IsTable :
      (i : ℕ) (v : Blob)
      → v.valid ≡ (blob_at d i).valid
      → InBox width h v
      → IsTable width h (record d { blobs = set d.blobs i v })
  set-IsTable i v e p = record {
    size = length-set d.blobs i v ∙ t.size;
    counted = t.counted ∙ sym (count_valid-set_same d.blobs i v e);
    boxes = All-set (InBox width h) d.blobs i v (boxes_mono width row h d.blobs row-le t.boxes) p;
  }

  extend_blob-InBox :
      (w_min w_max : ℕ) (b : Blob)
      → w_min ≤ w_max
      → w_max < width
      → InBox width row b
      → InBox width h (extend_blob w_min w_max h b)
  unfolding extend_blob
  extend_blob-InBox w_min w_max b p q k = ground arith

  extend_blob-valid : (w_min w_max : ℕ) (b : Blob) → (extend_blob w_min w_max h b).valid ≡ b.valid
  unfolding extend_blob
  extend_blob-valid w_min w_max b = refl

  pub append_blob-IsTable :
      (w_min w_max index color : ℕ)
      → w_min ≤ w_max
      → w_max < width
      → IsTable width h (append_blob d w_min w_max h index color)
  unfolding append_blob
  append_blob-IsTable w_min w_max index color p q =
      let b = blob_at d index in
      let extended =
        set-IsTable index (extend_blob w_min w_max h b) (extend_blob-valid w_min w_max b)
          (extend_blob-InBox w_min w_max b p q (blob_at-InBox index)) in
      elim (Bool-cases (ltb num_blobs_max index)) [
        | inl out ↦ rw out IsTable_mono
        | inr inside ↦ rw inside (elim (Bool-cases (color == b.color_index)) [
          | inl same ↦ rw same extended
          | inr other ↦ rw other IsTable_mono
        ])
      ]

  start_blob-InBox :
      (w_min w_max color : ℕ) (b : Blob)
      → w_min ≤ w_max
      → w_max < width
      → InBox width h (start_blob w_min w_max h color b)
        × ((start_blob w_min w_max h color b).valid ≡ true)
  unfolding start_blob
  start_blob-InBox w_min w_max color b p q = ground arith

  claim-IsTable :
      (w_min w_max color i : ℕ)
      → w_min ≤ w_max
      → w_max < width
      → IsFirst (λ b. not b.valid) d.blobs 0 i
      → IsTable width h (record {
        blobs = set d.blobs i (start_blob w_min w_max h color (blob_at d i));
        num_blobs = u64 (d.num_blobs + 1);
      })
  claim-IsTable w_min w_max color i p q f =
      let v = start_blob w_min w_max h color (blob_at d i) in
      let e : f.offset ≡ i = omega (arith, f.index_is) in
      let inside : i < length d.blobs = rw e at f.inside in
      let free : not (blob_at d i).valid ≡ true = rw e at f.passes in
      let (box, used) = start_blob-InBox w_min w_max color (blob_at d i) p q in
      let change = count_valid-set d.blobs i v inside in
      record {
        size = length-set d.blobs i v ∙ t.size;
        counted =
            ground (arith, change, used, free, t.counted, t.size, count_valid-le-length d.blobs);
        boxes =
            All-set (InBox width h) d.blobs i v (boxes_mono width row h d.blobs row-le t.boxes) box;
      }

  pub new_blob-IsTable :
      (w_min w_max color : ℕ)
      → w_min ≤ w_max
      → w_max < width
      → IsTable width h (new_blob d w_min w_max h color).0
  unfolding new_blob
  new_blob-IsTable w_min w_max color p q =
      elim (Option-cases (find_index (λ b. not b.valid) d.blobs 0)) [
        | inl full ↦ rw (full, new_blob) IsTable_mono
        | inr (i, free) ↦
            rw (free, new_blob)
              (claim-IsTable w_min w_max color i p q
                (find_index-IsFirst (λ b. not b.valid) d.blobs 0 free))
      ]

  -- A segment handed over in a row `h` not above the rows seen so far keeps the table, for any image
  -- size given to the search: ten blobs, boxes in the columns below `width` and the rows up to `h`,
  -- and `num_blobs` equal to the number of blobs in use.
  pub new_or_append_blob-IsTable :
      (w_min w_max width' height' color : ℕ)
      → w_min ≤ w_max
      → w_max < width
      → IsTable width h (new_or_append_blob d w_min w_max h width' height' color)
  unfolding new_or_append_blob
  new_or_append_blob-IsTable w_min w_max width' height' color p q =
      let found = find_containing_blob d w_min w_max h width' height' color in
      elim (Bool-cases (ltb (w_max - w_min) 3)) [
        | inl short ↦ rw short IsTable_mono
        | inr long ↦ rw long (elim (Option-cases found) [
          | inl nowhere ↦ rw nowhere (elim (Bool-cases (ltb d.num_blobs num_blobs_max)) [
            | inl room ↦ rw room (new_blob-IsTable w_min w_max color p q)
            | inr full ↦ rw full IsTable_mono
          ])
          | inr (index, here) ↦ rw here (append_blob-IsTable w_min w_max index color p q)
        ])
      ]
