-- ===== src/Video/Marked.antt =====
-- src/v4l2uvc.c: proofs about where `is_huffman` sees a table, and the frames that `copy_frame` leaves alone.
use hawkeye.Base.{
  ℕ, zero, suc, ◌≤◌, ◌<◌, ◌≡◌, refl, sym, ap, ◌∙◌, false, some, [], ◌∷◌, ◌++◌, append_assoc, arith,
  Bytes, length, length-append, drop, take-append, memcpy, memcpy-append, ltb, lt→ltb, le→ltb,
  ltb→lt, ltb→le, Bool-cases, ◌⊎◌, inl, inr, ◌==◌,
}
use hawkeye.Video.Frames.{marker, is_huffman, is_huffman_from, copy_frame_as, copy_frame}

-- Neither a scan nor a Huffman table begins in `pre`, when the next byte is 255.
abbrev pub Unmarked : Bytes → Type 0
Unmarked [] = Unit
Unmarked (a ∷ []) = Unit
Unmarked (a ∷ b ∷ xs) =
    ((marker a b == 65498) ≡ false) × ((marker a b == 65476) ≡ false) × Unmarked (b ∷ xs)

abbrev pub huffman_table : Bytes → Bytes
huffman_table post = 255 ∷ 196 ∷ post

is_huffman_from-Unmarked :
    (pre post : Bytes) (n : ℕ)
    → Unmarked pre
    → is_huffman_from n (pre ++ huffman_table post) ≡ some (ltb (length pre) n)
unfolding is_huffman_from
is_huffman_from-Unmarked [] post zero h = ap some (sym (le→ltb 0 0 (omega arith)))
is_huffman_from-Unmarked [] post (suc n) h = ap some (sym (lt→ltb 0 (suc n) (omega arith)))
is_huffman_from-Unmarked (a ∷ []) post zero h = ap some (sym (le→ltb 1 0 (omega arith)))
is_huffman_from-Unmarked (a ∷ b ∷ pre) post zero h =
    ap some (sym (le→ltb (length (a ∷ b ∷ pre)) 0 (omega arith)))
is_huffman_from-Unmarked (a ∷ []) post (suc n) h =
    let no_scan : (marker a 255 == 65498) ≡ false = ground arith in
    let no_table : (marker a 255 == 65476) ≡ false = ground arith in
    rw (no_scan, no_table) (is_huffman_from-Unmarked [] post n tt ∙ ap some (shift 0 n))
  where
    shift : (k n : ℕ) → ltb k n ≡ ltb (suc k) (suc n)
    shift k n = ground arith
is_huffman_from-Unmarked (a ∷ b ∷ pre) post (suc n) h =
    rw (h.0, h.1)
      (is_huffman_from-Unmarked (b ∷ pre) post n h.2 ∙ ap some (shift (length (b ∷ pre)) n))
  where
    shift : (k n : ℕ) → ltb k n ≡ ltb (suc k) (suc n)
    shift k n = ground arith

-- For a frame whose first marker of a scan or of a Huffman table is that of a table: if the marker
-- begins within the first 2049 bytes, `copy_frame` copies the frame as it is when the destination
-- has room; if it begins behind them, `is_huffman` does not see it and takes the frame for one
-- without a table.
pub copy_frame-same :
    (pre post slack dst : Bytes) (dst_size : ℕ)
    → Unmarked pre
    → length (pre ++ huffman_table post) ≤ length dst
    → let frame = pre ++ huffman_table post in
      ((length pre ≤ 2048)
        × (copy_frame dst dst_size (frame ++ slack) (length frame)
            ≡ some (record { dst = frame ++ drop (length frame) dst; size = length frame })))
      ⊎ ((2048 < length pre) × (is_huffman (frame ++ slack) ≡ some false))
unfolding copy_frame copy_frame_as is_huffman
copy_frame-same pre post slack dst dst_size clear room =
    let frame = pre ++ huffman_table post in
    let n = length frame in
    let seen : is_huffman_from 2049 (frame ++ slack) ≡ some (ltb (length pre) 2049) =
      ap (is_huffman_from 2049) (append_assoc pre (huffman_table post) slack)
      ∙ is_huffman_from-Unmarked pre (post ++ slack) 2049 clear in
    let one : memcpy dst 0 (frame ++ slack) 0 n ≡ some (frame ++ drop n dst) =
      memcpy-append [] dst 0 refl n room (frame ++ slack) 0
        (omega (arith, length-append {0} frame slack))
      ∙ ap (λ t. some (t ++ drop n dst)) (take-append frame slack n refl) in
    elim (Bool-cases (ltb (length pre) 2049)) [
      | inl near ↦ inl (omega (arith, ltb→lt (length pre) 2049 near), rw (seen, near, one) refl)
      | inr far ↦ inr (omega (arith, ltb→le (length pre) 2049 far), seen ∙ ap some far)
    ]
