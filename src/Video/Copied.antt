-- ===== src/Video/Copied.antt =====
-- What `copy_frame` leaves in the destination.
use hawkeye.Base.{
  ℕ, zero, suc, ◌+◌, ◌-◌, ◌^◌, ◌≤◌, ◌<◌, ◌≡◌, refl, sym, ap, ap₂, ◌∙◌, false, Option, none, some,
  [], ◌∷◌, ◌++◌, append_assoc, arith, Bytes, length, length-append, length-take, length-drop, take,
  drop, take-append, drop-append, drop-drop, memcpy, memcpy-append, ◌>>=◌, if-intro, ltb, leb, ◌==◌,
  ◌||◌, u64,
}
use hawkeye.Video.Frames.{
  dht_data, marker, is_huffman, find_start_of_frame, sub_u64, copy_with_tables, copy_found,
  copy_frame_as, copy_frame,
}

abbrev pub tables : ℕ
tables = 420

-- No start of frame begins in `pre`, when the next byte is 255.
abbrev pub NoStart : Bytes → Type 0
NoStart [] = Unit
NoStart (a ∷ []) = Unit
NoStart (a ∷ b ∷ xs) = ((marker a b == 65472) ≡ false) × NoStart (b ∷ xs)

abbrev pub start_of_frame : Bytes → Bytes
start_of_frame post = 255 ∷ 192 ∷ post

find_start_of_frame-append :
    (pre post : Bytes) (n pos : ℕ)
    → NoStart pre
    → length pre < n
    → find_start_of_frame n pos (pre ++ start_of_frame post) ≡ some (pos + length pre)
unfolding find_start_of_frame
find_start_of_frame-append [] post zero pos h k = absurd (omega arith)
find_start_of_frame-append [] post (suc n) pos h k = ap some (omega arith)
find_start_of_frame-append (a ∷ []) post zero pos h k = absurd (omega arith)
find_start_of_frame-append (a ∷ []) post (suc n) pos h k =
    let differs : (marker a 255 == 65472) ≡ false = ground arith in
    rw differs
      (find_start_of_frame-append [] post n (pos + 1) tt (omega arith) ∙ ap some (omega arith))
find_start_of_frame-append (a ∷ b ∷ pre) post zero pos h k = absurd (omega arith)
find_start_of_frame-append (a ∷ b ∷ pre) post (suc n) pos h k = rw h.0 (
    find_start_of_frame-append (b ∷ pre) post n (pos + 1) h.1 (omega arith) ∙ ap some (omega arith))

-- The three copies.
module _ (pre tail dst : Bytes) (m : ℕ) (within : m ≤ length tail)
    (room : length pre + m + tables ≤ length dst) (word : length dst < 2 ^ 64) where
  copy_with_tables-eq :
      copy_with_tables dst (pre ++ tail) (length pre + m) (length pre)
      ≡ some (record {
        dst = pre ++ (dht_data ++ (take m tail ++ drop (length pre + m + tables) dst));
        size = length pre + m + tables;
      })
  unfolding copy_with_tables
  copy_with_tables-eq =
      let n = length pre in
      let src = pre ++ tail in
      let all : length src ≡ n + length tail = length-append pre tail in
      let left : length (drop n dst) ≡ length dst - n = length-drop n dst in
      let rest : sub_u64 (n + m) n ≡ m = omega (arith, room, word) in
      let one : memcpy dst 0 src 0 n ≡ some (pre ++ drop n dst) =
        memcpy-append [] dst 0 refl n (omega (arith, room)) src 0 (omega (arith, all))
        ∙ ap (λ t. some (t ++ drop n dst)) (take-append pre tail n refl) in
      let two : memcpy (pre ++ drop n dst) n dht_data 0 tables
          ≡ some (pre ++ (dht_data ++ drop tables (drop n dst))) =
        memcpy-append pre (drop n dst) n refl tables (omega (arith, left, room)) dht_data 0
          (omega arith) in
      let after : length (pre ++ dht_data) ≡ n + tables = length-append pre dht_data in
      let behind : drop tables (drop n dst) ≡ drop (n + tables) dst =
        drop-drop tables n (n + tables) dst (omega arith) in
      let size : length (drop (n + tables) dst) ≡ length dst - (n + tables) =
        length-drop (n + tables) dst in
      let three : memcpy (pre ++ (dht_data ++ drop tables (drop n dst))) (n + tables) src n m
          ≡ some (pre ++ (dht_data ++ (take m tail ++ drop (n + m + tables) dst))) =
        ap (λ b. memcpy b (n + tables) src n m)
          (ap (λ b. pre ++ (dht_data ++ b)) behind
            ∙ sym (append_assoc pre dht_data (drop (n + tables) dst)))
        ∙ memcpy-append (pre ++ dht_data) (drop (n + tables) dst) (n + tables) (sym after) m
            (omega (arith, size, room)) src n (omega (arith, all, within))
        ∙ ap₂ (λ a b. some ((pre ++ dht_data) ++ (take m a ++ b))) (drop-append pre tail n refl)
            (drop-drop m (n + tables) (n + m + tables) dst (omega arith))
        ∙ ap some (append_assoc pre dht_data (take m tail ++ drop (n + m + tables) dst)) in
      let total : u64 (n + tables + m) ≡ n + m + tables = omega (arith, room, word) in
      rw (rest, one, two, three, total) refl

-- A frame of `length pre + m` bytes in which `is_huffman` sees no Huffman table and whose first
-- start of frame follows `pre`, inside dst_size, is copied with the table inserted before that
-- start, when the destination has room for 420 bytes more than the frame. The size returned is the
-- frame's and the table's, and the bytes behind stay as they were.
pub copy_frame-inserted :
    (pre post dst : Bytes) (dst_size m : ℕ)
    → is_huffman (pre ++ start_of_frame post) ≡ some false
    → NoStart pre
    → length pre < dst_size
    → m ≤ length (start_of_frame post)
    → length pre + m + tables ≤ length dst
    → length dst < 2 ^ 64
    → copy_frame dst dst_size (pre ++ start_of_frame post) (length pre + m)
      ≡ some (record {
        dst =
            pre
            ++ (dht_data ++ (take m (start_of_frame post) ++ drop (length pre + m + tables) dst));
        size = length pre + m + tables;
      })
unfolding copy_frame copy_frame_as copy_found
copy_frame-inserted pre post dst dst_size m none_there first inside within room word =
    let found : find_start_of_frame dst_size 0 (pre ++ start_of_frame post) ≡ some (length pre) =
      find_start_of_frame-append pre post dst_size 0 first inside ∙ ap some (omega arith) in
    let near : leb dst_size (length pre) ≡ false = ground (arith, inside) in
    rw (none_there, found, near)
      (copy_with_tables-eq pre (start_of_frame post) dst m within room word)

length-memcpy :
    (dst src out : Bytes) (off from n : ℕ)
    → memcpy dst off src from n ≡ some out
    → length out ≡ length dst
unfolding memcpy
length-memcpy dst src out off from n =
    if-intro (λ r. r ≡ some out → length out ≡ length dst)
      (ltb (length dst) (off + n) || ltb (length src) (from + n))
      (λ on e. absurd (ground (arith, e)))
      (λ off_limits e.
        let shape : take off dst ++ (take n (drop from src) ++ drop (off + n) dst) ≡ out =
          ground (arith, e) in
        let enough : (off + n ≤ length dst) × (from + n ≤ length src) =
          ground (arith, off_limits) in
        omega (
          arith,
          ap length shape,
          enough.0,
          enough.1,
          length-append {0} (take off dst) (take n (drop from src) ++ drop (off + n) dst),
          length-append {0} (take n (drop from src)) (drop (off + n) dst),
          length-take off dst,
          length-take n (drop from src),
          length-drop from src,
          length-drop (off + n) dst,
        ))

memcpy-fault :
    (dst src : Bytes) (off from n : ℕ) → length dst < off + n → memcpy dst off src from n ≡ none
unfolding memcpy
memcpy-fault dst src off from n h = ground arith

bind_none {ℓ κ} :
    {A : Type ℓ} {B : Type κ} (o : Option A) (f : A → Option B)
    → ((a : A) → o ≡ some a → f a ≡ none)
    → (o >>= f) ≡ none
bind_none none f h = refl
bind_none (some a) f h = h a refl

-- A frame in which `is_huffman` sees no Huffman table, with a start of frame inside dst_size and in
-- the frame, is written past the end of a destination that has less than 420 bytes more than the
-- frame, though dst_size is the size of that destination.
pub copy_frame-overflow :
    (dst src : Bytes) (src_size sizein : ℕ)
    → is_huffman src ≡ some false
    → find_start_of_frame (length dst) 0 src ≡ some sizein
    → sizein < length dst
    → sizein ≤ src_size
    → src_size < 2 ^ 64
    → length dst < src_size + tables
    → copy_frame dst (length dst) src src_size ≡ none
unfolding copy_frame copy_frame_as copy_found copy_with_tables
copy_frame-overflow dst src src_size sizein none_there found near inside word short =
    let far : leb (length dst) sizein ≡ false = ground (arith, near) in
    let rest : sub_u64 src_size sizein ≡ src_size - sizein = omega (arith, inside, word) in
    rw (none_there, found, far)
      (bind_none (memcpy dst 0 src 0 sizein) _ (λ d e.
        let size = length-memcpy dst src d 0 0 sizein e in
        bind_none (memcpy d sizein dht_data 0 tables) _ (λ d' e'.
          let size' = length-memcpy d dht_data d' sizein 0 tables e' in
          rw
            (memcpy-fault d' src (sizein + tables) sizein (sub_u64 src_size sizein)
              (omega (arith, size, size', rest, inside, short)))
            refl)))
