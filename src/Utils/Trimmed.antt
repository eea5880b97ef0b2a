-- ===== src/Utils/Trimmed.antt =====
-- What `trim` leaves of a string: the part between its outer blanks.
use hawkeye.Base.{
  ℕ, zero, suc, ◌+◌, ◌-◌, ◌<◌, ◌≡◌, ◌≢◌, refl, sym, ap, ap₂, ◌∙◌, true, false, [], ◌∷◌, ◌++◌,
  append_assoc, arith, Bytes, length, length-append, get_or, set, take, drop, take-append,
  drop-append, replicate, length-replicate, All, All-append,
}
use hawkeye.Base.Text.{cstr}
use hawkeye.Utils.Trim.{is_blank, clear_trailing, move_down, skip_leading, trim}

-- Bytes of a C string, and blank ones.
abbrev pub NonNul : ℕ → Type 0
NonNul c = c ≢ 0

abbrev pub Blank : ℕ → Type 0
Blank c = (c ≢ 0) × (is_blank c ≡ true)

pub cstr-append_nul : (s rest : Bytes) → All NonNul s → cstr (s ++ (0 ∷ rest)) ≡ s
unfolding cstr
cstr-append_nul [] rest h = refl
cstr-append_nul (c ∷ s) rest h = ground (arith, cstr-append_nul s rest h.1)

-- Reading and writing just behind a prefix.
get_or-append : (xs ys : Bytes) (y d : ℕ) → get_or (xs ++ (y ∷ ys)) (length xs) d ≡ y
get_or-append [] ys y d = refl
get_or-append (x ∷ xs) ys y d = get_or-append xs ys y d

set-append : (xs ys : Bytes) (y v : ℕ) → set (xs ++ (y ∷ ys)) (length xs) v ≡ xs ++ (v ∷ ys)
set-append [] ys y v = refl
set-append (x ∷ xs) ys y v = ap (◌∷◌ x) (set-append xs ys y v)

replicate-cons : (n v : ℕ) (ys : Bytes) → replicate n v ++ (v ∷ ys) ≡ v ∷ (replicate n v ++ ys)
replicate-cons zero v ys = refl
replicate-cons (suc n) v ys = ap (◌∷◌ v) (replicate-cons n v ys)

-- One round of the first loop, at the byte behind `xs`.
module _ (xs r : Bytes) (c : ℕ) where
  clear_trailing-blank :
      is_blank c ≡ true
      → clear_trailing (suc (length xs)) (xs ++ (c ∷ r))
        ≡ clear_trailing (length xs) (xs ++ (0 ∷ r))
  unfolding clear_trailing
  clear_trailing-blank h = rw (get_or-append xs r c 0, h, set-append xs r c 0)

  clear_trailing-stop :
      is_blank c ≡ false → clear_trailing (suc (length xs)) (xs ++ (c ∷ r)) ≡ xs ++ (c ∷ r)
  unfolding clear_trailing
  clear_trailing-stop h = rw (get_or-append xs r c 0, h)

-- Blanks behind `xs` are cleared from the end on, and the loop goes on with what stands before.
clear_trailing-blanks :
    (xs trail rest : Bytes) (n : ℕ)
    → n ≡ length xs + length trail
    → All Blank trail
    → clear_trailing n (xs ++ (trail ++ rest))
      ≡ clear_trailing (length xs) (xs ++ (replicate (length trail) 0 ++ rest))
clear_trailing-blanks xs [] rest n e h = ap (λ k. clear_trailing k (xs ++ rest)) (omega arith)
clear_trailing-blanks xs (t ∷ trail) rest n e h =
    let ys = xs ++ (t ∷ []) in
    let size : length ys ≡ suc (length xs) = omega (arith, length-append {0} xs (t ∷ [])) in
    let later = clear_trailing-blanks ys trail rest n (omega (arith, size)) h.1 in
    let zeros : Bytes = replicate (length trail) 0 in
    ap (clear_trailing n) (sym (append_assoc xs (t ∷ []) (trail ++ rest)))
    ∙ later
    ∙ ap₂ clear_trailing size (append_assoc xs (t ∷ []) (zeros ++ rest))
    ∙ clear_trailing-blank xs (zeros ++ rest) t h.0.1

-- The second loop passes over blanks.
skip_leading-blanks :
    (done lead rest : Bytes) (n m len i : ℕ)
    → m ≡ length lead + n
    → i ≡ length done
    → All Blank lead
    → skip_leading m len i (done ++ (lead ++ rest))
      ≡ skip_leading n len (i + length lead) (done ++ (lead ++ rest))
skip_leading-blanks done [] rest n m len i e f h =
    ap₂ (λ k l. skip_leading k len l (done ++ rest)) (omega arith) (omega arith)
skip_leading-blanks done (t ∷ lead) rest n zero len i e f h = absurd (omega arith)
skip_leading-blanks done (t ∷ lead) rest n (suc m) len i e f h =
    let done' = done ++ (t ∷ []) in
    let back = append_assoc done (t ∷ []) (lead ++ rest) in
    let later =
      skip_leading-blanks done' lead rest n m len (i + 1) (omega arith)
        (omega (arith, length-append {0} done (t ∷ []))) h.1 in
    let here : get_or (done ++ (t ∷ (lead ++ rest))) i 0 ≡ t =
      rw f (get_or-append done (lead ++ rest) t 0) in
    let step : skip_leading (suc m) len i (done ++ (t ∷ (lead ++ rest)))
        ≡ skip_leading m len (i + 1) (done ++ (t ∷ (lead ++ rest))) =
      unfold skip_leading in rw (here, h.0.1) in
    step
    ∙ ap (skip_leading m len (i + 1)) (sym back)
    ∙ later
    ∙ ap₂ (λ k b. skip_leading n len k b) (omega arith) back

drop-lt : (n : ℕ) (xs : Bytes) → n < length xs → (y : ℕ) × (ys : Bytes) × (drop n xs ≡ y ∷ ys)
drop-lt n [] h = absurd (omega arith)
drop-lt zero (x ∷ xs) h = (x, xs, refl)
drop-lt (suc n) (x ∷ xs) h = drop-lt n xs (omega arith)

-- The move brings the part behind `lead`, with cleared bytes behind it, to the front.
cstr-move_down :
    (lead body rest : Bytes) (k len : ℕ)
    → len ≡ length lead + (length body + k)
    → All NonNul body
    → cstr (move_down len (length lead) (lead ++ (body ++ (replicate k 0 ++ (0 ∷ rest))))) ≡ body
unfolding move_down
cstr-move_down lead body rest k len e h =
    let zeros : Bytes = replicate k 0 in
    let tail = body ++ (zeros ++ (0 ∷ rest)) in
    let n = len - length lead in
    let size : length (body ++ zeros) ≡ n =
      omega (arith, length-append {0} body zeros, length-replicate {A = ℕ} k 0) in
    let front : take n (drop (length lead) (lead ++ tail)) ≡ body ++ zeros =
      ap (take n) (drop-append lead tail (length lead) refl)
      ∙ ap (take n) (sym (append_assoc body zeros (0 ∷ rest)))
      ∙ take-append (body ++ zeros) (0 ∷ rest) n (sym size) in
    let (y, ys, behind) = drop-lt n (lead ++ tail) (
      omega (
        arith,
        length-append {0} lead tail,
        length-append {0} body (zeros ++ (0 ∷ rest)),
        length-append {0} zeros (0 ∷ rest),
        length-replicate {A = ℕ} k 0,
      )) in
    let written : set ((body ++ zeros) ++ (y ∷ ys)) n 0 ≡ (body ++ zeros) ++ (0 ∷ ys) =
      rw (← size) (set-append (body ++ zeros) ys y 0) in
    rw (front, behind, written, append_assoc body zeros (0 ∷ ys), replicate-cons k 0 ys)
      (cstr-append_nul body (zeros ++ ys) h)

All-NonNul : (s : Bytes) → All Blank s → All NonNul s
All-NonNul [] h = tt
All-NonNul (c ∷ s) h = (h.0.0, All-NonNul s h.1)

-- The first loop clears the blanks behind `body`, and stops at its last byte.
cleared :
    (lead body trail rest front : Bytes) (last : ℕ)
    → body ≡ front ++ (last ∷ [])
    → is_blank last ≡ false
    → All Blank trail
    → (n : ℕ) → n ≡ length lead + (length body + length trail)
    → clear_trailing n (lead ++ (body ++ (trail ++ (0 ∷ rest))))
      ≡ lead ++ (body ++ (replicate (length trail) 0 ++ (0 ∷ rest)))
cleared lead body trail rest front last ends l behind n e =
    let xs = lead ++ body in
    let ys = lead ++ front in
    let after : Bytes = replicate (length trail) 0 ++ (0 ∷ rest) in
    let shape : xs ≡ ys ++ (last ∷ []) =
      ap (◌++◌ lead) ends ∙ sym (append_assoc lead front (last ∷ [])) in
    let split : xs ++ after ≡ ys ++ (last ∷ after) =
      ap (λ b. b ++ after) shape ∙ append_assoc ys (last ∷ []) after in
    let size : length xs ≡ suc (length ys) =
      ap length shape ∙ omega (arith, length-append {0} ys (last ∷ [])) in
    ap (clear_trailing n) (sym (append_assoc lead body (trail ++ (0 ∷ rest))))
    ∙ clear_trailing-blanks xs trail (0 ∷ rest) n (omega (arith, length-append {0} lead body))
        behind
    ∙ ap₂ clear_trailing size split
    ∙ clear_trailing-stop ys after last l
    ∙ sym split
    ∙ append_assoc lead body after

-- The second loop stops behind `lead`.
skipped :
    (lead back rest body : Bytes) (first : ℕ)
    → body ≡ first ∷ back
    → is_blank first ≡ false
    → All Blank lead
    → (n k : ℕ) → n ≡ length lead + (length body + k)
    → skip_leading n n 0 (lead ++ (body ++ rest))
      ≡ move_down n (length lead) (lead ++ (body ++ rest))
skipped lead back rest body first starts f before n k e =
    let m = length back + k in
    let size : length body ≡ suc (length back) = ap length starts in
    let here : get_or (lead ++ (body ++ rest)) (length lead) 0 ≡ first =
      ap (λ b. get_or (lead ++ (b ++ rest)) (length lead) 0) starts
      ∙ get_or-append lead (back ++ rest) first 0 in
    let stop : skip_leading (suc m) n (length lead) (lead ++ (body ++ rest))
        ≡ move_down n (length lead) (lead ++ (body ++ rest)) =
      unfold skip_leading in rw (here, f) in
    skip_leading-blanks [] lead (body ++ rest) (suc m) n n 0 (omega arith) refl before
    ∙ ap (λ i. skip_leading (suc m) n i (lead ++ (body ++ rest))) (omega arith)
    ∙ stop

-- `trim` on a string that is `body` between blanks, where `body` starts and ends with bytes that
-- are neither blank nor NUL, leaves `body`, whatever the buffer holds behind the string.
pub trim-cstr :
    (lead body trail rest front back : Bytes) (first last : ℕ)
    → body ≡ first ∷ back
    → body ≡ front ++ (last ∷ [])
    → is_blank first ≡ false
    → is_blank last ≡ false
    → All NonNul body
    → All Blank lead
    → All Blank trail
    → cstr (trim (lead ++ (body ++ (trail ++ (0 ∷ rest))))) ≡ body
unfolding trim
trim-cstr lead body trail rest front back first last starts ends f l inner before behind =
    let buf = lead ++ (body ++ (trail ++ (0 ∷ rest))) in
    let text = lead ++ (body ++ trail) in
    let n = length lead + (length body + length trail) in
    let size : length text ≡ n =
      omega (arith, length-append {0} lead (body ++ trail), length-append {0} body trail) in
    let shape : text ++ (0 ∷ rest) ≡ buf =
      append_assoc lead (body ++ trail) (0 ∷ rest)
      ∙ ap (◌++◌ lead) (append_assoc body trail (0 ∷ rest)) in
    let all : All NonNul text =
      All-append NonNul lead (body ++ trail) (All-NonNul lead before)
        (All-append NonNul body trail inner (All-NonNul trail behind)) in
    let whole : length (cstr buf) ≡ n =
      ap (λ b. length (cstr b)) (sym shape) ∙ ap length (cstr-append_nul text rest all) ∙ size in
    let zeros : Bytes = replicate (length trail) 0 in
    let out = lead ++ (body ++ (zeros ++ (0 ∷ rest))) in
    rw
      (
        whole,
        cleared lead body trail rest front last ends l behind n refl,
        skipped lead back (zeros ++ (0 ∷ rest)) body first starts f before n (length trail) refl,
      )
      (cstr-move_down lead body rest (length trail) n refl inner)
