-- ===== src/Report/Fitting.antt =====
-- How much of a list of texts the report holds, and when it runs over its buffer.
use hawkeye.Base.{
  ℕ, ◌+◌, ◌-◌, ◌*◌, ◌≤◌, ◌<◌, ◌≡◌, refl, sym, ap, ◌∙◌, false, Bool-cases, inl, inr, Option, none,
  some, List, [], ◌∷◌, ◌++◌, append_assoc, append-nil, arith, Bytes, ◌>>=◌, length, length-append,
  take, take_all, ltb, ltb→lt, ltb→le, if◌then◌else◌, All,
}
use hawkeye.Base.Print.{print_int, snprintf, length-print_int}
use hawkeye.Report.Loop.{strcat, comma_separated, append_texts, end_report, report}

abbrev pub joined : List Bytes → Bytes
joined [] = []
joined (t ∷ ts) = t ++ joined ts

-- snprintf does not cut the text short.
abbrev pub IsShort : Bytes → Type 0
IsShort text = length text ≤ 127

-- The texts in front of the first that has no room behind those before it.
abbrev pub fitting : ℕ → List Bytes → List Bytes
fitting room [] = []
fitting room (t ∷ ts) = if ltb room (length t) then [] else t ∷ fitting (room - length t) ts

-- The text with its line-feed, when two bytes are left for that and the NUL.
abbrev pub finished : ℕ → Bytes → Option Bytes
finished size body = if ltb (length body + 1) size then some (body ++ (10 ∷ [])) else none

finished_full : (size : ℕ) (body : Bytes) → size ≤ length body → finished size body ≡ none
finished_full size body h = ground (arith, h)

end_report-finished :
    (size : ℕ) (front : Bytes)
    → length front < size
    → end_report size (record { buffer = front; remaining = size - length front })
      ≡ finished size front
unfolding end_report strcat
end_report-finished size front h = ground (arith, h)

append_texts-finished :
    (size : ℕ) (texts : List Bytes) (front : Bytes)
    → length front < size
    → All IsShort texts
    → (append_texts size texts (record { buffer = front; remaining = size - length front })
        >>= end_report size)
      ≡ finished size (front ++ joined (fitting (size - length front) texts))
unfolding append_texts strcat snprintf
append_texts-finished size [] front h short =
    end_report-finished size front h ∙ ap (finished size) (sym (append-nil front))
append_texts-finished size (t ∷ ts) front h short =
    let room = size - length front in
    let both : length (front ++ t) ≡ length front + length t = length-append front t in
    let whole : take (128 - 1) t ≡ t = take_all (128 - 1) t (omega (arith, short.0)) in
    elim (Bool-cases (ltb room (length t))) [
      | inl out ↦
          rw (out) (end_report-finished size front h ∙ ap (finished size) (sym (append-nil front)))
      | inr fits ↦ elim (Bool-cases (ltb (length front + length t) size)) [
        | inl inside ↦
            let ih =
              append_texts-finished size ts (front ++ t)
                (omega (arith, both, ltb→lt (length front + length t) size inside)) short.1 in
            let left : size - length (front ++ t) ≡ room - length t = omega (arith, both) in
            rw (whole, fits, inside)
              (ap
                  (λ r.
                    append_texts size ts (record { buffer = front ++ t; remaining = r })
                    >>= end_report size)
                  (sym left)
                ∙ ih
                ∙ ap (finished size)
                    (append_assoc front t (joined (fitting (size - length (front ++ t)) ts)))
                ∙ ap (λ r. finished size (front ++ (t ++ joined (fitting r ts)))) left)
        | inr over ↦
            rw (whole, fits, over)
              (sym (
                finished_full size (front ++ (t ++ joined (fitting (room - length t) ts))) (
                  omega (
                    arith,
                    ltb→le (length front + length t) size over,
                    length-append {0} front (t ++ joined (fitting (room - length t) ts)),
                    length-append {0} t (joined (fitting (room - length t) ts)),
                  ))))
      ]
    ]

pub report-finished :
    (size n : ℕ) (texts : List Bytes)
    → 12 ≤ size
    → All IsShort texts
    → report size n texts
      ≡ finished size (print_int n ++ joined (fitting (size - length (print_int n)) texts))
unfolding report snprintf
report-finished size n texts h short =
    let head = print_int n in
    rw (take_all (size - 1) head (omega (arith, h, length-print_int n)))
      (append_texts-finished size texts head (omega (arith, h, length-print_int n)) short)

pub length-comma_separated : (vs : List ℕ) → length (comma_separated vs) ≤ 12 * length vs
unfolding comma_separated
length-comma_separated [] = omega arith
length-comma_separated (v ∷ vs) = omega (
  arith,
  length-append {0} (print_int v) (comma_separated vs),
  length-print_int v,
  length-comma_separated vs,
)

-- Texts that fit together are all taken.
pub fitting_all : (room : ℕ) (ts : List Bytes) → length (joined ts) ≤ room → fitting room ts ≡ ts
fitting_all room [] h = refl
fitting_all room (t ∷ ts) h =
    let sum = length-append {0} t (joined ts) in
    let no_end : ltb room (length t) ≡ false = ground (arith, h, sum) in
    rw no_end (ap (◌∷◌ t) (fitting_all (room - length t) ts (omega (arith, h, sum))))
