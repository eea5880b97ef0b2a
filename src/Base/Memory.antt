-- ===== src/Base/Memory.antt =====
-- Buffers of bytes, and the functions of string.h that move bytes. `none` is an access out of bounds.
use Prim.Native.Nat.{ℕ, ◌+◌, ◌≤◌}
use mathlib.Core.Path.{◌≡◌, refl, sym, ap, ap₂, ◌∙◌}
use mathlib.Core.Bool.{◌||◌}
use mathlib.Core.List.{List, ◌++◌, append_assoc}
use mathlib.Core.Option.{Option, none, some}
use native.Mathlib.Omega.{arith}
use hawkeye.Base.Tests.{ltb, if◌then◌else◌}
use hawkeye.Base.Lists.{
  length, take, drop, replicate, take-append, drop-append, drop-drop, length-append,
}

abbrev pub Bytes : Type 0
Bytes = List ℕ

infixl 5 ◌>>=◌
abbrev pub ◌>>=◌ {ℓ κ} : {A : Type ℓ} {B : Type κ} → Option A → (A → Option B) → Option B
none >>= f = none
some a >>= f = f a

pub bind_assoc {ℓ κ μ} :
    {A : Type ℓ} {B : Type κ} {C : Type μ} (m : Option A) (f : A → Option B) (g : B → Option C)
    → (m >>= λ a. f a >>= g) ≡ (m >>= f >>= g)
bind_assoc none f g = refl
bind_assoc (some a) f g = refl

-- memcpy(&dst[off], &src[from], n)
unfoldable pub memcpy : Bytes → ℕ → Bytes → ℕ → ℕ → Option Bytes
memcpy dst off src from n =
    if ltb (length dst) (off + n) || ltb (length src) (from + n)
    then none
    else some (take off dst ++ (take n (drop from src) ++ drop (off + n) dst))

-- memset(&dst[off], c, n)
unfoldable pub memset : Bytes → ℕ → ℕ → ℕ → Option Bytes
memset dst off c n =
    if ltb (length dst) (off + n)
    then none
    else some (take off dst ++ (replicate n c ++ drop (off + n) dst))

pub memcpy-eq :
    (dst src : Bytes) (off from n : ℕ)
    → off + n ≤ length dst
    → from + n ≤ length src
    → memcpy dst off src from n
      ≡ some (take off dst ++ (take n (drop from src) ++ drop (off + n) dst))
unfolding memcpy
memcpy-eq dst src off from n h k = ground arith

pub memset-eq :
    (dst : Bytes) (off c n : ℕ)
    → off + n ≤ length dst
    → memset dst off c n ≡ some (take off dst ++ (replicate n c ++ drop (off + n) dst))
unfolding memset
memset-eq dst off c n h = ground arith

drop-append_add : (xs ys : Bytes) (k n : ℕ) → k ≡ length xs + n → drop k (xs ++ ys) ≡ drop n ys
drop-append_add xs ys k n e =
    sym (drop-drop n (length xs) k (xs ++ ys) (omega arith))
    ∙ ap (drop n) (drop-append xs ys (length xs) refl)

-- The same writes at the end of the first part of a buffer.
module _ (done rest : Bytes) (off : ℕ) (at_end : off ≡ length done) (n : ℕ)
    (room : n ≤ length rest) where
  pub memcpy-append :
      (src : Bytes) (from : ℕ)
      → from + n ≤ length src
      → memcpy (done ++ rest) off src from n
        ≡ some (done ++ (take n (drop from src) ++ drop n rest))
  memcpy-append src from h =
      memcpy-eq (done ++ rest) src off from n (omega (arith, length-append {0} done rest)) h
      ∙ ap₂ (λ a b. some (a ++ (take n (drop from src) ++ b))) (take-append done rest off at_end)
          (drop-append_add done rest (off + n) n (omega arith))

  pub memset-append :
      (c : ℕ) → memset (done ++ rest) off c n ≡ some (done ++ (replicate n c ++ drop n rest))
  memset-append c =
      memset-eq (done ++ rest) off c n (omega (arith, length-append {0} done rest))
      ∙ ap₂ (λ a b. some (a ++ (replicate n c ++ b))) (take-append done rest off at_end)
          (drop-append_add done rest (off + n) n (omega arith))

-- memset behind two parts.
pub memset-append_two :
    (a b c : Bytes) (off n v : ℕ)
    → off ≡ length a + length b
    → n ≤ length c
    → memset (a ++ (b ++ c)) off v n ≡ some (a ++ (b ++ (replicate n v ++ drop n c)))
memset-append_two a b c off n v e room =
    ap (λ x. memset x off v n) (sym (append_assoc a b c))
    ∙ memset-append (a ++ b) c off (omega (arith, length-append {0} a b)) n room v
    ∙ ap some (append_assoc a b (replicate n v ++ drop n c))
