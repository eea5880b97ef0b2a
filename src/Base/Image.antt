-- ===== src/Base/Image.antt =====
-- Writes of single pixels to an image, and what it means for such writes to stay inside it.
use Prim.Native.Nat.{ℕ, ◌<◌}
use mathlib.Core.Path.{◌≡◌, ◌∙◌}
use mathlib.Core.Option.{Option, none, some}
use native.Mathlib.Omega.{arith}
use hawkeye.Base.Tests.{ltb, if-intro, if◌then◌else◌}
use hawkeye.Base.Lists.{length, set, length-set}
use hawkeye.Base.Memory.{Bytes, ◌>>=◌}

-- p_pix[i] = c, or a write out of bounds.
unfoldable pub put : Bytes → ℕ → ℕ → Option Bytes
put pix i c = if ltb i (length pix) then some (set pix i c) else none

-- All writes were inside the image, whose size is unchanged.
abbrev pub Drawn : Bytes → Option Bytes → Type 0
Drawn pix none = ⊥
Drawn pix (some out) = length out ≡ length pix

-- Steps that draw can be chained.
pub Drawn-bind :
    (pix : Bytes) (m : Option Bytes) (f : Bytes → Option Bytes)
    → Drawn pix m
    → ((p : Bytes) → length p ≡ length pix → Drawn pix (f p))
    → Drawn pix (m >>= f)
Drawn-bind pix none f h k = h
Drawn-bind pix (some p) f h k = k p h

pub Drawn-shift :
    (p pix : Bytes) (m : Option Bytes) → length p ≡ length pix → Drawn p m → Drawn pix m
Drawn-shift p pix none e h = h
Drawn-shift p pix (some q) e h = h ∙ e

pub put-Drawn :
    (pix p : Bytes) (i c : ℕ) → length p ≡ length pix → i < length pix → Drawn pix (put p i c)
unfolding put
put-Drawn pix p i c e lt =
    if-intro (Drawn pix) (ltb i (length p)) (λ _. length-set p i c ∙ e) (λ out. ground arith)
