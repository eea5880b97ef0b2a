-- ===== src/Jpeg/Groups.antt =====
-- The conversion of YUYV pixels, by groups of four bytes for two pixels.
use hawkeye.Base.{
  ℕ, zero, suc, ◌*◌, ◌≤◌, ◌≡◌, refl, sym, ap, ap₂, ◌∙◌, false, some, [], ◌∷◌, ◌++◌, append_assoc,
  append-nil, arith, Bytes, length, take, drop,
}
use hawkeye.Jpeg.Pixels.{
  red, green, blue, Pixels, add_pixel, Position, convert_pixel, convert_pixels,
}

-- The two bytes of luminance in each group share its chroma.
abbrev pub rgb_of : Bytes → Bytes
rgb_of (a ∷ u ∷ c ∷ v ∷ rest) =
    red a v ∷ green a u v ∷ blue a u ∷ red c v ∷ green c u v ∷ blue c u ∷ rgb_of rest
rgb_of _ = []

abbrev pub gray_of : Bytes → Bytes
gray_of (a ∷ u ∷ c ∷ v ∷ rest) = a ∷ c ∷ gray_of rest
gray_of _ = []

convert_pixels-two :
    (n a b c d : ℕ) (rest : Bytes) (out : Pixels)
    → convert_pixels (suc (suc n)) (record { z = false; src = a ∷ b ∷ c ∷ d ∷ rest; pixels = out })
      ≡ convert_pixels n
          (record { z = false; src = rest; pixels = add_pixel c b d (add_pixel a b d out) })
unfolding convert_pixels convert_pixel
convert_pixels-two n a b c d rest out = refl

-- The state after `bytes` of the source, from `out` on.
abbrev pub converted : Bytes → Bytes → Pixels → Position
converted bytes rest out = record {
  z = false;
  src = rest;
  pixels = record { rgb = out.rgb ++ rgb_of bytes; gray = out.gray ++ gray_of bytes };
}

converted-two :
    (a b c d : ℕ) (bytes rest : Bytes) (out : Pixels)
    → converted bytes rest (add_pixel c b d (add_pixel a b d out))
      ≡ converted (a ∷ b ∷ c ∷ d ∷ bytes) rest out
unfolding add_pixel
converted-two a b c d bytes rest out =
    let first : Bytes = red a d ∷ green a b d ∷ blue a b ∷ [] in
    let second : Bytes = red c d ∷ green c b d ∷ blue c b ∷ [] in
    ap₂ (λ (p q : Bytes). record { z = false; src = rest; pixels = record { rgb = p; gray = q } })
      (append_assoc (out.rgb ++ first) second (rgb_of bytes)
        ∙ append_assoc out.rgb first (second ++ rgb_of bytes))
      (append_assoc (out.gray ++ (a ∷ [])) (c ∷ []) (gray_of bytes)
        ∙ append_assoc out.gray (a ∷ []) (c ∷ gray_of bytes))

-- Converting two pixels for each group of four bytes, over any number of lines, succeeds when the
-- source has the groups, reads exactly these, and appends for each the colours of its two pixels,
-- which share its chroma, and their two luminances.
pub convert_pixels-groups :
    (m : ℕ) (src : Bytes) (out : Pixels)
    → 4 * m ≤ length src
    → convert_pixels (2 * m) (record { z = false; src = src; pixels = out })
      ≡ some (converted (take (4 * m) src) (drop (4 * m) src) out)
unfolding convert_pixels
convert_pixels-groups zero src out h =
    ap₂
      (λ (p q : Bytes).
        some (record { z = false; src = src; pixels = record { rgb = p; gray = q } }))
      (sym (append-nil out.rgb)) (sym (append-nil out.gray))
convert_pixels-groups (suc m) (a ∷ b ∷ c ∷ d ∷ rest) out h =
    let src = a ∷ b ∷ c ∷ d ∷ rest in
    let twice : 2 * suc m ≡ suc (suc (2 * m)) = omega arith in
    let four : suc (suc (suc (suc (4 * m)))) ≡ 4 * suc m = omega arith in
    ap (λ n. convert_pixels n (record { z = false; src = src; pixels = out })) twice
    ∙ convert_pixels-two (2 * m) a b c d rest out
    ∙ convert_pixels-groups m rest (add_pixel c b d (add_pixel a b d out)) (omega arith)
    ∙ ap some (converted-two a b c d (take (4 * m) rest) (drop (4 * m) rest) out)
    ∙ ap (λ k. some (converted (take k src) (drop k src) out)) four
convert_pixels-groups (suc m) [] out h = absurd (omega arith)
convert_pixels-groups (suc m) (a ∷ []) out h = absurd (omega arith)
convert_pixels-groups (suc m) (a ∷ b ∷ []) out h = absurd (omega arith)
convert_pixels-groups (suc m) (a ∷ b ∷ c ∷ []) out h = absurd (omega arith)
