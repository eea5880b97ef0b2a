-- ===== src/Config/FileLines.antt =====
-- Lines of a configuration file that set an option, and what a file of such lines does.
use hawkeye.Base.{
  ℕ, suc, ◌+◌, ◌≡◌, ◌≢◌, refl, sym, ap, ◌∙◌, true, false, ◌||◌, none, some, List, [], ◌∷◌, ◌++◌,
  map, append_assoc, append-nil, arith, Bytes, drop, length, ◌==◌, if◌then◌else◌, All, All-append,
  Bool-cases, inl, inr,
}
use hawkeye.Base.Text.{cstr}
use hawkeye.Utils.Trim.{is_blank, trim}
use hawkeye.Utils.Trimmed.{NonNul, Blank, cstr-append_nul, trim-cstr}
use hawkeye.Config.Items.{
  ConfigItem, Store, Result, done, panics, ◌then_do◌, get_key_by_name, find_item, set_found,
  process_option,
}
use hawkeye.Config.CommandLine.{Found, process_options}
use hawkeye.Config.File.{
  cut_comment, Names, is_separator, find_value, find_name_end, find_name, read_line, set_named,
  read_lines, read_config_file,
}

-- The bytes of a line in front of its comment, of a name, and between name and value.
abbrev pub Plain : ℕ → Type 0
Plain c = (c ≢ 0) × (c ≢ b'#')

abbrev pub InName : ℕ → Type 0
InName c = Plain c × (is_separator c ≡ false)

abbrev pub Separates : ℕ → Type 0
Separates c = Plain c × (is_separator c ≡ true)

abbrev pub IsComment : Bytes → Type 0
IsComment [] = Unit
IsComment (c ∷ cs) = c ≡ b'#'

-- A line: the name is `initial ∷ name`, the value starts with `first` and ends with `last`.
pub record Setting : Type 0 where
  pub lead : Bytes
  pub initial : ℕ
  pub name : Bytes
  pub equals : ℕ
  pub separator : Bytes
  pub value : Bytes
  pub trail : Bytes
  pub comment : Bytes
  pub behind : Bytes

abbrev pub text_of : Setting → Bytes
text_of s = s.lead ++ ((s.initial ∷ s.name) ++ ((s.equals ∷ s.separator) ++ (s.value ++ s.trail)))

abbrev pub buffer_of : Setting → Bytes
buffer_of s = (text_of s ++ s.comment) ++ (0 ∷ s.behind)

-- A value that does not start with a separator nor end with a blank.
pub data IsValue : Bytes → Type 0 where
  is_value :
      (value : Bytes) (first last : ℕ) (front back : Bytes)
      → value ≡ first ∷ back
      → value ≡ front ++ (last ∷ [])
      → is_separator first ≡ false
      → is_blank last ≡ false
      → IsValue value

pub record IsSetting (s : Setting) : Type 0 where
  pub before : All Blank s.lead
  pub named : InName s.initial × All InName s.name
  pub separated : Separates s.equals × All Separates s.separator
  pub valued : IsValue s.value
  pub plain : All Plain s.value
  pub after : All Blank s.trail
  pub commented : IsComment s.comment
  pub whole : All NonNul s.comment

All-imp : (P Q : ℕ → Type 0) → ((c : ℕ) → P c → Q c) → (cs : Bytes) → All P cs → All Q cs
All-imp P Q f [] h = tt
All-imp P Q f (c ∷ cs) h = (f c h.0, All-imp P Q f cs h.1)

Blank-Plain : (c : ℕ) → Blank c → Plain c
unfolding is_blank
Blank-Plain c h = (h.0, λ e. ground (arith, e, h.1))

text_of-Plain : (s : Setting) → IsSetting s → All Plain (text_of s)
text_of-Plain s h = All-append Plain s.lead _ (All-imp Blank Plain Blank-Plain s.lead h.before) (
    All-append Plain (s.initial ∷ s.name) _
      (h.named.0.0, All-imp InName Plain (λ c p. p.0) s.name h.named.1)
      (All-append Plain (s.equals ∷ s.separator) _
        (h.separated.0.0, All-imp Separates Plain (λ c p. p.0) s.separator h.separated.1)
        (All-append Plain s.value s.trail h.plain
          (All-imp Blank Plain Blank-Plain s.trail h.after))))

cut_comment-append :
    (text comment : Bytes)
    → All Plain text
    → IsComment comment
    → cut_comment (text ++ comment) ≡ text
unfolding cut_comment
cut_comment-append [] [] h k = refl
cut_comment-append [] (c ∷ cs) h k = ground (arith, k)
cut_comment-append (c ∷ text) comment h k =
    let other : (c == b'#') ≡ false = ground (arith, h.0.1) in
    rw other (ap (◌∷◌ c) (cut_comment-append text comment h.1 k))

find_value-separators :
    (name behind sep rest : Bytes)
    → All Separates sep
    → find_value name behind (sep ++ rest) ≡ find_value name behind rest
unfolding find_value
find_value-separators name behind [] rest h = refl
find_value-separators name behind (c ∷ sep) rest h =
    rw h.0.1 (find_value-separators name behind sep rest h.1)

find_name_end-name :
    (front behind name : Bytes) (equals : ℕ) (rest : Bytes)
    → All InName name
    → Separates equals
    → find_name_end front behind (name ++ (equals ∷ rest)) ≡ find_value (front ++ name) behind rest
unfolding find_name_end
find_name_end-name front behind [] equals rest h k =
    rw k.1 (ap (λ n. find_value n behind rest) (sym (append-nil front)))
find_name_end-name front behind (c ∷ name) equals rest h k = rw h.0.1 (
    find_name_end-name (front ++ (c ∷ [])) behind name equals rest h.1 k
    ∙ ap (λ n. find_value n behind rest) (append_assoc front (c ∷ []) name))

find_name-lead :
    (behind lead rest : Bytes)
    → All Blank lead
    → find_name behind (lead ++ rest) ≡ find_name behind rest
unfolding find_name
find_name-lead behind [] rest h = refl
find_name-lead behind (c ∷ lead) rest h = rw h.0.1 (find_name-lead behind lead rest h.1)

not_blank : (c : ℕ) → is_separator c ≡ false → is_blank c ≡ false
unfolding is_separator
not_blank c h = ground (arith, h)

head_of : (c d : ℕ) (cs ds : Bytes) → c ∷ cs ≡ d ∷ ds → d ≡ c
head_of c d cs ds e = cc

find_value-value :
    (name value trail rest : Bytes)
    → IsValue value
    → All Plain value
    → All Blank trail
    → find_value name (0 ∷ rest) (value ++ trail) ≡ record { name = some name; value = some value }
unfolding find_value
find_value-value name [] trail rest (is_value _ first last front back starts ends f l) plain after =
    absurd (cc (starts))
find_value-value name (c ∷ cs) trail rest (is_value _ first last front back starts ends f l) plain
      after =
    let value = c ∷ cs in
    let begins : is_separator c ≡ false =
      ap is_separator (sym (head_of c first cs back starts)) ∙ f in
    let result : Bytes → Names = λ (v : Bytes). record { name = some name; value = some v } in
    rw begins (
      ap (λ b. result (cstr (trim b))) (append_assoc value trail (0 ∷ rest))
      ∙ ap result (
          trim-cstr [] value trail rest front back first last starts ends (not_blank first f) l
            (All-imp Plain NonNul (λ c p. p.0) value plain) tt after))

length-value : (value : Bytes) → IsValue value → length value ≢ 0
length-value [] (is_value _ first last front back starts ends f l) = absurd (cc (starts))
length-value (c ∷ cs) v = omega arith

find_name-text :
    (s : Setting) (rest : Bytes)
    → IsSetting s
    → find_name (0 ∷ rest) (text_of s)
      ≡ record { name = some (s.initial ∷ s.name); value = some s.value }
unfolding find_name
find_name-text s rest h =
    find_name-lead (0 ∷ rest) s.lead _ h.before
    ∙ rw (not_blank s.initial h.named.0.1) (
        find_name_end-name (s.initial ∷ []) (0 ∷ rest) s.name s.equals _ h.named.1 h.separated.0
        ∙ find_value-separators (s.initial ∷ s.name) (0 ∷ rest) s.separator _ h.separated.1
        ∙ find_value-value (s.initial ∷ s.name) s.value s.trail rest h.valued h.plain h.after)

read_line-setting :
    (s : Setting)
    → IsSetting s
    → read_line (buffer_of s) ≡ record { name = some (s.initial ∷ s.name); value = some s.value }
unfolding read_line
read_line-setting s h =
    let text = text_of s in
    let plain = text_of-Plain s h in
    let string : cstr (buffer_of s) ≡ text ++ s.comment =
      cstr-append_nul (text ++ s.comment) s.behind
        (All-append NonNul text s.comment (All-imp Plain NonNul (λ c p. p.0) text plain) h.whole) in
    let line : cut_comment (cstr (buffer_of s)) ≡ text =
      ap cut_comment string ∙ cut_comment-append text s.comment plain h.commented in
    ap (λ l. find_name (0 ∷ drop (length l + 1) (buffer_of s)) l) line
    ∙ find_name-text s (drop (length text + 1) (buffer_of s)) h

module _ (atoi : Bytes → ℕ) (con : List ConfigItem)
    (keyed : All (λ (c : ConfigItem). c.short_name ≢ 0) con) where
  -- The key 0, which stands for an unknown name, is that of no item.
  no_item :
      (con : List ConfigItem)
      → All (λ (c : ConfigItem). c.short_name ≢ 0) con
      → find_item atoi con 0 ≡ none
  unfolding find_item
  no_item [] h = refl
  no_item (c ∷ con) h =
      let other : (c.short_name == 0) ≡ false = ground (arith, h.0) in rw other (no_item con h.1)

  -- The option that a line sets, as getopt_long would find it.
  abbrev pub option_of : Setting → Found
  option_of s = record {
    short_name = get_key_by_name con (s.initial ∷ s.name);
    optarg = some s.value;
  }

  set_named-option :
      (s : Setting) (t : Store)
      → IsSetting s
      → set_named atoi con (some (s.initial ∷ s.name)) (some s.value) t
        ≡ process_option atoi con (option_of s).short_name (some s.value) t
  unfolding set_named process_option set_found
  set_named-option s t h =
      named (length s.value) (get_key_by_name con (s.initial ∷ s.name))
        (process_option atoi con (get_key_by_name con (s.initial ∷ s.name)) (some s.value) t)
        (length-value s.value h.valued)
        (λ e.
          ap (λ k. set_found atoi (find_item atoi con k) (some s.value) t) e
          ∙ rw (no_item con keyed) refl)
    where
      named :
          (size key : ℕ) (p : Result Store)
          → size ≢ 0
          → (key ≡ 0 → p ≡ panics)
          → (if suc (length s.name) == 0 || size == 0
              then done t
              else if key == 0
              then panics
              else p)
            ≡ p
      named size key p some_value unknown =
          let full : (suc (length s.name) == 0 || size == 0) ≡ false = ground (arith, some_value) in
          elim (Bool-cases (key == 0)) [
            | inl e ↦ rw (full, e) (sym (unknown (ground (arith, e))))
            | inr e ↦ rw (full, e)
          ]

  read_lines-options :
      (ss : List Setting) (t : Store)
      → All IsSetting ss
      → read_lines atoi con (map buffer_of ss) t ≡ process_options atoi con (map option_of ss) t
  unfolding read_lines process_options
  read_lines-options [] t h = refl
  read_lines-options (s ∷ ss) t h =
      ap
        (λ (n : Names).
          set_named atoi con n.name n.value t then_do read_lines atoi con (map buffer_of ss))
        (read_line-setting s h.0)
      ∙ ap (λ r. r then_do read_lines atoi con (map buffer_of ss)) (set_named-option s t h.0)
      ∙ ap (λ f. process_option atoi con (option_of s).short_name (some s.value) t then_do f)
          (λ i u. read_lines-options ss u h.1 i)

  -- For a table in which no option has the key 0, and lines that set an option each, with blanks
  -- around and blanks or = between, and a comment behind or not, `read_config_file` does what the
  -- command line does with the same options and values: what it sets, and where it ends the
  -- program.
  pub read_config_file-options :
      (ss : List Setting) (t : Store)
      → All IsSetting ss
      → read_config_file atoi con (some (map buffer_of ss)) t
        ≡ process_options atoi con (map option_of ss) t
  unfolding read_config_file
  read_config_file-options = read_lines-options
