-- ===== src/Jpeg/Output.antt =====
-- The output memory holds exactly what libjpeg put into the buffer.
use hawkeye.Base.{
  ℕ, ◌+◌, ◌-◌, ◌≤◌, ◌≡◌, refl, sym, ap, ◌∙◌, some, List, [], ◌∷◌, ◌++◌, append_assoc, arith, Bytes,
  length, length-append, length-take, take, drop, drop-drop, take_all, subst, length-drop, memcpy,
  memcpy-append, All,
}
use hawkeye.Jpeg.Destination.{
  output_buf_size, Destination, init_destination, dest_buffer, empty_output_buffer,
  term_destination, filled, calls,
}

abbrev pub concat : List Bytes → Bytes
concat [] = []
concat (x ∷ xs) = x ++ concat xs

abbrev pub IsFull : Bytes → Type 0
IsFull b = length b ≡ output_buf_size

-- `bytes` arrived at the start of the memory `out`, and are counted.
abbrev pub Delivered : Bytes → Bytes → Destination → Type 0
Delivered bytes out d =
    (d.outbuffer ≡ bytes ++ drop (length bytes) out)
    × (d.cursor ≡ length bytes)
    × (d.written ≡ length bytes)

-- One copy behind what arrived before.
module _ (out bytes : Bytes) (d : Destination) (so_far : Delivered bytes out d) (src : Bytes)
    (n : ℕ) (enough : n ≤ length src) (room : length bytes + n ≤ length out) where
  memcpy-Delivered :
      memcpy d.outbuffer d.cursor src 0 n
      ≡ some ((bytes ++ take n src) ++ drop (length (bytes ++ take n src)) out)
  memcpy-Delivered =
      let rest = drop (length bytes) out in
      let size : length (bytes ++ take n src) ≡ n + length bytes =
        omega (arith, length-append bytes (take n src), length-take n src, enough) in
      ap (λ b. memcpy b d.cursor src 0 n) so_far.0
      ∙ memcpy-append bytes rest d.cursor so_far.1 n
          (omega (arith, length-drop (length bytes) out, room)) src 0 (omega (arith, enough))
      ∙ ap (λ b. some (bytes ++ (take n src ++ b)))
          (drop-drop n (length bytes) (length (bytes ++ take n src)) out (sym size))
      ∙ ap some (sym (append_assoc bytes (take n src) (drop (length (bytes ++ take n src)) out)))

calls-Delivered :
    (full : List Bytes) (last out bytes : Bytes) (free : ℕ) (d : Destination)
    → Delivered bytes out d
    → All IsFull full
    → IsFull last
    → length bytes + (length (concat full) + (output_buf_size - free)) ≤ length out
    → (end : Destination) × (calls full last free d ≡ some end)
      × Delivered (bytes ++ (concat full ++ take (output_buf_size - free) last)) out end
unfolding calls term_destination empty_output_buffer filled
calls-Delivered [] last out bytes free d so_far f l room =
    let n = output_buf_size - free in
    let size : length (bytes ++ take n last) ≡ length bytes + n =
      omega (arith, length-append bytes (take n last), length-take n last, l) in
    let end : Destination = record {
      next_output = n;
      free_in_buffer = free;
      buffer = last;
      outbuffer = (bytes ++ take n last) ++ drop (length (bytes ++ take n last)) out;
      cursor = d.cursor + n;
      written = d.written + n;
    } in
    (
      end,
      rw (memcpy-Delivered out bytes d so_far last n (omega (arith, l)) (omega (arith, room))) refl,
      (refl, omega (arith, size, so_far.1), omega (arith, size, so_far.2)),
    )
calls-Delivered (b ∷ full) last out bytes free d so_far f l room =
    let size : length (bytes ++ b) ≡ length bytes + output_buf_size =
      omega (arith, length-append bytes b, f.0) in
    let whole : take output_buf_size b ≡ b = take_all output_buf_size b (omega (arith, f.0)) in
    let d' : Destination = record {
      next_output = 0;
      free_in_buffer = output_buf_size;
      buffer = b;
      outbuffer = (bytes ++ b) ++ drop (length (bytes ++ b)) out;
      cursor = d.cursor + output_buf_size;
      written = d.written + output_buf_size;
    } in
    let copied : memcpy d.outbuffer d.cursor b 0 output_buf_size ≡ some d'.outbuffer =
      memcpy-Delivered out bytes d so_far b output_buf_size (omega (arith, f.0))
        (omega (arith, room, length-append b (concat full), f.0))
      ∙ ap (λ t. some ((bytes ++ t) ++ drop (length (bytes ++ t)) out)) whole in
    let (end, runs, arrived) =
      calls-Delivered full last out (bytes ++ b) free d'
        (refl, omega (arith, size, so_far.1), omega (arith, size, so_far.2)) f.1 l
        (omega (arith, room, size, length-append b (concat full), f.0)) in
    let shape : (bytes ++ b) ++ (concat full ++ take (output_buf_size - free) last)
        ≡ bytes ++ ((b ++ concat full) ++ take (output_buf_size - free) last) =
      append_assoc bytes b (concat full ++ take (output_buf_size - free) last)
      ∙ ap (◌++◌ bytes) (sym (append_assoc b (concat full) (take (output_buf_size - free) last))) in
    (end, rw copied runs, subst (λ t. Delivered t out end) shape arrived)

-- After `dest_buffer` and `init_destination`, any number of calls of `empty_output_buffer` with full buffers
-- and a call of `term_destination`, the output memory begins with the contents of these buffers in order
-- and the used part of the last one, the rest of it is as before, and *written is their number
-- of bytes, when that many fit the memory.
pub calls-init_destination :
    (full : List Bytes) (last fresh out : Bytes) (free : ℕ) (before : Destination)
    → All IsFull full
    → IsFull last
    → length (concat full) + (output_buf_size - free) ≤ length out
    → (end : Destination) × (calls full last free (init_destination fresh (dest_buffer out before))
        ≡ some end)
      × Delivered (concat full ++ take (output_buf_size - free) last) out end
unfolding init_destination dest_buffer
calls-init_destination full last fresh out free before f l room =
    calls-Delivered full last out [] free (init_destination fresh (dest_buffer out before))
      (refl, refl, refl) f l (omega (arith, room))
