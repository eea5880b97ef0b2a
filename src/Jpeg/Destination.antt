-- ===== src/Jpeg/Destination.antt =====
-- src/image_utils.c: the destination manager, which libjpeg calls. What libjpeg leaves in the buffer
-- and in free_in_buffer before each of its calls is an argument here.
use hawkeye.Base.{ℕ, ◌+◌, ◌-◌, Option, some, List, [], ◌∷◌, Bytes, memcpy, ◌>>=◌}

-- OUTPUT_BUF_SIZE
abbrev pub output_buf_size : ℕ
output_buf_size = 4096

-- mjpg_destination_mgr: the distance of next_output_byte from the buffer, free_in_buffer, the buffer, the
-- output memory with the distance of outbuffer_cursor from its start, and *written.
pub record Destination : Type 0 where
  pub next_output : ℕ
  pub free_in_buffer : ℕ
  pub buffer : Bytes
  pub outbuffer : Bytes
  pub cursor : ℕ
  pub written : ℕ

-- `dest_buffer`: the output memory, from its start on. The callbacks are those below.
unfoldable pub dest_buffer : Bytes → Destination → Destination
dest_buffer outbuffer d = record d { outbuffer = outbuffer; cursor = 0 }

-- `init_destination`, with the memory that alloc_small gave.
unfoldable pub init_destination : Bytes → Destination → Destination
init_destination fresh d = record d {
  next_output = 0;
  free_in_buffer = output_buf_size;
  buffer = fresh;
  written = 0;
}

-- `empty_output_buffer`; *written is an int that stays below 2 ^ 31 here.
unfoldable pub empty_output_buffer : Destination → Option Destination
empty_output_buffer d = memcpy d.outbuffer d.cursor d.buffer 0 output_buf_size >>= λ out.
    some (record {
      next_output = 0;
      free_in_buffer = output_buf_size;
      buffer = d.buffer;
      outbuffer = out;
      cursor = d.cursor + output_buf_size;
      written = d.written + output_buf_size;
    })

-- `term_destination`; libjpeg leaves at most the whole buffer free, so datacount does not wrap around.
unfoldable pub term_destination : Destination → Option Destination
term_destination d =
    let datacount = output_buf_size - d.free_in_buffer in
    memcpy d.outbuffer d.cursor d.buffer 0 datacount >>= λ out. some (record {
      next_output = d.next_output;
      free_in_buffer = d.free_in_buffer;
      buffer = d.buffer;
      outbuffer = out;
      cursor = d.cursor + datacount;
      written = d.written + datacount;
    })

-- The state in which a call finds the manager: libjpeg wrote `buffer` and left `free` bytes of it.
unfoldable pub filled : Bytes → ℕ → Destination → Destination
filled buffer free d = record {
  next_output = output_buf_size - free;
  free_in_buffer = free;
  buffer = buffer;
  outbuffer = d.outbuffer;
  cursor = d.cursor;
  written = d.written;
}

-- The calls for one picture behind that of init_destination: a call of empty_output_buffer for each
-- buffer that got full, and the call of term_destination.
unfoldable pub calls : List Bytes → Bytes → ℕ → Destination → Option Destination
calls [] last free d = term_destination (filled last free d)
calls (full ∷ later) last free d = empty_output_buffer (filled full 0 d) >>= calls later last free
