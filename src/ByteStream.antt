-- ===== src/ByteStream.antt =====
-- libsponge/byte_stream.hh and byte_stream.cc: a flow-controlled stream of bytes over a deque of
-- buffers. A method that changes the stream returns the new one, beside its result if it has one.
-- Sizes are `size_t`, so additions and subtractions of counters wrap at 2 ^ 64.
pub mod Valid
pub mod Script
pub mod Queue
use cs144_lab_assignment.Common.{
  ℕ, ◌-◌, Bool, true, false, ◌&&◌, List, [], ◌∷◌, ◌++◌, Option, none, some, length, take, leb, ◌==◌,
  if◌then◌else◌, add64, sub64, min,
}
use cs144_lab_assignment.Buffer.{BufferList, of_string, str, size, remove_prefix}

pub record ByteStream : Type 0 where
  pub buffer : BufferList
  pub capacity : ℕ
  pub byte_written : ℕ
  pub byte_read : ℕ
  pub end : Bool
  pub error : Bool

-- `ByteStream(capacity)`
unfoldable pub init : ℕ → ByteStream
init capacity = record {
  buffer = [];
  capacity = capacity;
  byte_written = 0;
  byte_read = 0;
  end = false;
  error = false;
}

unfoldable pub buffer_size : ByteStream → ℕ
buffer_size s = sub64 s.byte_written s.byte_read

unfoldable pub buffer_empty : ByteStream → Bool
unfolding buffer_size
buffer_empty s = buffer_size s == 0

unfoldable pub remaining_capacity : ByteStream → ℕ
unfolding buffer_size
remaining_capacity s = sub64 s.capacity (buffer_size s)

unfoldable pub input_ended : ByteStream → Bool
input_ended s = s.end

unfoldable pub eof : ByteStream → Bool
unfolding buffer_empty
eof s = s.end && buffer_empty s

unfoldable pub bytes_written : ByteStream → ℕ
bytes_written s = s.byte_written

unfoldable pub bytes_read : ByteStream → ℕ
bytes_read s = s.byte_read

unfoldable pub end_input : ByteStream → ByteStream
end_input s = record s { end = true }

unfoldable pub set_error : ByteStream → ByteStream
set_error s = record s { error = true }

-- How many bytes of a string `write` takes.
accepted : ByteStream → List ℕ → ℕ
unfolding buffer_size
accepted s text = min (length text) (sub64 s.capacity (buffer_size s))

unfoldable pub write : ByteStream → List ℕ → ByteStream × ℕ
unfolding accepted
write s text = (
  record s {
    buffer = s.buffer ++ of_string (take (accepted s text) text) ∷ [];
    byte_written = add64 s.byte_written (accepted s text);
  },
  accepted s text,
)

-- The loop of `peek_output` over the buffers, with `n` the `true_len` left.
peek_chunks : ℕ → BufferList → List ℕ
peek_chunks n [] = []
peek_chunks n (b ∷ bs) =
    let rest = peek_chunks (n - size b) bs in
    if leb (size b) n then (if n - size b == 0 then str b else str b ++ rest) else take n (str b)

unfoldable pub peek_output : ByteStream → ℕ → List ℕ
unfolding peek_chunks buffer_size
peek_output s len = peek_chunks (min len (buffer_size s)) s.buffer

-- The loop of `pop_output`, with `n` the `delta_len` left. `none` is a read of the front of an empty
-- deque, which C++ leaves undefined, or the exception of `Buffer::remove_prefix`.
pop_chunks : ℕ → BufferList → Option BufferList
pop_chunks n [] = if n == 0 then some [] else none
pop_chunks n (b ∷ bs) =
    let rest = pop_chunks (n - size b) bs in
    if n == 0
    then some (b ∷ bs)
    else if leb (size b) n
    then rest
    else elim (remove_prefix b n) [ none ↦ none | some b' ↦ some (b' ∷ bs) ]

-- A faulty loop leaves the deque as it was here.
unfoldable pub pop_output : ByteStream → ℕ → ByteStream
unfolding pop_chunks buffer_size
pop_output s len =
    let n = min len (buffer_size s) in
    if n == 0 then s else record s {
      buffer = elim (pop_chunks n s.buffer) [ none ↦ s.buffer | some bs ↦ bs ];
      byte_read = add64 s.byte_read n;
    }

unfoldable pub read : ByteStream → ℕ → ByteStream × List ℕ
unfolding peek_output pop_output
read s len = let n = min len (buffer_size s) in (pop_output s n, peek_output s n)
