-- ===== src/ByteStream/Script.antt =====
-- Scripts of calls of a byte stream, and its specification: a queue of bytes of bounded size that
-- counts what goes in and out.
use cs144_lab_assignment.Common.{
  ℕ, ◌+◌, ◌-◌, Bool, true, ◌&&◌, List, [], ◌∷◌, ◌++◌, length, drop, take, ◌==◌, min,
}
use cs144_lab_assignment.ByteStream.{
  ByteStream, buffer_size, buffer_empty, remaining_capacity, write, peek_output, pop_output, read,
  end_input, set_error, input_ended, eof, bytes_written, bytes_read,
}
use cs144_lab_assignment.ByteStream.Valid.{contents}

-- What a user of the stream can do.
pub data Call : Type 0 where
  writes : List ℕ → Call
  peeks pops reads : ℕ → Call
  ends errs : Call

-- What a user of the stream sees after a call: the bytes or the count returned, and every accessor.
pub record Reply : Type 0 where
  pub bytes : List ℕ
  pub count : ℕ
  pub size : ℕ
  pub empty : Bool
  pub room : ℕ
  pub ended : Bool
  pub at_eof : Bool
  pub failed : Bool
  pub written : ℕ
  pub consumed : ℕ

-- The specification's state.
pub record Queue : Type 0 where
  pub items : List ℕ
  pub capacity : ℕ
  pub written : ℕ
  pub consumed : ℕ
  pub ended : Bool
  pub failed : Bool

unfoldable pub enqueue : Queue → List ℕ → Queue
enqueue q text = record q {
  items = q.items ++ take (q.capacity - length q.items) text;
  written = q.written + min (length text) (q.capacity - length q.items);
}

unfoldable pub dequeue : Queue → ℕ → Queue
dequeue q len = record q {
  items = drop len q.items;
  consumed = q.consumed + min len (length q.items);
}

unfoldable pub after : Queue → Call → Queue
unfolding enqueue dequeue
after q (writes text) = enqueue q text
after q (peeks len) = q
after q (pops len) = dequeue q len
after q (reads len) = dequeue q len
after q ends = record q { ended = true }
after q errs = record q { failed = true }

-- The bytes and the count that a call returns, where it returns any.
unfoldable pub returned : Queue → Call → List ℕ × ℕ
returned q (writes text) = ([], min (length text) (q.capacity - length q.items))
returned q (peeks len) = (take len q.items, 0)
returned q (pops len) = ([], 0)
returned q (reads len) = (take len q.items, 0)
returned q ends = ([], 0)
returned q errs = ([], 0)

unfoldable pub reply : Queue → List ℕ × ℕ → Reply
reply q (bytes, count) = record {
  bytes = bytes;
  count = count;
  size = length q.items;
  empty = length q.items == 0;
  room = q.capacity - length q.items;
  ended = q.ended;
  at_eof = q.ended && (length q.items == 0);
  failed = q.failed;
  written = q.written;
  consumed = q.consumed;
}

unfoldable pub replies : Queue → List Call → List Reply
replies q [] = []
replies q (c ∷ cs) = reply (after q c) (returned q c) ∷ replies (after q c) cs

-- The same for the stream of the source.
unfoldable pub step : ByteStream → Call → ByteStream × List ℕ × ℕ
step s (writes text) = let (s', n) = write s text in (s', [], n)
step s (peeks len) = (s, peek_output s len, 0)
step s (pops len) = (pop_output s len, [], 0)
step s (reads len) = let (s', bytes) = read s len in (s', bytes, 0)
step s ends = (end_input s, [], 0)
step s errs = (set_error s, [], 0)

unfoldable pub observe : ByteStream → List ℕ → ℕ → Reply
observe s bytes count = record {
  bytes = bytes;
  count = count;
  size = buffer_size s;
  empty = buffer_empty s;
  room = remaining_capacity s;
  ended = input_ended s;
  at_eof = eof s;
  failed = s.error;
  written = bytes_written s;
  consumed = bytes_read s;
}

unfoldable pub run : ByteStream → List Call → List Reply
run s [] = []
run s (c ∷ cs) = let (s', bytes, count) = step s c in observe s' bytes count ∷ run s' cs

-- The queue that a stream stands for.
unfoldable pub view : ByteStream → Queue
view s = record {
  items = contents s;
  capacity = s.capacity;
  written = s.byte_written;
  consumed = s.byte_read;
  ended = s.end;
  failed = s.error;
}

-- How many bytes a call, and a script, tries to write.
abbrev pub attempt : Call → ℕ
attempt (writes text) = length text
attempt _ = 0

abbrev pub attempts : List Call → ℕ
attempts [] = 0
attempts (c ∷ cs) = attempt c + attempts cs
