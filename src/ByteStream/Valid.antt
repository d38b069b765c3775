-- ===== src/ByteStream/Valid.antt =====
-- The invariant of the byte stream of libsponge/byte_stream.cc, and lemmas on its methods.
use cs144_lab_assignment.Common.{
  ℕ, ◌+◌, ◌-◌, ◌≤◌, ◌<◌, ◌^◌, ◌≡◌, refl, ap, sym, ◌∙◌, List, [], ◌∷◌, ◌++◌, none, some, length,
  drop, take, append-nil, length-drop, length-append, length-take, drop-nil, take-min, drop-min,
  take-nil, take-append_ge, take-append_le, if_both, ==→eq, leb→le, leb→lt, leb, ◌==◌, add64, arith,
  min,
}
use cs144_lab_assignment.Buffer.{BufferList, str, size, concatenate}
use cs144_lab_assignment.Buffer.Laws.{
  AllValid, AllValid-append, RemovesAll, RemovesAll-zero, RemovesAll-cut, RemovesAll-skip,
  concatenate-of_string, of_string-IsValid, concatenate-append,
}
use cs144_lab_assignment.ByteStream.{
  ByteStream, init, buffer_size, remaining_capacity, write, peek_output, peek_chunks, pop_output,
  pop_chunks, read, end_input, set_error,
}

-- The bytes that the stream holds, oldest first.
abbrev pub contents : ByteStream → List ℕ
contents s = concatenate s.buffer

pub record IsValid (s : ByteStream) : Type 0 where
  pub buffers : AllValid s.buffer
  pub read_le : s.byte_read ≤ s.byte_written
  pub held : length (contents s) ≡ s.byte_written - s.byte_read
  pub fits : s.byte_written - s.byte_read ≤ s.capacity
  pub written_small : s.byte_written < 2 ^ 64
  pub capacity_small : s.capacity < 2 ^ 64

pub init-IsValid : (capacity : ℕ) → capacity < 2 ^ 64 → IsValid (init capacity)
unfolding init concatenate
init-IsValid capacity h = ground arith

-- The wrapping counters give the true sizes.
pub buffer_size-length : {s : ByteStream} → IsValid s → buffer_size s ≡ length (contents s)
unfolding buffer_size
buffer_size-length v = omega arith

pub remaining_capacity-add :
    {s : ByteStream} → IsValid s → remaining_capacity s + length (contents s) ≡ s.capacity
unfolding remaining_capacity
remaining_capacity-add v = omega arith

-- What `write` does: it appends the first bytes of the text, as many as the capacity leaves room
-- for, reports their number, and changes no flag.
pub record Wrote (s : ByteStream) (text : List ℕ) (out : ByteStream × ℕ) : Type 0 where
  pub count : out.1 ≡ min (length text) (s.capacity - length (contents s))
  pub bytes : contents out.0 ≡ contents s ++ take out.1 text
  pub written : out.0.byte_written ≡ s.byte_written + out.1
  pub same_read : out.0.byte_read ≡ s.byte_read
  pub same_capacity : out.0.capacity ≡ s.capacity
  pub same_end : out.0.end ≡ s.end
  pub same_error : out.0.error ≡ s.error

-- On a valid stream, while fewer than 2 ^ 64 bytes are written in all, `write` appends as many of the
-- first bytes of the text as the capacity leaves room for, reports their number, and changes neither
-- the flags nor the bytes read.
pub write-Wrote :
    {s : ByteStream} (text : List ℕ)
    → IsValid s
    → length text < 2 ^ 64
    → s.byte_written + length text < 2 ^ 64
    → Wrote s text (write s text)
unfolding write buffer_size
write-Wrote {s} text v small total = record {
  count = omega arith;
  bytes = rw (concatenate-append s.buffer, concatenate-of_string);
  written = omega arith;
  same_read = refl;
  same_capacity = refl;
  same_end = refl;
  same_error = refl;
}

peek_chunks_lem : (n : ℕ) (bs : BufferList) → peek_chunks n bs ≡ take n (concatenate bs)
unfolding peek_chunks concatenate size
peek_chunks_lem n [] = sym (take-nil n)
peek_chunks_lem n (b ∷ bs) =
    if_both (λ r. r ≡ take n (str b ++ concatenate bs)) (leb (size b) n)
      (λ e.
        let le : length (str b) ≤ n = leb→le _ _ e in
        rw (take-append_ge n (str b) (concatenate bs) le) (
          if_both (λ r. r ≡ str b ++ take (n - length (str b)) (concatenate bs)) (n - size b == 0)
            (λ z. rw (==→eq _ _ z) (sym (append-nil (str b))))
            (λ _. ap (◌++◌ (str b)) (peek_chunks_lem (n - length (str b)) bs))))
      λ e.
        let lt : n < length (str b) = leb→lt _ _ e in
        sym (take-append_le n (str b) (concatenate bs) (omega arith))

-- The loop of `pop_output` reads no empty deque and throws nothing while there are bytes left.
pop_chunks-RemovesAll :
    (n : ℕ) (bs : BufferList)
    → AllValid bs
    → n ≤ length (concatenate bs)
    → RemovesAll bs n (pop_chunks n bs)
unfolding pop_chunks concatenate size
pop_chunks-RemovesAll n [] v h = ([], ground arith, sym (drop-nil n), tt)
pop_chunks-RemovesAll n (b ∷ bs) v h =
    if_both (RemovesAll (b ∷ bs) n) (n == 0) (λ e. RemovesAll-zero (b ∷ bs) n v (==→eq _ _ e))
      λ _.
        if_both (RemovesAll (b ∷ bs) n) (leb (size b) n)
          (λ e. RemovesAll-skip b bs n (leb→le _ _ e) (
            pop_chunks-RemovesAll (n - size b) bs v.1
              (omega (arith, length-append (str b) (concatenate bs)))))
          λ e. RemovesAll-cut b bs n v (let lt : n < size b = leb→lt _ _ e in omega arith)

pub write-IsValid :
    {s : ByteStream} (text : List ℕ)
    → IsValid s
    → length text < 2 ^ 64
    → s.byte_written + length text < 2 ^ 64
    → IsValid (write s text).0
unfolding write buffer_size
write-IsValid {s} text v small total =
    let w = write-Wrote text v small total in
    let n = length-take (write s text).1 text in
    record {
      buffers = AllValid-append s.buffer _ v.buffers (of_string-IsValid _ (omega (arith, n)), tt);
      read_le = omega (arith, w.written, w.count);
      held =
          ap length w.bytes
          ∙ omega (
            arith,
            length-append (contents s) (take (write s text).1 text),
            n,
            w.written,
            w.count,
          );
      fits = omega (arith, w.written, w.count);
      written_small = omega arith;
      capacity_small = v.capacity_small;
    }

-- `peek_output` shows the first bytes held and no more than there are.
pub peek_output_lem :
    {s : ByteStream} (len : ℕ) → IsValid s → peek_output s len ≡ take len (contents s)
unfolding peek_output buffer_size
peek_output_lem {s} len v =
    peek_chunks_lem (min len (buffer_size s)) s.buffer
    ∙ ap (λ (n : ℕ). take (min len n) (concatenate s.buffer)) (buffer_size-length v)
    ∙ take-min len (concatenate s.buffer)

-- What `pop_output` does: it drops the first bytes held and counts them as read.
pub record Popped (s : ByteStream) (len : ℕ) (out : ByteStream) : Type 0 where
  pub bytes : contents out ≡ drop len (contents s)
  pub count : out.byte_read ≡ s.byte_read + min len (length (contents s))
  pub buffers : AllValid out.buffer
  pub same_written : out.byte_written ≡ s.byte_written
  pub same_capacity : out.capacity ≡ s.capacity
  pub same_end : out.end ≡ s.end
  pub same_error : out.error ≡ s.error

pop_output_some :
    {s : ByteStream} (len : ℕ)
    → IsValid s
    → Popped s len (record s {
      buffer = elim (pop_chunks (min len (buffer_size s)) s.buffer) [
        | none ↦ s.buffer
        | some bs ↦ bs
      ];
      byte_read = add64 s.byte_read (min len (buffer_size s));
    })
pop_output_some {s} len v =
    let e = buffer_size-length v in
    let (cs, r, c, a) =
      pop_chunks-RemovesAll (min len (buffer_size s)) s.buffer v.buffers (omega arith) in
    rw r (record {
      bytes =
          c
          ∙ ap (λ (n : ℕ). drop (min len n) (concatenate s.buffer)) e
          ∙ drop-min len (concatenate s.buffer);
      count = omega arith;
      buffers = a;
      same_written = refl;
      same_capacity = refl;
      same_end = refl;
      same_error = refl;
    })

pop_output_none :
    {s : ByteStream} (len : ℕ) → IsValid s → min len (buffer_size s) ≡ 0 → Popped s len s
pop_output_none {s} len v z =
    let b = buffer_size-length v in
    let e : min len (length (contents s)) ≡ 0 = sym (ap (min len) b) ∙ z in
    record {
      bytes = sym (sym (drop-min len (contents s)) ∙ ap (λ (n : ℕ). drop n (contents s)) e);
      count = omega arith;
      buffers = v.buffers;
      same_written = refl;
      same_capacity = refl;
      same_end = refl;
      same_error = refl;
    }

pub pop_output-Popped : {s : ByteStream} (len : ℕ) → IsValid s → Popped s len (pop_output s len)
unfolding pop_output
pop_output-Popped {s} len v =
    if_both (Popped s len) (min len (buffer_size s) == 0) (λ z. pop_output_none len v (==→eq _ _ z))
      λ _. pop_output_some len v

pub pop_output-IsValid : {s : ByteStream} (len : ℕ) → IsValid s → IsValid (pop_output s len)
pop_output-IsValid {s} len v =
    let p = pop_output-Popped len v in
    record {
      buffers = p.buffers;
      read_le = omega (arith, p.count, p.same_written);
      held =
          ap length p.bytes ∙ length-drop len (contents s) ∙ omega (arith, p.count, p.same_written);
      fits = omega (arith, p.count, p.same_written, p.same_capacity);
      written_small = omega (arith, p.same_written);
      capacity_small = omega (arith, p.same_capacity);
    }

-- `read` of a valid stream returns the first bytes held, as many as asked for or all, and drops just
-- these.
pub read_lem :
    {s : ByteStream} (len : ℕ)
    → IsValid s
    → ((read s len).1 ≡ take len (contents s)) × Popped s len (read s len).0
unfolding read
read_lem {s} len v =
    let e = buffer_size-length v in
    let p = pop_output-Popped (min len (buffer_size s)) v in
    (
      peek_output_lem (min len (buffer_size s)) v
          ∙ ap (λ (n : ℕ). take (min len n) (contents s)) e
          ∙ take-min len (contents s),
      record {
        bytes =
            p.bytes ∙ ap (λ (n : ℕ). drop (min len n) (contents s)) e ∙ drop-min len (contents s);
        count = p.count ∙ omega arith;
        buffers = p.buffers;
        same_written = p.same_written;
        same_capacity = p.same_capacity;
        same_end = p.same_end;
        same_error = p.same_error;
      },
    )

pub read-IsValid : {s : ByteStream} (len : ℕ) → IsValid s → IsValid (read s len).0
unfolding read
read-IsValid {s} len v = pop_output-IsValid (min len (buffer_size s)) v

pub end_input-IsValid : {s : ByteStream} → IsValid s → IsValid (end_input s)
unfolding end_input
end_input-IsValid v = ground arith

pub set_error-IsValid : {s : ByteStream} → IsValid s → IsValid (set_error s)
unfolding set_error
set_error-IsValid v = ground arith
