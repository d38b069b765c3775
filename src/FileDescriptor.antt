-- ===== src/FileDescriptor.antt =====
-- libsponge/util/file_descriptor.hh and file_descriptor.cc: a handle on a kernel file descriptor. The
-- answers of the kernel are arguments; what it takes of the bytes written is a result. The handles made
-- by `duplicate` share one FDWrapper, so a client keeps the wrapper once, in the state of whoever owns
-- the descriptor. Counters are `unsigned`, of 32 bits.
pub mod Reading
pub mod Reads
pub mod Writing
pub mod Progress
pub mod Blocking
pub mod Draining
use cs144_lab_assignment.Common.{
  Option, ℕ, suc, ◌+◌, ◌-◌, ◌*◌, ◌/◌, ◌%◌, ◌^◌, Bool, true, false, not, ◌&&◌, ◌||◌, List, [], ◌++◌,
  none, some, length, take, ltb, leb, ◌==◌, if◌then◌else◌, add32, add64, min, zero, ℤ, pos, negsuc,
}
use cs144_lab_assignment.Buffer.{BufferViewList, view_remove_prefix, view_size, flatten}
use cs144_lab_assignment.SystemCall.{
  Exception, runtime_error, out_of_range, unix_error, Result, ok, throws, SysReturn, system_call,
}

-- `FDWrapper`
pub record FdWrapper : Type 0 where
  pub fd : ℕ
  pub eof : Bool
  pub closed : Bool
  pub read_count : ℕ
  pub write_count : ℕ

-- `FDWrapper(fd)`
unfoldable pub create : ℤ → Result FdWrapper
create (pos fd) =
    ok (record { fd = fd; eof = false; closed = false; read_count = 0; write_count = 0 })
create (negsuc n) = throws runtime_error

unfoldable pub register_read : FdWrapper → FdWrapper
register_read f = record f { read_count = add32 f.read_count 1 }

unfoldable pub register_write : FdWrapper → FdWrapper
register_write f = record f { write_count = add32 f.write_count 1 }

-- `FDWrapper::close`
unfoldable pub close : FdWrapper → SysReturn → FdWrapper × Result ℕ
close f answer = elim (system_call answer) [
  | throws e ↦ (f, throws e)
  | ok n ↦ (record f { eof = true; closed = true }, ok n)
]

-- `~FDWrapper`, which throws nothing.
unfoldable pub destruct : FdWrapper → SysReturn → FdWrapper
unfolding close
destruct f answer = if f.closed then f else (close f answer).0

-- What the kernel answers to `read`: bytes, or a failure with its `errno`.
pub data ReadReturn : Type 0 where
  got : List ℕ → ReadReturn
  read_fails : ℕ → ReadReturn

-- The `BUFFER_SIZE` of `read`, the most that is read at once.
abbrev pub read_size : ℕ
read_size = 1024 * 1024

-- `_internal_fd->_eof = true` under its test.
unfoldable pub mark_eof : FdWrapper → ℕ → List ℕ → FdWrapper
mark_eof f limit bytes = if ltb 0 limit && length bytes == 0 then record f { eof = true } else f

-- `read(limit)`
unfoldable pub read : FdWrapper → ReadReturn → ℕ → FdWrapper × Result (List ℕ)
read f (read_fails errno) limit = (f, throws (unix_error errno))
read f (got bytes) limit =
    let f' = mark_eof f limit bytes in
    if ltb (min read_size limit) (length bytes)
    then (f', throws runtime_error)
    else (register_read f', ok bytes)

-- The kernel's answer to each `writev` of a call of `write`, by the number of the `writev`.
abbrev pub Writev : Type 0
Writev = ℕ → BufferViewList → SysReturn

-- `bytes_written > ssize_t(size)`, where the conversion makes a size from 2 ^ 63 on negative.
abbrev pub exceeds : ℕ → ℕ → Bool
exceeds n size = ltb size n || leb (2 ^ 63) size

-- One pass of the loop of `write`: the bytes taken and the views left, or what was thrown.
pub data Pass : Type 0 where
  wrote : ℕ → BufferViewList → Pass
  stopped : Exception → Pass

unfoldable pub pass : SysReturn → BufferViewList → Pass
pass answer vs = elim (system_call answer) [
  | throws e ↦ stopped e
  | ok n ↦
      if n == 0 && not (view_size vs == 0)
      then stopped runtime_error
      else if exceeds n (view_size vs)
      then stopped runtime_error
      else elim (view_remove_prefix vs n) [ none ↦ stopped out_of_range | some vs' ↦ wrote n vs' ]
]

-- What `write` comes to: the descriptor, the bytes that the kernel has taken, and the result; `none`
-- is a loop that has not ended within its fuel.
pub record Written : Type 0 where
  pub descriptor : FdWrapper
  pub taken : List ℕ
  pub result : Option (Result ℕ)

-- The end of the loop's body behind a pass, given the rest of the loop.
unfoldable pub after :
    (FdWrapper → BufferViewList → ℕ → Written)
    → FdWrapper
    → BufferViewList
    → Bool
    → ℕ
    → Pass
    → Written
after again f vs write_all total (stopped e) = record {
  descriptor = f;
  taken = [];
  result = some (throws e);
}
after again f vs write_all total (wrote n vs') = elim (write_all && not (view_size vs' == 0)) [
  | false ↦ record {
    descriptor = register_write f;
    taken = take n (flatten vs);
    result = some (ok (add64 total n));
  }
  | true ↦
      let rest = again (register_write f) vs' (add64 total n) in
      record rest { taken = take n (flatten vs) ++ rest.taken }
]

-- The loop of `write` from pass `i` on, with the total so far.
unfoldable pub write_loop : Writev → ℕ → ℕ → FdWrapper → BufferViewList → Bool → ℕ → Written
write_loop writev zero i f vs write_all total = record { descriptor = f; taken = []; result = none }
write_loop writev (suc fuel) i f vs write_all total =
    after (λ f' vs' total'. write_loop writev fuel (i + 1) f' vs' write_all total') f vs write_all
      total (pass (writev i vs) vs)

-- `write(buffer, write_all)`. Every pass but the last takes at least a byte.
unfoldable pub write : Writev → FdWrapper → BufferViewList → Bool → Written
write writev f vs write_all = write_loop writev (suc (view_size vs)) 0 f vs write_all 0

-- `O_NONBLOCK`, a single bit.
abbrev pub nonblock : ℕ
nonblock = 2048

-- `flags & O_NONBLOCK`
abbrev pub nonblock_of : ℕ → ℕ
nonblock_of flags = nonblock * (flags / nonblock % 2)

-- The flags that `set_blocking` sets.
unfoldable pub blocking_flags : Bool → ℕ → ℕ
blocking_flags blocking_state flags =
    if blocking_state then flags - nonblock_of flags else flags - nonblock_of flags + nonblock

-- `set_blocking`, with the kernel's answers to the two calls of `fcntl`: the flags that are set.
unfoldable pub set_blocking : SysReturn → SysReturn → Bool → Result ℕ
unfolding blocking_flags
set_blocking got_flags answer blocking_state = elim (system_call got_flags) [
  | throws e ↦ throws e
  | ok flags ↦ elim (system_call answer) [
    | throws e ↦ throws e
    | ok n ↦ ok (blocking_flags blocking_state flags)
  ]
]
