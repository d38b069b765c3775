-- ===== src/BidirectionalStreamCopy.antt =====
-- apps/bidirectional_stream_copy.cc: two byte streams between standard input and output and a socket.
-- What the kernel answers is given by the number of the system call, counted over all descriptors.
-- Setting the descriptors to non-blocking, before the loop, is left out.
pub mod Pipe
pub mod Conservation
pub mod Main
use cs144_lab_assignment.Common.{
  ℕ, ◌+◌, Bool, true, false, not, ◌&&◌, ◌||◌, List, [], ◌∷◌, ◌++◌, Option, none, some, ltb,
  if◌then◌else◌, min,
}
use cs144_lab_assignment.ByteStream.{
  ByteStream, buffer_size, buffer_empty, remaining_capacity, write, peek_output, pop_output,
  end_input, set_error, eof,
}
use cs144_lab_assignment.ByteStream
use cs144_lab_assignment.EventLoop.{Rule, Callback, PollFd, PollReturn, in_direction, out_direction}
use cs144_lab_assignment.FileDescriptor.{FdWrapper, ReadReturn, Writev}
use cs144_lab_assignment.FileDescriptor
use cs144_lab_assignment.Socket.{shutdown, shut_wr}
use cs144_lab_assignment.SystemCall.{Exception, ok, throws, SysReturn}
use cs144_lab_assignment.SystemCall

-- What the kernel answers to the system calls on the three descriptors, and poll in each round.
pub record Kernel : Type 0 where
  pub input_read : ℕ → ReadReturn
  pub socket_read : ℕ → ReadReturn
  pub socket_write : ℕ → Writev
  pub output_write : ℕ → Writev
  pub socket_shutdown : ℕ → SysReturn
  pub output_close : ℕ → SysReturn
  pub poll : ℕ → List PollFd → PollReturn

-- The variables of `bidirectional_stream_copy`. Besides, the number of system calls made, the bytes read
-- from each source and the bytes that the kernel has taken for each sink.
pub record Copy : Type 0 where
  pub input : FdWrapper
  pub output : FdWrapper
  pub socket : FdWrapper
  pub outbound : ByteStream
  pub inbound : ByteStream
  pub outbound_shutdown : Bool
  pub inbound_shutdown : Bool
  pub system_calls : ℕ
  pub from_input : List ℕ
  pub to_socket : List ℕ
  pub from_socket : List ℕ
  pub to_output : List ℕ

abbrev pub max_copy_length : ℕ
max_copy_length = 65536

abbrev pub stream_size : ℕ
stream_size = 1048576

-- A descriptor and a stream after one of the callbacks, the bytes that went between them, and what was
-- thrown, if anything.
pub record Moved : Type 0 where
  pub fd : FdWrapper
  pub stream : ByteStream
  pub bytes : List ℕ
  pub thrown : Option Exception

-- The common body of rules 1 and 3: what a read brings goes into the stream.
unfoldable pub copy_in : FdWrapper → ByteStream → ReadReturn → Moved
copy_in f s answer =
    let (f', result) = FileDescriptor.read f answer (remaining_capacity s) in
    elim result [
      | throws e ↦ record { fd = f'; stream = s; bytes = []; thrown = some e }
      | ok bytes ↦
          let s' = (write s bytes).0 in
          record {
            fd = f';
            stream = if f'.eof then end_input s' else s';
            bytes = bytes;
            thrown = none;
          }
    ]

-- What a write has come to: a number of bytes to pop, or an exception.
abbrev pub after_write : ByteStream → Option (SystemCall.Result ℕ) → ByteStream × Option Exception
after_write s none = (s, none)
after_write s (some (throws e)) = (s, some e)
after_write s (some (ok bytes_written)) = (pop_output s bytes_written, none)

-- The common start of rules 2 and 4: the first bytes of the stream are written, and those that were taken
-- are popped.
unfoldable pub copy_out : FdWrapper → ByteStream → Writev → Moved
copy_out f s writev =
    let bytes_to_write = min max_copy_length (buffer_size s) in
    let out = FileDescriptor.write writev f (peek_output s bytes_to_write ∷ []) false in
    let (s', thrown) = after_write s out.result in
    record { fd = out.descriptor; stream = s'; bytes = out.taken; thrown = thrown }

-- The interest of rules 1 and 3, and of rules 2 and 4.
unfoldable pub wants_in : ByteStream → ByteStream → Bool
wants_in s other = not s.error && ltb 0 (remaining_capacity s) && not other.error

unfoldable pub wants_out : ByteStream → Bool → Bool
wants_out s is_shut = not (buffer_empty s) || (eof s && not is_shut)

-- The four rules, by what they watch.
pub data RuleName : Type 0 where
  input_in socket_out socket_in output_out : RuleName

module _ (kernel : Kernel) where
  -- Rule 1: from standard input into the outbound stream.
  unfoldable pub read_input : Callback Copy
  unfolding copy_in
  read_input c =
      let m = copy_in c.input c.outbound (kernel.input_read c.system_calls) in
      (
        record c {
          input = m.fd;
          outbound = m.stream;
          from_input = c.from_input ++ m.bytes;
          system_calls = c.system_calls + 1;
        },
        m.thrown,
      )

  -- The end of rule 2.
  unfoldable pub shut_socket : Callback Copy
  shut_socket c =
      let (f, thrown) = shutdown c.socket (kernel.socket_shutdown c.system_calls) shut_wr in
      let c' = record c { socket = f; system_calls = c.system_calls + 1 } in
      if eof c.outbound
      then elim thrown [
        | some e ↦ (c', some e)
        | none ↦ (record c' { outbound_shutdown = true }, none)
      ]
      else (c, none)

  -- Rule 2: from the outbound stream into the socket.
  unfoldable pub write_socket : Callback Copy
  unfolding copy_out shut_socket
  write_socket c =
      let m = copy_out c.socket c.outbound (kernel.socket_write c.system_calls) in
      let c' = record c {
        socket = m.fd;
        outbound = m.stream;
        to_socket = c.to_socket ++ m.bytes;
        system_calls = c.system_calls + 1;
      } in
      elim m.thrown [ some e ↦ (c', some e) | none ↦ shut_socket c' ]

  -- Rule 3: from the socket into the inbound stream.
  unfoldable pub read_socket : Callback Copy
  unfolding copy_in
  read_socket c =
      let m = copy_in c.socket c.inbound (kernel.socket_read c.system_calls) in
      (
        record c {
          socket = m.fd;
          inbound = m.stream;
          from_socket = c.from_socket ++ m.bytes;
          system_calls = c.system_calls + 1;
        },
        m.thrown,
      )

  -- The end of rule 4.
  unfoldable pub close_output : Callback Copy
  close_output c =
      let (f, result) = FileDescriptor.close c.output (kernel.output_close c.system_calls) in
      let c' = record c { output = f; system_calls = c.system_calls + 1 } in
      if eof c.inbound
      then elim result [
        | throws e ↦ (c', some e)
        | ok n ↦ (record c' { inbound_shutdown = true }, none)
      ]
      else (c, none)

  -- Rule 4: from the inbound stream into standard output.
  unfoldable pub write_output : Callback Copy
  unfolding copy_out close_output
  write_output c =
      let m = copy_out c.output c.inbound (kernel.output_write c.system_calls) in
      let c' = record c {
        output = m.fd;
        inbound = m.stream;
        to_output = c.to_output ++ m.bytes;
        system_calls = c.system_calls + 1;
      } in
      elim m.thrown [ some e ↦ (c', some e) | none ↦ close_output c' ]

  -- The rules of the event loop.
  unfoldable pub rule : RuleName → Rule Copy
  unfolding read_input write_socket read_socket write_output wants_in wants_out
  rule input_in = record {
    fd = λ c. c.input;
    direction = in_direction;
    callback = read_input;
    interest = λ c. wants_in c.outbound c.inbound;
    cancel = λ c. (record c { outbound = end_input c.outbound }, none);
  }
  rule socket_out = record {
    fd = λ c. c.socket;
    direction = out_direction;
    callback = write_socket;
    interest = λ c. wants_out c.outbound c.outbound_shutdown;
    cancel = λ c. (record c { outbound = set_error c.outbound }, none);
  }
  rule socket_in = record {
    fd = λ c. c.socket;
    direction = in_direction;
    callback = read_socket;
    interest = λ c. wants_in c.inbound c.outbound;
    cancel = λ c. (record c { inbound = end_input c.inbound }, none);
  }
  rule output_out = record {
    fd = λ c. c.output;
    direction = out_direction;
    callback = write_output;
    interest = λ c. wants_out c.inbound c.inbound_shutdown;
    cancel = λ c. (record c { inbound = set_error c.inbound }, none);
  }
