-- ===== src/BidirectionalStreamCopy/Conservation.antt =====
-- What apps/bidirectional_stream_copy.cc passes on.
use cs144_lab_assignment.Common.{
  ℕ, zero, suc, ◌+◌, ◌<◌, ◌^◌, ◌≡◌, refl, List, [], ◌∷◌, ◌++◌, Option, if_both, arith, inl, inr,
  Option-cases,
}
use cs144_lab_assignment.Buffer.{concatenate}
use cs144_lab_assignment.ByteStream.{eof}
use cs144_lab_assignment.ByteStream
use cs144_lab_assignment.ByteStream.Valid.{contents}
use cs144_lab_assignment.ByteStream.Valid as Stream
use cs144_lab_assignment.EventLoop.{Result, success, timeout, exit, wait_next_event, add_rule}
use cs144_lab_assignment.EventLoop.Invariant.{wait_next_event-Leaves}
use cs144_lab_assignment.EventLoop.Rules.{Respects, Distinct, Sublist-Distinct, rules_of}
use cs144_lab_assignment.FileDescriptor.{FdWrapper}
use cs144_lab_assignment.FileDescriptor
use cs144_lab_assignment.FileDescriptor.Reading.{offered}
use cs144_lab_assignment.Socket.{shutdown, shut_wr}
use cs144_lab_assignment.SystemCall.{Exception, Result-cases, ok, throws}
use cs144_lab_assignment.SystemCall
use cs144_lab_assignment.BidirectionalStreamCopy.{
  Kernel, Copy, RuleName, input_in, socket_out, socket_in, output_out, rule, read_input,
  write_socket, read_socket, write_output, shut_socket, close_output, copy_out, stream_size,
}
use cs144_lab_assignment.BidirectionalStreamCopy.Main.{
  Copying, Copied, returned, unfinished, escaped, waited, next, run, start,
  bidirectional_stream_copy,
}
use cs144_lab_assignment.BidirectionalStreamCopy.Pipe.{
  Pipe, Pipe-call, Pipe-end, Pipe-error, copy_in-Pipe, copy_out-Pipe,
}

-- Sources that give fewer bytes than the 64-bit counters count.
pub record Modest (kernel : Kernel) : Type 0 where
  pub input : (n : ℕ) → offered kernel.input_read n < 2 ^ 64
  pub socket : (n : ℕ) → offered kernel.socket_read n < 2 ^ 64

-- Both directions.
pub record Conserves (kernel : Kernel) (c : Copy) : Type 0 where
  pub outward : Pipe kernel.input_read c.outbound c.from_input c.to_socket c.system_calls
  pub inward : Pipe kernel.socket_read c.inbound c.from_socket c.to_output c.system_calls

-- Where the loop has come to.
abbrev pub reached : Copied → Copying
reached (returned c) = c
reached (unfinished c) = c
reached (escaped e c) = c

module _ (kernel : Kernel) (modest : Modest kernel) where
  shut_socket-Conserves :
      (c : Copy) → Conserves kernel c → Conserves kernel (shut_socket kernel c).0
  unfolding shut_socket
  shut_socket-Conserves c v =
      let v' : Conserves kernel (record c { system_calls = c.system_calls + 1 }) = record {
        outward = Pipe-call v.outward;
        inward = Pipe-call v.inward;
      } in
      if_both (λ (o : Copy × Option Exception). Conserves kernel o.0) (eof c.outbound)
        (λ _.
          elim (Option-cases
            (shutdown c.socket (kernel.socket_shutdown c.system_calls) shut_wr).1) [
              | inl h ↦ rw h (record { outward = v'.outward; inward = v'.inward })
              | inr (e, h) ↦ rw h (record { outward = v'.outward; inward = v'.inward })
            ])
        λ _. v

  close_output-Conserves :
      (c : Copy) → Conserves kernel c → Conserves kernel (close_output kernel c).0
  unfolding close_output
  close_output-Conserves c v =
      if_both (λ (o : Copy × Option Exception). Conserves kernel o.0) (eof c.inbound)
        (λ _.
          elim (Result-cases
            (FileDescriptor.close c.output (kernel.output_close c.system_calls)).1) [
              | inl (e, h) ↦
                  rw h (record { outward = Pipe-call v.outward; inward = Pipe-call v.inward })
              | inr (n, h) ↦
                  rw h (record { outward = Pipe-call v.outward; inward = Pipe-call v.inward })
            ])
        λ _. v

  write_socket-Conserves :
      (c : Copy) → Conserves kernel c → Conserves kernel (write_socket kernel c).0
  unfolding write_socket
  write_socket-Conserves c v =
      let writev = kernel.socket_write c.system_calls in
      let p = copy_out-Pipe v.outward c.socket writev in
      elim (Option-cases (copy_out c.socket c.outbound writev).thrown) [
        | inl h ↦
            rw (write_socket, h)
              (shut_socket-Conserves _ (record { outward = p; inward = Pipe-call v.inward }))
        | inr (e, h) ↦ rw (write_socket, h) (record { outward = p; inward = Pipe-call v.inward })
      ]

  write_output-Conserves :
      (c : Copy) → Conserves kernel c → Conserves kernel (write_output kernel c).0
  unfolding write_output
  write_output-Conserves c v =
      let writev = kernel.output_write c.system_calls in
      let p = copy_out-Pipe v.inward c.output writev in
      elim (Option-cases (copy_out c.output c.inbound writev).thrown) [
        | inl h ↦
            rw (write_output, h)
              (close_output-Conserves _ (record { outward = Pipe-call v.outward; inward = p }))
        | inr (e, h) ↦ rw (write_output, h) (record { outward = Pipe-call v.outward; inward = p })
      ]

  -- Nothing that the callbacks need is ensured by the interests.
  abbrev Nothing : RuleName → Copy → Type 0
  Nothing i c = Unit {0}

  rule-Respects : Respects (rule kernel) (Conserves kernel) Nothing
  unfolding rule read_input read_socket
  rule-Respects = record {
    interested = λ i c v h. tt;
    runs = runs;
    stops = stops;
    runs_beside = λ i j c n v g h. tt;
    stops_beside = λ i j c n v h. tt;
  }
    where
      runs :
          (i : RuleName) (c : Copy)
          → Conserves kernel c
          → Unit {0}
          → Conserves kernel ((rule kernel i).callback c).0
      runs input_in c v g = record {
        outward = copy_in-Pipe v.outward c.input (modest.input (c.system_calls + 1));
        inward = Pipe-call v.inward;
      }
      runs socket_out c v g = write_socket-Conserves c v
      runs socket_in c v g = record {
        outward = Pipe-call v.outward;
        inward = copy_in-Pipe v.inward c.socket (modest.socket (c.system_calls + 1));
      }
      runs output_out c v g = write_output-Conserves c v

      stops :
          (i : RuleName) (c : Copy)
          → Conserves kernel c
          → Conserves kernel ((rule kernel i).cancel c).0
      stops input_in c v = record { outward = Pipe-end v.outward; inward = v.inward }
      stops socket_out c v = record { outward = Pipe-error v.outward; inward = v.inward }
      stops socket_in c v = record { outward = v.outward; inward = Pipe-end v.inward }
      stops output_out c v = record { outward = v.outward; inward = Pipe-error v.inward }

  -- Both directions, and rules that are some of the four.
  record Sound (c : Copying) : Type 0 where
    valid : Conserves kernel c.copy
    ids : List RuleName
    left : c.rules ≡ rules_of (rule kernel) ids
    distinct : Distinct ids

  waited-Sound :
      (c : Copying)
      → Sound c
      → Sound (waited kernel c (wait_next_event (kernel.poll c.polls) c.rules c.copy))
  waited-Sound c v =
      let l =
        wait_next_event-Leaves (rule kernel) (Conserves kernel) Nothing rule-Respects
          (kernel.poll c.polls) v.ids c.copy v.distinct v.valid in
      rw v.left (record {
        valid = l.holds;
        ids = l.ids;
        left = l.left;
        distinct = Sublist-Distinct l.sublist v.distinct;
      })

  next-Sound :
      (rest : Copying → Copied) (c : Copying) (r : SystemCall.Result Result)
      → ((c' : Copying) → Sound c' → Sound (reached (rest c')))
      → Sound c
      → Sound (reached (next kernel rest c r))
  unfolding next
  next-Sound rest c (throws e) keep v = v
  next-Sound rest c (ok exit) keep v = v
  next-Sound rest c (ok success) keep v = keep c v
  next-Sound rest c (ok timeout) keep v = keep c v

  run-Sound : (fuel : ℕ) (c : Copying) → Sound c → Sound (reached (run kernel fuel c))
  unfolding run
  run-Sound zero c v = v
  run-Sound (suc fuel) c v =
      next-Sound (run kernel fuel)
        (waited kernel c (wait_next_event (kernel.poll c.polls) c.rules c.copy))
        (wait_next_event (kernel.poll c.polls) c.rules c.copy).result (run-Sound fuel)
        (waited-Sound c v)

  -- A new stream, from which and to which nothing has gone.
  fresh : (reads : ℕ → FileDescriptor.ReadReturn) → Pipe reads (ByteStream.init stream_size) [] [] 0
  unfolding ByteStream.init concatenate
  fresh reads = record {
    valid = Stream.init-IsValid stream_size (omega arith);
    conserved = refl;
    counted = refl;
    bounded = omega arith;
  }

  -- However long the loop runs, whatever the kernel answers and whatever is thrown: the bytes read from
  -- standard input are those that the socket has taken, followed by those in the outbound stream, and the
  -- bytes read from the socket are those that standard output has taken, followed by those in the inbound
  -- stream. The sources give fewer than 2 ^ 64 bytes each.
  pub bidirectional_stream_copy_lem :
      (fuel : ℕ) (input output socket : FdWrapper)
      → let c = (reached (bidirectional_stream_copy kernel fuel input output socket)).copy in
        (c.from_input ≡ c.to_socket ++ contents c.outbound)
        × (c.from_socket ≡ c.to_output ++ contents c.inbound)
  unfolding bidirectional_stream_copy start add_rule
  bidirectional_stream_copy_lem fuel input output socket =
      let v = run-Sound fuel (start kernel input output socket) (record {
        valid = record { outward = fresh kernel.input_read; inward = fresh kernel.socket_read };
        ids = input_in ∷ socket_out ∷ socket_in ∷ output_out ∷ [];
        left = refl;
        distinct = (
          (ground arith, (ground arith, (ground arith, tt))),
          ((ground arith, (ground arith, tt)), ((ground arith, tt), (tt, tt))),
        );
      }) in
      (v.valid.outward.conserved, v.valid.inward.conserved)
