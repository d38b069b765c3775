-- ===== src/BidirectionalStreamCopy/Main.antt =====
-- The loop of apps/bidirectional_stream_copy.cc, on fuel, since it lasts until the event loop exits.
use cs144_lab_assignment.Common.{ℕ, zero, suc, ◌+◌, false, List, []}
use cs144_lab_assignment.ByteStream
use cs144_lab_assignment.EventLoop.{
  Rule, Result, success, timeout, exit, Waited, wait_next_event, add_rule,
}
use cs144_lab_assignment.FileDescriptor.{FdWrapper}
use cs144_lab_assignment.SystemCall.{Exception, ok, throws}
use cs144_lab_assignment.SystemCall
use cs144_lab_assignment.BidirectionalStreamCopy.{
  Kernel, Copy, input_in, socket_out, socket_in, output_out, rule, stream_size,
}

-- The rules of `_eventloop`, the variables, and how often poll has been asked.
pub record Copying : Type 0 where
  pub rules : List (Rule Copy)
  pub copy : Copy
  pub polls : ℕ

-- The function has returned, an exception has left it, or the fuel is used up.
pub data Copied : Type 0 where
  returned unfinished : Copying → Copied
  escaped : Exception → Copying → Copied

module _ (kernel : Kernel) where
  -- What a call of `wait_next_event` leaves.
  abbrev pub waited : Copying → Waited Copy → Copying
  waited c w = record { rules = w.rules; copy = w.state; polls = c.polls + 1 }

  -- What is done with the result, given the rest of the loop.
  unfoldable pub next : (Copying → Copied) → Copying → SystemCall.Result Result → Copied
  next rest c (throws e) = escaped e c
  next rest c (ok exit) = returned c
  next rest c (ok success) = rest c
  next rest c (ok timeout) = rest c

  unfoldable pub run : ℕ → Copying → Copied
  unfolding next
  run zero c = unfinished c
  run (suc fuel) c =
      let w = wait_next_event (kernel.poll c.polls) c.rules c.copy in
      next (λ c'. run fuel c') (waited c w) w.result

  -- The variables as the function sets them up, for the descriptors of standard input and output.
  unfoldable pub start : FdWrapper → FdWrapper → FdWrapper → Copying
  unfolding rule add_rule
  start input output socket = record {
    rules =
        add_rule
          (add_rule (add_rule (add_rule [] (rule kernel input_in)) (rule kernel socket_out))
            (rule kernel socket_in))
          (rule kernel output_out);
    copy = record {
      input = input;
      output = output;
      socket = socket;
      outbound = ByteStream.init stream_size;
      inbound = ByteStream.init stream_size;
      outbound_shutdown = false;
      inbound_shutdown = false;
      system_calls = 0;
      from_input = [];
      to_socket = [];
      from_socket = [];
      to_output = [];
    };
    polls = 0;
  }

  -- `bidirectional_stream_copy`
  unfoldable pub bidirectional_stream_copy : ℕ → FdWrapper → FdWrapper → FdWrapper → Copied
  unfolding start run
  bidirectional_stream_copy fuel input output socket = run fuel (start input output socket)
