-- ===== src/Tests/Sockets.antt =====
-- Descriptors, the event loop, the socket and the copying of streams at concrete inputs.
use cs144_lab_assignment.Common.{
  ℕ, suc, ◌≡◌, refl, ◌⊎◌, true, false, List, [], ◌∷◌, none, some, length, min, arith,
}
use cs144_lab_assignment.Buffer.{flatten, view_size, view_remove_prefix}
use cs144_lab_assignment.SystemCall.{ok, returned, system_call}
use cs144_lab_assignment.FileDescriptor.{FdWrapper, got, read_fails, Writev, write}
use cs144_lab_assignment.FileDescriptor
use cs144_lab_assignment.FileDescriptor.Reads.{Call, HasReadAll, read_all, read_all-HasReadAll}
use cs144_lab_assignment.FileDescriptor.Writing.{Wrote, write-Wrote}
use cs144_lab_assignment.FileDescriptor.Progress.{Accepts, write_all_returns}
use cs144_lab_assignment.EventLoop.{
  Rule, PollFd, PollReturn, ready, poll_fails, in_direction, no_cancel, wait_next_event, set_up,
  success, eintr,
}
use cs144_lab_assignment.EventLoop
use cs144_lab_assignment.EventLoop.Exit.{AsksNothing, exit_lem, poll_failure_lem}

abbrev descriptor : FdWrapper
descriptor = record { fd = 3; eof = false; closed = false; read_count = 0; write_count = 0 }

-- Two views, and kernels that take one byte, or at most two bytes, at a time.
abbrev views : List (List ℕ)
views = (1 ∷ 2 ∷ 3 ∷ []) ∷ (4 ∷ 5 ∷ []) ∷ []

abbrev one_byte : Writev
one_byte i vs = returned 1

abbrev two_bytes : Writev
two_bytes i vs = returned (min 2 (length (flatten vs)))

write_runs : (write one_byte descriptor views true).result ≡ some (ok 5)
unfolding write FileDescriptor.write_loop FileDescriptor.pass FileDescriptor.after system_call
    view_size view_remove_prefix
write_runs = refl

write_example : Wrote (flatten views) true 0 (write one_byte descriptor views true)
write_example = write-Wrote one_byte descriptor views true (unfold flatten in omega arith)

two_bytes-Accepts : Accepts two_bytes
two_bytes-Accepts i vs = (min 2 (length (flatten vs)), refl, omega arith, λ h. omega arith)

write_all_example :
    ((write two_bytes descriptor views true).result ≡ some (ok (length (flatten views))))
    × ((write two_bytes descriptor views true).taken ≡ flatten views)
write_all_example =
    write_all_returns two_bytes descriptor views two_bytes-Accepts (unfold flatten in omega arith)

-- Two bytes, an interrupted call, and the end.
abbrev calls_of_read : List Call
calls_of_read = ((10, got (1 ∷ 2 ∷ []))) ∷ ((5, read_fails 4)) ∷ ((5, got [])) ∷ []

read_all-HasReadAll_example :
    HasReadAll descriptor calls_of_read
      (read_all descriptor calls_of_read).1
      (read_all descriptor calls_of_read).0
read_all-HasReadAll_example = read_all-HasReadAll calls_of_read descriptor (omega arith)

-- One rule over a state that counts; it is always interested.
abbrev counting : Rule ℕ
counting = record {
  fd = λ n. record descriptor { read_count = n };
  direction = in_direction;
  callback = λ n. (suc n, none);
  interest = λ n. true;
  cancel = no_cancel;
}

abbrev interrupted : List PollFd → PollReturn
interrupted ps = poll_fails 4

abbrev out_of_memory : List PollFd → PollReturn
out_of_memory ps = poll_fails 12

exit_example :
    AsksNothing (set_up (counting ∷ []) 0).pollfds
    ⊎ (interrupted (set_up (counting ∷ []) 0).pollfds ≡ poll_fails eintr)
exit_example =
    exit_lem interrupted (counting ∷ []) 0
      (unfold wait_next_event set_up EventLoop.polled EventLoop.conclude EventLoop.defunct in refl)

poll_failure_example : wait_next_event out_of_memory (counting ∷ []) 0 ≡ record {
  rules = (set_up (counting ∷ []) 0).outcome.rules;
  state = (set_up (counting ∷ []) 0).outcome.state;
  result = ok success;
}
poll_failure_example =
    poll_failure_lem out_of_memory (counting ∷ []) 0 12 (unfold set_up EventLoop.defunct in refl)
      (unfold set_up EventLoop.defunct in refl) refl (λ e. omega arith)

-- The rule is called once for a descriptor that is readable.
abbrev readable : List PollFd → PollReturn
readable ps = ready (λ n. record { error = false; readable = true; writable = false; hup = false })

wait_runs :
    ((wait_next_event readable (counting ∷ []) 0).state ≡ 1)
    × ((wait_next_event readable (counting ∷ []) 0).result ≡ ok success)
unfolding wait_next_event set_up EventLoop.polled EventLoop.conclude EventLoop.defunct
    EventLoop.serve EventLoop.action EventLoop.only_hup EventLoop.poll_ready EventLoop.run_callback
    EventLoop.service_count EventLoop.pollfd_of
wait_runs = (refl, refl)
