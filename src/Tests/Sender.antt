-- ===== src/Tests/Sender.antt =====
-- The sending half at concrete inputs.
use cs144_lab_assignment.Common.{refl, true, false, List, [], ◌∷◌, some, arith}
use cs144_lab_assignment.ByteStream
use cs144_lab_assignment.TcpHeader
use cs144_lab_assignment.TcpSegment
use cs144_lab_assignment.TcpSender.{
  TcpSender, Outstanding, init, fill_loop, draft, first_seqno, wants_to_send, closed,
}
use cs144_lab_assignment.TcpSender.Labels.{Continues, round-Continues}
use cs144_lab_assignment.TcpSender.Valid.{IsValid, IsTimed, init-IsValid}
use cs144_lab_assignment.TcpSender.Window.{Filled, fill_loop-Filled}
use cs144_lab_assignment.TcpSender.Backoff.{Wait, BackedOff, wait_all, wait_all-BackedOff}
use cs144_lab_assignment.TcpSender.Calls.{
  Call, writes, ends, fills, takes, acks, ticks, run, AllAllowed, run-init-IsValid,
}

-- A new sender with the isn 7 and a timeout of 1000 ms.
abbrev fresh : TcpSender
fresh = init 64 1000 (some 7) 0

fresh-IsValid : IsValid fresh × IsTimed fresh
fresh-IsValid = init-IsValid 64 1000 (some 7) 0 (omega arith)

abbrev script : List Call
script =
    writes (104 ∷ 105 ∷ [])
    ∷ fills
    ∷ acks 8 100
    ∷ ticks 400
    ∷ fills
    ∷ ends
    ∷ fills
    ∷ ticks 1000
    ∷ acks 11 100
    ∷ takes
    ∷ []

script-AllAllowed : AllAllowed fresh script
unfolding init ByteStream.init
script-AllAllowed = (
  (refl, omega arith),
  (tt, (omega arith, (tt, (tt, (tt, (tt, (tt, (omega arith, (tt, tt))))))))),
)

run-init_example : IsValid (run fresh script) × IsTimed (run fresh script)
run-init_example = run-init-IsValid 64 1000 (some 7) 0 script (omega arith) script-AllAllowed

fill_loop_example : Filled fresh 1 (fill_loop 1 fresh 1)
fill_loop_example = fill_loop-Filled 1 fresh 1 fresh-IsValid.0 (omega arith) (omega arith)

round-Continues_example : Continues fresh 1 (draft fresh 1 (first_seqno fresh)).segment
round-Continues_example =
    round-Continues fresh 1 fresh-IsValid.0 (omega arith) (unfold wants_to_send closed init in refl)

-- A sender that waits for the acknowledgment of its SYN, with 300 ms left.
abbrev syn_segment : Outstanding
syn_segment =
    (0, record TcpSegment.empty { header = record TcpHeader.default { syn = true; seqno = 7 } })

abbrev waiting : TcpSender
waiting = record fresh {
  syn = true;
  next_seqno = 1;
  bytes_in_flight = 1;
  outstanding_segment = syn_segment ∷ [];
  timer = record { remaining_time = 300; expired = false; stopped = false };
}

-- Two retransmissions: after 350 ms in three ticks, and 2100 ms later in two.
abbrev waits : List Wait
waits = ((100 ∷ 100 ∷ [], 150)) ∷ ((500 ∷ [], 1600)) ∷ []

wait_all_example : BackedOff syn_segment waits waiting (wait_all waiting waits)
unfolding init
wait_all_example =
    wait_all-BackedOff waits waiting 300 syn_segment
      (record { others = []; outstanding = refl; timed = refl }) (omega arith) (omega arith)
      (omega arith)
      (
        omega arith,
        omega arith,
        omega arith,
        omega arith,
        (omega arith, omega arith, omega arith, omega arith, tt),
      )
