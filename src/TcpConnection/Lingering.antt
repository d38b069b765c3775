-- ===== src/TcpConnection/Lingering.antt =====
-- How a connection of libsponge/tcp_connection.cc waits in TIME_WAIT.
use cs144_lab_assignment.Common.{
  ℕ, ◌+◌, ◌-◌, ◌*◌, ◌≤◌, ◌<◌, ◌^◌, ◌≡◌, refl, ap, ap₂, sym, subst, ◌∙◌, true, false, ◌||◌, List, [],
  ◌∷◌, ◌++◌, map, append-nil, ltb, leb, sum, add64, arith,
}
use cs144_lab_assignment.ByteStream.{eof}
use cs144_lab_assignment.TcpConfig.{max_retx_attempts}
use cs144_lab_assignment.TcpSegment.{TcpSegment}
use cs144_lab_assignment.TcpSender.{TcpSender, fin_acked}
use cs144_lab_assignment.TcpSender
use cs144_lab_assignment.TcpSender.Outstanding.{Chain-at, Chain-empty}
use cs144_lab_assignment.TcpConnection.{
  TcpConnection, active, collect_output, give_up, stop_lingering, finish, test_end, time_wait,
  time_since_last_segment_received, set_segment, tick,
}
use cs144_lab_assignment.TcpConnection.Valid as Connection

-- All ticks in turn.
unfoldable pub tick_all : TcpConnection → List ℕ → TcpConnection
tick_all c [] = c
tick_all c (ms ∷ mss) = tick_all (tick c ms) mss

-- A connection in TIME_WAIT that lingers, with the given time since the last segment, and is shut down
-- exactly if this is ten times the timeout or more.
record Lingers (last now timeout : ℕ) (c : TcpConnection) : Type 0 where
  pub waits : time_wait c ≡ true
  pub lingering : c.linger_after_streams_finish ≡ true
  pub none_outstanding : c.sender.outstanding_segment ≡ []
  pub handed : c.sender.segments_out ≡ []
  pub attempts : c.sender.consecutive_retransmissions ≤ max_retx_attempts
  pub not_unclear : c.is_unclear_shutdown ≡ false
  pub same_last : c.time_when_last_segment_received ≡ last
  pub same_now : c.now_time ≡ now
  pub same_timeout : c.cfg.rt_timeout ≡ timeout
  pub clear : c.is_clear_shutdown ≡ leb (10 * timeout) (now - last)

-- A tick of a sender with nothing outstanding changes only its timer.
sender-tick :
    (s : TcpSender) (ms : ℕ)
    → s.outstanding_segment ≡ []
    → TcpSender.tick s ms ≡ record s { timer = (TcpSender.tick s ms).timer }
unfolding TcpSender.tick
sender-tick s ms none = rw none (ground arith)

-- The common end of the handlers, where nothing is to be given up.
test_end_waits :
    (c : TcpConnection)
    → time_wait c ≡ true
    → c.linger_after_streams_finish ≡ true
    → c.sender.consecutive_retransmissions ≤ max_retx_attempts
    → test_end c ≡ record c {
      is_clear_shutdown =
          c.is_clear_shutdown || leb (10 * c.cfg.rt_timeout) (time_since_last_segment_received c);
    }
unfolding test_end give_up stop_lingering finish
test_end_waits c waits lingering attempts =
    let few : ltb max_retx_attempts c.sender.consecutive_retransmissions ≡ false = ground arith in
    let ended : eof c.sender.stream ≡ true = unfold time_wait fin_acked in ground arith in
    rw (few, ended, waits, lingering) refl

collect_none : (c : TcpConnection) → c.sender.segments_out ≡ [] → collect_output c ≡ c
unfolding collect_output
collect_none c none =
    ap₂
      (λ (out own : List TcpSegment). record c {
        segments_out = out;
        sender = record c.sender { segments_out = own };
      })
      (ap (λ (own : List TcpSegment). c.segments_out ++ map (set_segment c) own) none
        ∙ append-nil c.segments_out)
      (sym none)

tick-Lingers :
    (last now timeout ms : ℕ) (c : TcpConnection)
    → Lingers last now timeout c
    → last ≤ now
    → now + ms < 2 ^ 64
    → Lingers last (now + ms) timeout (tick c ms)
unfolding tick
tick-Lingers last now timeout ms c l le small =
    let later : TcpSender → TcpConnection =
      λ s. record c { now_time = add64 c.now_time ms; sender = s } in
    let same = sender-tick c.sender ms l.none_outstanding in
    let c' : TcpConnection =
      later (record c.sender { timer = (TcpSender.tick c.sender ms).timer }) in
    let waits : time_wait c' ≡ true = unfold time_wait fin_acked in l.waits in
    let e : tick c ms ≡ record c' {
      is_clear_shutdown =
          c'.is_clear_shutdown
          || leb (10 * c'.cfg.rt_timeout) (time_since_last_segment_received c');
    } =
      ap test_end (
        collect_none (later (TcpSender.tick c.sender ms))
          (ap (λ (s : TcpSender). s.segments_out) same ∙ l.handed)
        ∙ ap later same)
      ∙ test_end_waits c' waits l.lingering l.attempts in
    subst (Lingers last (now + ms) timeout) (sym e) (record {
      waits = unfold time_wait in waits;
      lingering = l.lingering;
      none_outstanding = l.none_outstanding;
      handed = l.handed;
      attempts = l.attempts;
      not_unclear = l.not_unclear;
      same_last = l.same_last;
      same_now = omega (arith, l.same_now);
      same_timeout = l.same_timeout;
      clear =
          unfold time_since_last_segment_received in
          ground (arith, l.clear, l.same_now, l.same_last, l.same_timeout);
    })

ticks-Lingers :
    (mss : List ℕ) (last now timeout : ℕ) (c : TcpConnection)
    → Lingers last now timeout c
    → last ≤ now
    → now + sum mss < 2 ^ 64
    → Lingers last (now + sum mss) timeout (tick_all c mss)
unfolding tick_all
ticks-Lingers [] last now timeout c l le small =
    let same : now ≡ now + 0 = omega arith in subst (λ (n : ℕ). Lingers last n timeout c) same l
ticks-Lingers (ms ∷ mss) last now timeout c l le small =
    let same : now + ms + sum mss ≡ now + (ms + sum mss) = omega arith in
    subst (λ (n : ℕ). Lingers last n timeout (tick_all (tick c ms) mss)) same
      (ticks-Lingers mss last (now + ms) timeout (tick c ms)
        (tick-Lingers last now timeout ms c l le (omega arith)) (omega arith) (omega arith))

-- A valid connection that is active and lingers in TIME_WAIT, for less than ten times the initial timeout
-- since the last segment from the peer, through ticks of any lengths, while the time fits 64 bits: after
-- them it is active exactly if ten times the timeout have still not passed since that segment.
pub tick_all-active :
    (c : TcpConnection) (mss : List ℕ)
    → Connection.IsValid c
    → active c ≡ true
    → time_wait c ≡ true
    → c.linger_after_streams_finish ≡ true
    → c.sender.consecutive_retransmissions ≤ max_retx_attempts
    → c.time_when_last_segment_received ≤ c.now_time
    → c.now_time - c.time_when_last_segment_received < 10 * c.cfg.rt_timeout
    → c.now_time + sum mss < 2 ^ 64
    → active (tick_all c mss)
      ≡ ltb (c.now_time + sum mss - c.time_when_last_segment_received) (10 * c.cfg.rt_timeout)
tick_all-active c mss v act waits lingering attempts le lt small =
    let last : ℕ = c.time_when_last_segment_received in
    let clear : (c.is_unclear_shutdown ≡ false) × (c.is_clear_shutdown ≡ false) =
      unfold active in (ground arith, ground arith) in
    let flight : c.sender.bytes_in_flight ≡ 0 = unfold time_wait fin_acked in ground arith in
    let sv = v.sender.0 in
    let start : c.sender.next_seqno - c.sender.bytes_in_flight ≡ c.sender.next_seqno =
      omega arith in
    let l : Lingers last c.now_time c.cfg.rt_timeout c = record {
      waits = waits;
      lingering = lingering;
      none_outstanding =
          Chain-empty c.sender.next_seqno c.sender.outstanding_segment
            (Chain-at (sym start) refl refl sv.chain);
      handed = v.handed;
      attempts = attempts;
      not_unclear = clear.0;
      same_last = refl;
      same_now = refl;
      same_timeout = refl;
      clear = ground (arith, clear.1);
    } in
    let r = ticks-Lingers mss last c.now_time c.cfg.rt_timeout c l le small in
    unfold active in ground (arith, r.clear, r.not_unclear)
