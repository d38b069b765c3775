-- ===== src/TcpSpongeSocket/Sound.antt =====
-- `_tcp_loop` of libsponge/tcp_helpers/tcp_sponge_socket.cc keeps the thread's invariant.
use cs144_lab_assignment.Common.{
  ℕ, zero, suc, ◌+◌, ◌≡◌, Bool, ◌||◌, List, if_both, sub64, inl, inr, Bool-cases,
}
use cs144_lab_assignment.Adapters.{Adapter}
use cs144_lab_assignment.EventLoop.{Waited, wait_next_event}
use cs144_lab_assignment.EventLoop.Invariant.{Leaves, wait_next_event-Leaves}
use cs144_lab_assignment.EventLoop.Rules.{Distinct, Sublist-Distinct, rules_of}
use cs144_lab_assignment.SystemCall.{Result-cases}
use cs144_lab_assignment.TcpConnection.{active}
use cs144_lab_assignment.TcpConnection.Valid.{passes, react}
use cs144_lab_assignment.WrappingIntegers.{WrappingInt32}
use cs144_lab_assignment.TcpSpongeSocket.{Environment, Thread, RuleName, rule}
use cs144_lab_assignment.TcpSpongeSocket.Core.{Core-react}
use cs144_lab_assignment.TcpSpongeSocket.Invariant.{Honest, Modest, IsValid}
use cs144_lab_assignment.TcpSpongeSocket.Lifecycle.{
  Running, Round, goes_on, stops, escapes, Looped, ended, unfinished, escaped, tick_thread,
  after_wait, round, loop, tcp_loop, is_exit,
}
use cs144_lab_assignment.TcpSpongeSocket.Rules.{Ensured, rule-Respects}

-- Where a loop has come to.
abbrev pub reached : {A : Adapter} → Looped A → Running A
reached (ended r) = r
reached (unfinished r) = r
reached (escaped e r) = r

abbrev after_round : {A : Adapter} → Round A → Running A
after_round (goes_on r) = r
after_round (stops r) = r
after_round (escapes e r) = r

module _ (A : Adapter) (env : Environment) (stream : List ℕ) (isn : WrappingInt32)
    (honest : Honest A stream isn) (modest : Modest env) where
  -- The thread is valid, and its rules are some of the four.
  pub record Sound (r : Running A) : Type 0 where
    pub valid : IsValid env stream isn r.thread
    pub ids : List RuleName
    pub left : r.rules ≡ rules_of (rule A env) ids
    pub distinct : Distinct ids

  tick_thread-Sound : (r : Running A) → Sound r → Sound (tick_thread A env r)
  unfolding tick_thread
  tick_thread-Sound r v =
      if_both Sound (active r.thread.tcp)
        (λ _. record {
          valid =
              unfold react in
              Core-react (passes (sub64 (env.timestamp_ms r.clocks) r.base_time)) v.valid tt tt tt;
          ids = v.ids;
          left = v.left;
          distinct = v.distinct;
        })
        λ _. v

  after_wait-Sound :
      (r : Running A) (w : Waited (Thread A)) (ids : List RuleName)
      → Distinct ids
      → Leaves (rule A env) (IsValid env stream isn) ids w.rules w.state
      → Sound (after_round (after_wait A env r w))
  unfolding after_wait
  after_wait-Sound r w ids d l =
      let r' : Running A = record r { rules = w.rules; thread = w.state; polls = r.polls + 1 } in
      let v : Sound r' = record {
        valid = l.holds;
        ids = l.ids;
        left = l.left;
        distinct = Sublist-Distinct l.sublist d;
      } in
      elim (Result-cases w.result) [
        | inl (e, h) ↦ rw (after_wait, h) v
        | inr (ret, h) ↦
            rw (after_wait, h)
              (if_both (λ (o : Round A). Sound (after_round o)) (is_exit ret || env.abort r.polls)
                (λ _. v) λ _. tick_thread-Sound r' v)
      ]

  round-Sound : (r : Running A) → Sound r → Sound (after_round (round A env r))
  unfolding round
  round-Sound r v =
      after_wait-Sound r (wait_next_event (env.poll r.polls) r.rules r.thread) v.ids v.distinct (
        rw v.left (
          wait_next_event-Leaves (rule A env) (IsValid env stream isn) Ensured
            (rule-Respects A env stream isn honest modest) (env.poll r.polls) v.ids r.thread
            v.distinct v.valid))

  next-Sound :
      (next : Running A → Looped A)
      → ((r : Running A) → Sound r → Sound (reached (next r)))
      → (o : Round A) → Sound (after_round o)
      → Sound (
          reached (elim o as (λ _. Looped A) [
            | goes_on r ↦ next r
            | stops r ↦ ended r
            | escapes e r ↦ escaped e r
          ]))
  next-Sound next keep (goes_on r) v = keep r v
  next-Sound next keep (stops r) v = v
  next-Sound next keep (escapes e r) v = v

  pub loop-Sound :
      (fuel : ℕ) (condition : Thread A → Bool) (r : Running A)
      → Sound r
      → Sound (reached (loop A env fuel condition r))
  unfolding loop
  loop-Sound zero condition r v = v
  loop-Sound (suc fuel) condition r v = elim (Bool-cases (condition r.thread)) [
    | inr e ↦ rw (loop, e) v
    | inl e ↦
        rw (loop, e)
          (next-Sound (loop A env fuel condition) (loop-Sound fuel condition) (round A env r)
            (round-Sound r v))
  ]

  pub tcp_loop-Sound :
      (fuel : ℕ) (condition : Thread A → Bool) (r : Running A)
      → Sound r
      → Sound (reached (tcp_loop A env fuel condition r))
  unfolding tcp_loop
  tcp_loop-Sound fuel condition r v =
      loop-Sound fuel condition _
        (record { valid = v.valid; ids = v.ids; left = v.left; distinct = v.distinct })
