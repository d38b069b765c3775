-- ===== src/TcpSpongeSocket/Lifecycle.antt =====
-- The loop and the public operations of libsponge/tcp_helpers/tcp_sponge_socket.cc. The loop is on fuel,
-- since it lasts as long as its condition.
use cs144_lab_assignment.Common.{
  ℕ, zero, suc, ◌+◌, Bool, true, false, not, ◌||◌, List, [], Option, none, some, if◌then◌else◌,
  sub64,
}
use cs144_lab_assignment.Adapters.{Adapter}
use cs144_lab_assignment.EventLoop.{
  Rule, Result, success, timeout, exit, Waited, wait_next_event, add_rule,
}
use cs144_lab_assignment.FdAdapter.{FdAdapterConfig, set_listening}
use cs144_lab_assignment.FileDescriptor.{FdWrapper}
use cs144_lab_assignment.SystemCall.{Exception, runtime_error, ok, throws}
use cs144_lab_assignment.TcpConfig.{TcpConfig}
use cs144_lab_assignment.TcpConnection.{TcpConnection, active, tick}
use cs144_lab_assignment.TcpConnection
use cs144_lab_assignment.TcpState.{State, official, state, same_state}
use cs144_lab_assignment.WrappingIntegers.{WrappingInt32}
use cs144_lab_assignment.TcpSpongeSocket.{
  Environment, Thread, datagram_in, owner_in, owner_out, datagram_out, rule,
}

-- The rules of `_eventloop`, the thread's state, `base_time`, and how often poll and the clock have been
-- asked.
pub record Running (A : Adapter) : Type 0 where
  pub rules : List (Rule (Thread A))
  pub thread : Thread A
  pub base_time : ℕ
  pub polls : ℕ
  pub clocks : ℕ

-- One round of the loop: it goes on, it stops, or an exception leaves it.
pub data Round (A : Adapter) : Type 0 where
  goes_on stops : Running A → Round A
  escapes : Exception → Running A → Round A

-- The loop: it has ended, an exception has left it, or the fuel is used up.
pub data Looped (A : Adapter) : Type 0 where
  ended unfinished : Running A → Looped A
  escaped : Exception → Running A → Looped A

abbrev pub is_exit : Result → Bool
is_exit success = false
is_exit timeout = false
is_exit exit = true

-- `_tcp->state() == …`
abbrev pub is_in : {A : Adapter} → State → Thread A → Bool
is_in expected t = same_state (state t.tcp) (official expected)

module _ (A : Adapter) (env : Environment) where
  -- The ticks at the end of a round.
  unfoldable pub tick_thread : Running A → Running A
  tick_thread r =
      let next_time = env.timestamp_ms r.clocks in
      let ms = sub64 next_time r.base_time in
      if active r.thread.tcp
      then record r {
        thread = record r.thread {
          tcp = tick r.thread.tcp ms;
          datagram_adapter = A.tick r.thread.datagram_adapter ms;
        };
        base_time = next_time;
        clocks = r.clocks + 1;
      }
      else r

  -- The body of the loop behind `wait_next_event`.
  unfoldable pub after_wait : Running A → Waited (Thread A) → Round A
  unfolding tick_thread
  after_wait r w =
      let r' = record r { rules = w.rules; thread = w.state; polls = r.polls + 1 } in
      elim w.result [
        | throws e ↦ escapes e r'
        | ok ret ↦ if is_exit ret || env.abort r.polls then stops r' else goes_on (tick_thread r')
      ]

  unfoldable pub round : Running A → Round A
  unfolding after_wait
  round r = after_wait r (wait_next_event (env.poll r.polls) r.rules r.thread)

  -- `_tcp_loop` behind the first reading of the clock.
  unfoldable pub loop : ℕ → (Thread A → Bool) → Running A → Looped A
  unfolding round
  loop zero condition r = unfinished r
  loop (suc fuel) condition r = elim (condition r.thread) [
    | false ↦ ended r
    | true ↦ elim (round r) [
      | goes_on r' ↦ loop fuel condition r'
      | stops r' ↦ ended r'
      | escapes e r' ↦ escaped e r'
    ]
  ]

  -- `_tcp_loop`
  unfoldable pub tcp_loop : ℕ → (Thread A → Bool) → Running A → Looped A
  unfolding loop
  tcp_loop fuel condition r =
      loop fuel condition
        (record r { base_time = env.timestamp_ms r.clocks; clocks = r.clocks + 1 })

  -- `_initialize_TCP`: a connection and the four rules; `random` is what `random_device` gives.
  unfoldable pub initialize_tcp : TcpConfig → WrappingInt32 → FdWrapper → A.Self → Running A
  unfolding rule add_rule
  initialize_tcp config random thread_data adapter = record {
    rules =
        add_rule
          (add_rule (add_rule (add_rule [] (rule A env datagram_in)) (rule A env owner_in))
            (rule A env owner_out))
          (rule A env datagram_out);
    thread = record {
      tcp = TcpConnection.init config random;
      thread_data = thread_data;
      datagram_adapter = adapter;
      inbound_shutdown = false;
      outbound_shutdown = false;
      fully_acked = false;
      system_calls = 0;
      from_owner = [];
      to_owner = [];
    };
    base_time = 0;
    polls = 0;
    clocks = 0;
  }

  -- A socket of the owner: what it was constructed from, and the thread's state once `_tcp` has a value.
  pub record SpongeSocket : Type 0 where
    pub thread_data : FdWrapper
    pub datagram_adapter : A.Self
    pub running : Option (Running A)

  -- `connect` and `listen_and_accept` come to an exception, or the owner waits in a loop.
  pub data Opened : Type 0 where
    refused : Exception → Opened
    looped : Looped A → Opened

  abbrev pub configure : A.Self → FdAdapterConfig → A.Self
  configure a cfg = A.with_base a (record (A.base a) { cfg = cfg })

  -- `connect` behind the first test, up to the loop.
  unfoldable pub start_connecting :
      SpongeSocket → TcpConfig → WrappingInt32 → FdAdapterConfig → Running A
  unfolding initialize_tcp
  start_connecting s c_tcp random c_ad =
      let r = initialize_tcp c_tcp random s.thread_data (configure s.datagram_adapter c_ad) in
      record r { thread = record r.thread { tcp = TcpConnection.connect r.thread.tcp } }

  -- `connect`
  unfoldable pub connect : ℕ → SpongeSocket → TcpConfig → WrappingInt32 → FdAdapterConfig → Opened
  unfolding start_connecting tcp_loop
  connect fuel s c_tcp random c_ad =
      let r = start_connecting s c_tcp random c_ad in
      elim s.running [
        | some _ ↦ refused runtime_error
        | none ↦
            if not (is_in State.syn_sent r.thread)
            then refused runtime_error
            else looped (tcp_loop fuel (is_in State.syn_sent) r)
      ]

  -- The condition of the loop of `listen_and_accept`.
  unfoldable pub is_opening : Thread A → Bool
  is_opening t = is_in State.listen t || is_in State.syn_rcvd t || is_in State.syn_sent t

  -- `listen_and_accept`
  unfoldable pub listen_and_accept :
      ℕ → SpongeSocket → TcpConfig → WrappingInt32 → FdAdapterConfig → Opened
  unfolding initialize_tcp tcp_loop is_opening
  listen_and_accept fuel s c_tcp random c_ad =
      let a = configure s.datagram_adapter c_ad in
      let a' = A.with_base a (set_listening (A.base a) true) in
      elim s.running [
        | some _ ↦ refused runtime_error
        | none ↦ looped (tcp_loop fuel is_opening (initialize_tcp c_tcp random s.thread_data a'))
      ]

  -- The loop of `_tcp_main`, which runs until it exits.
  unfoldable pub tcp_main : ℕ → Running A → Looped A
  unfolding tcp_loop
  tcp_main fuel r = tcp_loop fuel (λ _. true) r
