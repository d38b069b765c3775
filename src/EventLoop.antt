-- ===== src/EventLoop.antt =====
-- libsponge/util/eventloop.hh and eventloop.cc: waits for events on file descriptors and runs the
-- callbacks of the rules. A callback, an interest and a cancellation are functions on a state `S` of
-- the client, which holds the file descriptors and all that the lambdas capture by reference; an
-- exception leaves the state as it was when it was thrown. The answer of `poll` is an argument.
pub mod Rules
pub mod SettingUp
pub mod Invariant
pub mod Exit
use cs144_lab_assignment.Common.{
  ℕ, ◌+◌, Bool, true, false, not, ◌&&◌, ◌||◌, List, [], ◌∷◌, ◌++◌, Option, none, some, ◌==◌,
  if◌then◌else◌,
}
use cs144_lab_assignment.SystemCall.{Exception, runtime_error, ok, throws}
use cs144_lab_assignment.SystemCall
use cs144_lab_assignment.FileDescriptor.{FdWrapper}

-- `Direction`: POLLIN or POLLOUT.
pub data Direction : Type 0 where
  in_direction out_direction : Direction

-- A `function<void(void)>` on the state: the state that it leaves, and what it throws, if anything.
abbrev pub Callback : Type 0 → Type 0
Callback S = S → S × Option Exception

-- `Rule`
pub record Rule (S : Type 0) : Type 0 where
  pub fd : S → FdWrapper
  pub direction : Direction
  pub callback : Callback S
  pub interest : S → Bool
  pub cancel : Callback S

-- The default `cancel` of `add_rule`.
abbrev pub no_cancel : {S : Type 0} → Callback S
no_cancel s = (s, none)

-- `Rule::service_count`
unfoldable pub service_count : {S : Type 0} → Rule S → S → ℕ
service_count rule s = elim rule.direction [
  | in_direction ↦ (rule.fd s).read_count
  | out_direction ↦ (rule.fd s).write_count
]

-- `add_rule`
unfoldable pub add_rule : {S : Type 0} → List (Rule S) → Rule S → List (Rule S)
add_rule rules rule = rules ++ rule ∷ []

-- A `pollfd` before the call: the descriptor and the event asked for, if any.
pub record PollFd : Type 0 where
  pub fd : ℕ
  pub events : Option Direction

-- The bits of `revents`: `error` is POLLERR or POLLNVAL.
pub record Revents : Type 0 where
  pub error : Bool
  pub readable : Bool
  pub writable : Bool
  pub hup : Bool

-- The `revents` that a `pollfd` is made with.
abbrev pub no_revents : Revents
no_revents = record { error = false; readable = false; writable = false; hup = false }

-- What `poll` comes to: the `revents` of each `pollfd` by its index, 0 for a timeout, or a failure with
-- its `errno`.
pub data PollReturn : Type 0 where
  ready : (ℕ → Revents) → PollReturn
  timed_out : PollReturn
  poll_fails : ℕ → PollReturn

abbrev pub eintr : ℕ
eintr = 4

-- `Result`
pub data Result : Type 0 where
  success timeout exit : Result

-- Where a loop leaves the rules and the state, and what it throws, if anything.
pub record Outcome (S : Type 0) : Type 0 where
  pub rules : List (Rule S)
  pub state : S
  pub thrown : Option Exception

abbrev pub throw : {S : Type 0} → List (Rule S) → S → Exception → Outcome S
throw rules s e = record { rules = rules; state = s; thrown = some e }

-- The test for a rule that will not be polled any more.
unfoldable pub defunct : {S : Type 0} → Rule S → S → Bool
defunct rule s = elim rule.direction [
  | in_direction ↦ (rule.fd s).eof || (rule.fd s).closed
  | out_direction ↦ (rule.fd s).closed
]

-- The `pollfd` of a rule.
unfoldable pub pollfd_of : {S : Type 0} → Rule S → S → PollFd
pollfd_of rule s = record {
  fd = (rule.fd s).fd;
  events = if rule.interest s then some rule.direction else none;
}

-- The result of the first loop.
pub record SetUp (S : Type 0) : Type 0 where
  pub outcome : Outcome S
  pub pollfds : List PollFd
  pub something_to_poll : Bool

abbrev pub keep_rule : {S : Type 0} → Rule S → PollFd → Bool → SetUp S → SetUp S
keep_rule rule pollfd interested rest = record {
  outcome = record rest.outcome { rules = rule ∷ rest.outcome.rules };
  pollfds = pollfd ∷ rest.pollfds;
  something_to_poll = interested || rest.something_to_poll;
}

-- The first loop of `wait_next_event`: a rule is cancelled and erased, or gets its `pollfd`.
unfoldable pub set_up : {S : Type 0} → List (Rule S) → S → SetUp S
set_up [] s = record {
  outcome = record { rules = []; state = s; thrown = none };
  pollfds = [];
  something_to_poll = false;
}
set_up (rule ∷ rules) s = elim (defunct rule s) [
  | true ↦
      let (s', thrown) = rule.cancel s in
      elim thrown [
        | none ↦ set_up rules s'
        | some e ↦ record {
          outcome = throw (rule ∷ rules) s' e;
          pollfds = [];
          something_to_poll = false;
        }
      ]
  | false ↦ keep_rule rule (pollfd_of rule s) (rule.interest s) (set_up rules s)
]

-- `revents & events`
unfoldable pub poll_ready : PollFd → Revents → Bool
poll_ready pollfd revents = elim pollfd.events [
  | none ↦ false
  | some in_direction ↦ revents.readable
  | some out_direction ↦ revents.writable
]

-- `poll_hup && events && !poll_ready`
unfoldable pub only_hup : PollFd → Revents → Bool
unfolding poll_ready
only_hup pollfd revents = elim pollfd.events [
  | none ↦ false
  | some d ↦ revents.hup && not (poll_ready pollfd revents)
]

-- What is done for a rule, in the order of the tests.
pub data Action : Type 0 where
  fails cancels calls skips : Action

unfoldable pub action : PollFd → Revents → Action
unfolding poll_ready only_hup
action pollfd revents =
    if revents.error
    then fails
    else if only_hup pollfd revents
    then cancels
    else if poll_ready pollfd revents
    then calls
    else skips

-- The call of a callback, with the check for a busy wait behind it.
unfoldable pub run_callback : {S : Type 0} → Rule S → Callback S
unfolding service_count
run_callback rule s =
    let (s', thrown) = rule.callback s in
    elim thrown [
      | some e ↦ (s', some e)
      | none ↦
          if service_count rule s == service_count rule s' && rule.interest s'
          then (s', some runtime_error)
          else (s', none)
    ]

abbrev pub with_rule : {S : Type 0} → Rule S → Outcome S → Outcome S
with_rule rule out = record out { rules = rule ∷ out.rules }

-- The second loop, with `idx` the index of the first rule. There is a `pollfd` for each rule.
unfoldable pub serve :
    {S : Type 0} → List (Rule S) → List PollFd → (ℕ → Revents) → ℕ → S → Outcome S
serve [] pollfds revents idx s = record { rules = []; state = s; thrown = none }
serve (rule ∷ rules) [] revents idx s = record { rules = rule ∷ rules; state = s; thrown = none }
serve (rule ∷ rules) (pollfd ∷ pollfds) revents idx s = elim (action pollfd (revents idx)) [
  | fails ↦ throw (rule ∷ rules) s runtime_error
  | cancels ↦
      let (s', thrown) = rule.cancel s in
      elim thrown [
        | none ↦ serve rules pollfds revents (idx + 1) s'
        | some e ↦ throw (rule ∷ rules) s' e
      ]
  | calls ↦
      let (s', thrown) = run_callback rule s in
      elim thrown [
        | none ↦ with_rule rule (serve rules pollfds revents (idx + 1) s')
        | some e ↦ throw (rule ∷ rules) s' e
      ]
  | skips ↦ with_rule rule (serve rules pollfds revents (idx + 1) s)
]

-- What `wait_next_event` comes to: the rules and the state that it leaves, and what it returns or
-- throws.
pub record Waited (S : Type 0) : Type 0 where
  pub rules : List (Rule S)
  pub state : S
  pub result : SystemCall.Result Result

unfoldable pub conclude : {S : Type 0} → Result → Outcome S → Waited S
conclude result out = record {
  rules = out.rules;
  state = out.state;
  result = elim out.thrown [ none ↦ ok result | some e ↦ throws e ];
}

-- `wait_next_event` behind the test of `something_to_poll`. A failure of `poll` other than EINTR is
-- caught, and the second loop runs on the `revents` that the `pollfd`s were made with.
unfoldable pub polled : {S : Type 0} → SetUp S → PollReturn → Waited S
polled up timed_out = conclude timeout up.outcome
polled up (ready revents) =
    conclude success (serve up.outcome.rules up.pollfds revents 0 up.outcome.state)
polled up (poll_fails errno) =
    if errno == eintr
    then conclude exit up.outcome
    else conclude success (serve up.outcome.rules up.pollfds (λ _. no_revents) 0 up.outcome.state)

-- `wait_next_event`, with the answer of `poll` to the `pollfd`s.
unfoldable pub wait_next_event :
    {S : Type 0} → (List PollFd → PollReturn) → List (Rule S) → S → Waited S
wait_next_event poll rules s =
    let up = set_up rules s in
    elim up.outcome.thrown [
      | some e ↦ conclude exit up.outcome
      | none ↦
          if not up.something_to_poll then conclude exit up.outcome else polled up (poll up.pollfds)
    ]
