-- ===== src/EventLoop/Exit.antt =====
-- What `EventLoop::wait_next_event` of libsponge/util/eventloop.cc returns.
use cs144_lab_assignment.Common.{
  ℕ, ◌+◌, ◌≡◌, refl, ap, true, false, not, List, [], ◌∷◌, none, if_both, ◌==◌, ==→eq, All, arith,
  inl, inr, Bool-cases, Option-cases, ◌⊎◌, ◌≢◌,
}
use cs144_lab_assignment.SystemCall.{ok}
use cs144_lab_assignment.EventLoop.{
  Rule, PollFd, PollReturn, ready, timed_out, poll_fails, no_revents, SetUp, Outcome, Waited,
  set_up, defunct, pollfd_of, serve, action, poll_ready, only_hup, skips, wait_next_event, polled,
  conclude, eintr, exit, success, timeout, with_rule, Result,
}

-- There is a `pollfd` for each rule.
abbrev Covers : {S : Type 0} → List (Rule S) → List PollFd → Type 0
Covers [] ps = Unit {0}
Covers (r ∷ rs) [] = ⊥
Covers (r ∷ rs) (p ∷ ps) = Covers rs ps

-- No `pollfd` asks for an event.
abbrev pub AsksNothing : List PollFd → Type 0
AsksNothing ps = All (λ (p : PollFd). p.events ≡ none) ps

-- The first loop: a `pollfd` for each rule kept, of which one asks for an event if there is something
-- to poll.
abbrev SetsUp : {S : Type 0} → SetUp S → Type 0
SetsUp up =
    up.outcome.thrown ≡ none
    → Covers up.outcome.rules up.pollfds × (up.something_to_poll ≡ false → AsksNothing up.pollfds)

set_up-SetsUp : {S : Type 0} (rules : List (Rule S)) (s : S) → SetsUp (set_up rules s)
unfolding set_up pollfd_of
set_up-SetsUp [] s = λ n. (tt, λ _. tt)
set_up-SetsUp (rule ∷ rules) s = elim (Bool-cases (defunct rule s)) [
  | inr e ↦
      rw (set_up, e)
        (λ n.
          let (c, q) = set_up-SetsUp rules s n in
          (
            c,
            λ f.
                let off : rule.interest s ≡ false = ground arith in (rw off refl, q (ground arith)),
          ))
  | inl e ↦ elim (Option-cases (rule.cancel s).1) [
    | inl t ↦ rw (set_up, e, t) (set_up-SetsUp rules (rule.cancel s).0)
    | inr (x, t) ↦ rw (set_up, e, t) (λ n. ground arith)
  ]
]

skips_without : (p : PollFd) → action p no_revents ≡ skips
unfolding action poll_ready only_hup
skips_without p = ground arith

-- Without an event the second loop does nothing.
serve_without :
    {S : Type 0} (rules : List (Rule S)) (ps : List PollFd) (idx : ℕ) (s : S)
    → Covers rules ps
    → serve rules ps (λ _. no_revents) idx s ≡ record { rules = rules; state = s; thrown = none }
unfolding serve
serve_without [] ps idx s c = refl
serve_without (rule ∷ rules) [] idx s c = elim c [ ]
serve_without (rule ∷ rules) (p ∷ ps) idx s c =
    rw (serve, skips_without p) (ap (with_rule rule) (serve_without rules ps (idx + 1) s c))

-- A failure of `poll` with an `errno` other than EINTR goes unnoticed: if there was something to poll and
-- nothing was thrown by a cancellation, `wait_next_event` reports a success, although no callback has
-- run and the first loop's rules and state are left.
pub poll_failure_lem :
    {S : Type 0} (poll : List PollFd → PollReturn) (rules : List (Rule S)) (s : S) (errno : ℕ)
    → (set_up rules s).outcome.thrown ≡ none
    → (set_up rules s).something_to_poll ≡ true
    → poll (set_up rules s).pollfds ≡ poll_fails errno
    → errno ≢ eintr
    → wait_next_event poll rules s ≡ record {
      rules = (set_up rules s).outcome.rules;
      state = (set_up rules s).outcome.state;
      result = ok success;
    }
unfolding wait_next_event polled conclude
poll_failure_lem poll rules s errno n some_poll fails other =
    let up = set_up rules s in
    let e : errno == eintr ≡ false = ground arith in
    let w =
      serve_without up.outcome.rules up.pollfds 0 up.outcome.state (set_up-SetsUp rules s n).0 in
    rw (wait_next_event, n, some_poll, fails, e, w) refl

conclude_exit :
    {S : Type 0} (r : Result) (out : Outcome S) → (conclude r out).result ≡ ok exit → r ≡ exit
unfolding conclude
conclude_exit r out h = ground arith

polled_exit :
    {S : Type 0} (up : SetUp S) (answer : PollReturn)
    → (polled up answer).result ≡ ok exit
    → answer ≡ poll_fails eintr
unfolding polled
polled_exit up timed_out = λ h. let e = conclude_exit timeout _ h in ground arith
polled_exit up (ready revents) = λ h. let e = conclude_exit success _ h in ground arith
polled_exit up (poll_fails errno) = elim (Bool-cases (errno == eintr)) [
  | inl e ↦ λ _. ap poll_fails (==→eq errno eintr e)
  | inr e ↦ rw e (λ h. let e = conclude_exit success _ h in ground arith)
]

-- `wait_next_event` returns `Exit` only when none of the rules left was interested, or a signal was
-- caught.
pub exit_lem :
    {S : Type 0} (poll : List PollFd → PollReturn) (rules : List (Rule S)) (s : S)
    → (wait_next_event poll rules s).result ≡ ok exit
    → AsksNothing (set_up rules s).pollfds ⊎ (poll (set_up rules s).pollfds ≡ poll_fails eintr)
unfolding wait_next_event conclude
exit_lem {S} poll rules s =
    let up : SetUp S = set_up rules s in
    let Exits : SetUp S → Type 0 =
      λ u. AsksNothing u.pollfds ⊎ (poll u.pollfds ≡ poll_fails eintr) in
    elim (Option-cases up.outcome.thrown) [
      | inr (x, t) ↦
          rw (wait_next_event, conclude, t)
            (λ h. let e : false ≡ true = ground arith in ground arith)
      | inl t ↦
          rw (wait_next_event, t)
            (if_both (λ (w : Waited S). w.result ≡ ok exit → Exits up) (not up.something_to_poll)
              (λ a _. inl ((set_up-SetsUp rules s t).1 (ground arith)))
              λ _ h. inr (polled_exit up (poll up.pollfds) h))
    ]
