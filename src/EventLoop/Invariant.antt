-- ===== src/EventLoop/Invariant.antt =====
-- `EventLoop::wait_next_event` of libsponge/util/eventloop.cc for rules whose callbacks keep an
-- invariant of the client's state.
use cs144_lab_assignment.Common.{
  ℕ, ◌+◌, ◌≡◌, refl, ap, sym, subst, not, List, [], ◌∷◌, none, if_both, ◌==◌, All, arith, inl, inr,
  Option-cases, ◌⊎◌, ◌≢◌,
}
use cs144_lab_assignment.EventLoop.Rules.{
  Sublist, erased, kept, Sublist-refl, Sublist-trans, Distinct, Sublist-Distinct, rules_of,
  Respects,
}
use cs144_lab_assignment.EventLoop.{
  Rule, PollFd, Revents, PollReturn, ready, timed_out, poll_fails, no_revents, SetUp, Waited,
  set_up, serve, action, fails, cancels, calls, skips, Action, run_callback, wait_next_event,
  polled, conclude, eintr, poll_ready, only_hup,
}
use cs144_lab_assignment.EventLoop.SettingUp.{Polls, Ready, set_up-Ready}

-- A callback is called only for an event that was asked for.
action-calls : (p : PollFd) (revents : Revents) → action p revents ≡ calls → p.events ≡ none → ⊥
unfolding action poll_ready only_hup
action-calls p revents c e = ground arith

-- The check for a busy wait does not change the state.
run_callback_same :
    {S : Type 0} (rule : Rule S) (s : S) → (run_callback rule s).0 ≡ (rule.callback s).0
unfolding run_callback
run_callback_same rule s = ground arith

-- What a loop leaves: the invariant, and some of the rules.
pub record Leaves {S I : Type 0} (rule : I → Rule S) (P : S → Type 0) (is : List I)
    (rules : List (Rule S)) (s : S) : Type 0 where
  pub holds : P s
  pub ids : List I
  pub left : rules ≡ rules_of rule ids
  pub sublist : Sublist ids is

module _ {S I : Type 0} (rule : I → Rule S) (P : S → Type 0) (G : I → S → Type 0)
    (r : Respects rule P G) where
  Polls-beside :
      (i : I) (s s' : S) (is : List I) (ps : List PollFd)
      → ((j : I) → i ≢ j → G j s → G j s')
      → All (λ j. i ≢ j) is
      → Polls rule P G r s is ps
      → Polls rule P G r s' is ps
  Polls-beside i s s' [] ps keep a h = tt
  Polls-beside i s s' (j ∷ is) [] keep a h = elim h [ ]
  Polls-beside i s s' (j ∷ is) (p ∷ ps) keep a (inl e, h) =
      (inl e, Polls-beside i s s' is ps keep a.1 h)
  Polls-beside i s s' (j ∷ is) (p ∷ ps) keep a (inr g, h) =
      (inr (keep j a.0 g), Polls-beside i s s' is ps keep a.1 h)

  -- The rules, in a list before and after.
  all_left : (is : List I) (s : S) → P s → Leaves rule P is (rules_of rule is) s
  all_left is s p = record { holds = p; ids = is; left = refl; sublist = Sublist-refl is }

  with_kept :
      (i : I) (is : List I) (rules : List (Rule S)) (s : S)
      → Leaves rule P is rules s
      → Leaves rule P (i ∷ is) (rule i ∷ rules) s
  with_kept i is rules s l = record {
    holds = l.holds;
    ids = i ∷ l.ids;
    left = ap (◌∷◌ (rule i)) l.left;
    sublist = kept l.sublist;
  }

  with_erased :
      (i : I) (is : List I) (rules : List (Rule S)) (s : S)
      → Leaves rule P is rules s
      → Leaves rule P (i ∷ is) rules s
  with_erased i is rules s l = record {
    holds = l.holds;
    ids = l.ids;
    left = l.left;
    sublist = erased l.sublist;
  }

  Action-cases : (a : Action) → (a ≡ fails) ⊎ ((a ≡ cancels) ⊎ ((a ≡ calls) ⊎ (a ≡ skips)))
  Action-cases fails = inl refl
  Action-cases cancels = inr (inl refl)
  Action-cases calls = inr (inr (inl refl))
  Action-cases skips = inr (inr (inr refl))

  serve-Leaves :
      (is : List I) (ps : List PollFd) (revents : ℕ → Revents) (idx : ℕ) (s : S)
      → Distinct is
      → P s
      → Polls rule P G r s is ps
      → let out = serve (rules_of rule is) ps revents idx s in Leaves rule P is out.rules out.state
  unfolding serve
  serve-Leaves [] ps revents idx s d p h = all_left [] s p
  serve-Leaves (i ∷ is) [] revents idx s d p h = elim h [ ]
  serve-Leaves (i ∷ is) (q ∷ ps) revents idx s d p h =
      elim (Action-cases (action q (revents idx))) [
        | inl e ↦ rw (serve, e) (all_left (i ∷ is) s p)
        | inr (inr (inr e)) ↦
            rw (serve, e) (with_kept i is _ _ (serve-Leaves is ps revents (idx + 1) s d.1 p h.1))
        | inr (inl e) ↦
            let s' : S = ((rule i).cancel s).0 in
            let p' : P s' = r.stops i s p in
            elim (Option-cases ((rule i).cancel s).1) [
              | inr (x, t) ↦ rw (serve, e, t) (all_left (i ∷ is) s' p')
              | inl t ↦
                  rw (serve, e, t)
                    (with_erased i is _ _ (
                      serve-Leaves is ps revents (idx + 1) s' d.1 p'
                        (Polls-beside i s s' is ps (λ j n g. r.stops_beside i j s n p g) d.0 h.1)))
            ]
        | inr (inr (inl e)) ↦
            let g : G i s = elim h.0 [
              | inl n ↦ absurd (action-calls q (revents idx) e n)
              | inr g ↦ g
            ] in
            let s' : S = (run_callback (rule i) s).0 in
            let same = sym (run_callback_same (rule i) s) in
            let p' : P s' = subst P same (r.runs i s p g) in
            let keep : (j : I) → i ≢ j → G j s → G j s' =
              λ j n k. subst (G j) same (r.runs_beside i j s n p g k) in
            elim (Option-cases (run_callback (rule i) s).1) [
              | inr (x, t) ↦ rw (serve, e, t) (all_left (i ∷ is) s' p')
              | inl t ↦
                  rw (serve, e, t)
                    (with_kept i is _ _ (
                      serve-Leaves is ps revents (idx + 1) s' d.1 p'
                        (Polls-beside i s s' is ps keep d.0 h.1)))
            ]
      ]

  -- The second loop behind the first one.
  served :
      (is : List I) (up : SetUp S) (revents : ℕ → Revents)
      → Distinct is
      → up.outcome.thrown ≡ none
      → Ready rule P G r is up
      → let out = serve up.outcome.rules up.pollfds revents 0 up.outcome.state in
        Leaves rule P is out.rules out.state
  served is up revents d n h =
      let l =
        serve-Leaves h.ids up.pollfds revents 0 up.outcome.state (Sublist-Distinct h.sublist d)
          h.holds (h.polls n) in
      rw h.rules (record {
        holds = l.holds;
        ids = l.ids;
        left = l.left;
        sublist = Sublist-trans l.sublist h.sublist;
      })

  -- `wait_next_event` behind the first loop.
  polled-Leaves :
      (is : List I) (up : SetUp S) (answer : PollReturn)
      → Distinct is
      → up.outcome.thrown ≡ none
      → Ready rule P G r is up
      → let out = polled up answer in Leaves rule P is out.rules out.state
  unfolding polled conclude
  polled-Leaves is up timed_out d n h = record {
    holds = h.holds;
    ids = h.ids;
    left = h.rules;
    sublist = h.sublist;
  }
  polled-Leaves is up (ready revents) d n h = served is up revents d n h
  polled-Leaves is up (poll_fails errno) d n h =
      if_both (λ (w : Waited S). Leaves rule P is w.rules w.state) (errno == eintr)
        (λ _. record { holds = h.holds; ids = h.ids; left = h.rules; sublist = h.sublist })
        λ _. served is up (λ _. no_revents) d n h

-- For rules whose interest ensures `G` until their callback runs, whose callbacks keep an invariant
-- where `G` holds, and whose cancellations keep it always: whatever `poll` answers and whatever is
-- thrown, `wait_next_event` keeps the invariant, and it leaves some of the rules, in their order.
pub wait_next_event-Leaves :
    {S I : Type 0} (rule : I → Rule S) (P : S → Type 0) (G : I → S → Type 0)
    → Respects rule P G
    → (poll : List PollFd → PollReturn) (is : List I) (s : S) → Distinct is
    → P s
    → let out = wait_next_event poll (rules_of rule is) s in Leaves rule P is out.rules out.state
unfolding wait_next_event conclude
wait_next_event-Leaves {S} rule P G r poll is s d p =
    let up : SetUp S = set_up (rules_of rule is) s in
    let h : Ready rule P G r is up = set_up-Ready rule P G r is s d p in
    elim (Option-cases up.outcome.thrown) [
      | inr (x, t) ↦
          rw (wait_next_event, t)
            (record { holds = h.holds; ids = h.ids; left = h.rules; sublist = h.sublist })
      | inl t ↦
          rw (wait_next_event, t)
            (if_both (λ (w : Waited S). Leaves rule P is w.rules w.state) (not up.something_to_poll)
              (λ _. record { holds = h.holds; ids = h.ids; left = h.rules; sublist = h.sublist })
              λ _. polled-Leaves rule P G r is up (poll up.pollfds) d t h)
    ]
