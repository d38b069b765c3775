-- ===== src/EventLoop/SettingUp.antt =====
-- The first loop of `EventLoop::wait_next_event` of libsponge/util/eventloop.cc.
use cs144_lab_assignment.Common.{
  ◌≡◌, refl, ap, sym, List, [], ◌∷◌, none, All, arith, inl, inr, Bool-cases, Option-cases, ◌⊎◌, ◌≢◌,
}
use cs144_lab_assignment.EventLoop.Rules.{
  Sublist, nil, erased, kept, Sublist-refl, Distinct, rules_of, Respects,
}
use cs144_lab_assignment.EventLoop.{Rule, PollFd, SetUp, set_up, defunct, pollfd_of}

module _ {S I : Type 0} (rule : I → Rule S) (P : S → Type 0) (G : I → S → Type 0)
    (r : Respects rule P G) where
  -- The `pollfd`s belong to the rules, and ask for an event only where `G` holds.
  abbrev pub Polls : S → List I → List PollFd → Type 0
  Polls s [] ps = Unit {0}
  Polls s (i ∷ is) [] = ⊥
  Polls s (i ∷ is) (p ∷ ps) = ((p.events ≡ none) ⊎ G i s) × Polls s is ps

  -- A first loop that keeps the invariant, erases only, and polls for those that it keeps.
  pub record Ready (is : List I) (up : SetUp S) : Type 0 where
    pub holds : P up.outcome.state
    pub ids : List I
    pub rules : up.outcome.rules ≡ rules_of rule ids
    pub sublist : Sublist ids is
    pub polls : up.outcome.thrown ≡ none → Polls up.outcome.state ids up.pollfds

  -- The first loop keeps `G` of the rules that it does not reach.
  set_up_beside :
      (j : I) (is : List I) (s : S)
      → All (λ i. j ≢ i) is
      → P s
      → G j s
      → G j (set_up (rules_of rule is) s).outcome.state
  unfolding set_up
  set_up_beside j [] s a p g = g
  set_up_beside j (i ∷ is) s a p g = elim (Bool-cases (defunct (rule i) s)) [
    | inr e ↦ rw (set_up, e) (set_up_beside j is s a.1 p g)
    | inl e ↦
        let g' : G j ((rule i).cancel s).0 = r.stops_beside i j s (λ x. a.0 (sym x)) p g in
        elim (Option-cases ((rule i).cancel s).1) [
          | inl t ↦
              rw (set_up, e, t) (set_up_beside j is ((rule i).cancel s).0 a.1 (r.stops i s p) g')
          | inr (x, t) ↦ rw (set_up, e, t) g'
        ]
  ]

  -- The `pollfd` of a rule that is kept.
  asked :
      (i : I) (is : List I) (s : S)
      → All (λ j. i ≢ j) is
      → P s
      → ((pollfd_of (rule i) s).events ≡ none) ⊎ G i (set_up (rules_of rule is) s).outcome.state
  unfolding pollfd_of
  asked i is s d p = elim (Bool-cases ((rule i).interest s)) [
    | inl e ↦ inr (set_up_beside i is s d p (r.interested i s p e))
    | inr e ↦ inl (rw e refl)
  ]

  pub set_up-Ready :
      (is : List I) (s : S) → Distinct is → P s → Ready is (set_up (rules_of rule is) s)
  unfolding set_up
  set_up-Ready [] s d p = record {
    holds = p;
    ids = [];
    rules = refl;
    sublist = nil;
    polls = λ _. tt;
  }
  set_up-Ready (i ∷ is) s d p = elim (Bool-cases (defunct (rule i) s)) [
    | inr e ↦
        let rest = set_up-Ready is s d.1 p in
        rw (set_up, e)
          (record {
            holds = rest.holds;
            ids = i ∷ rest.ids;
            rules = ap (◌∷◌ (rule i)) rest.rules;
            sublist = kept rest.sublist;
            polls = λ t. (asked i is s d.0 p, rest.polls t);
          })
    | inl e ↦ elim (Option-cases ((rule i).cancel s).1) [
      | inl t ↦
          let rest = set_up-Ready is ((rule i).cancel s).0 d.1 (r.stops i s p) in
          rw (set_up, e, t)
            (record {
              holds = rest.holds;
              ids = rest.ids;
              rules = rest.rules;
              sublist = erased rest.sublist;
              polls = rest.polls;
            })
      | inr (x, t) ↦
          rw (set_up, e, t)
            (record {
              holds = r.stops i s p;
              ids = i ∷ is;
              rules = refl;
              sublist = Sublist-refl (i ∷ is);
              polls = λ n. ground arith;
            })
    ]
  ]
