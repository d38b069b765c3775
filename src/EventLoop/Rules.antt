-- ===== src/EventLoop/Rules.antt =====
-- Lists of rules of libsponge/util/eventloop.cc, of which some are erased, and what a client's callbacks
-- keep.
use cs144_lab_assignment.Common.{◌≡◌, true, List, [], ◌∷◌, All, ◌≢◌}
use cs144_lab_assignment.EventLoop.{Rule}

-- What is left of a list when some elements are erased.
pub data Sublist {I : Type 0} : List I → List I → Type 0 where
  nil : Sublist [] []
  erased : {i : I} {is js : List I} → Sublist is js → Sublist is (i ∷ js)
  kept : {i : I} {is js : List I} → Sublist is js → Sublist (i ∷ is) (i ∷ js)

pub Sublist-refl : {I : Type 0} (is : List I) → Sublist is is
Sublist-refl [] = nil
Sublist-refl (i ∷ is) = kept (Sublist-refl is)

pub Sublist-trans : {I : Type 0} {is js ks : List I} → Sublist is js → Sublist js ks → Sublist is ks
Sublist-trans a nil = a
Sublist-trans a (erased b) = erased (Sublist-trans a b)
Sublist-trans (erased a) (kept b) = erased (Sublist-trans a b)
Sublist-trans (kept a) (kept b) = kept (Sublist-trans a b)

pub Sublist-All :
    {I : Type 0} (P : I → Type 0) {is js : List I} → Sublist is js → All P js → All P is
Sublist-All P nil a = a
Sublist-All P (erased s) a = Sublist-All P s a.1
Sublist-All P (kept s) a = (a.0, Sublist-All P s a.1)

-- No rule is there twice.
abbrev pub Distinct : {I : Type 0} → List I → Type 0
Distinct [] = Unit {0}
Distinct (i ∷ is) = All (λ j. i ≢ j) is × Distinct is

pub Sublist-Distinct : {I : Type 0} {is js : List I} → Sublist is js → Distinct js → Distinct is
Sublist-Distinct nil d = d
Sublist-Distinct (erased s) d = Sublist-Distinct s d.1
Sublist-Distinct (kept s) d = (Sublist-All _ s d.0, Sublist-Distinct s d.1)

-- The rules of a list of names.
abbrev pub rules_of : {S I : Type 0} → (I → Rule S) → List I → List (Rule S)
rules_of rule [] = []
rules_of rule (i ∷ is) = rule i ∷ rules_of rule is

-- Rules by their names, an invariant `P` of the state, and what a rule's interest ensures, `G`, until
-- its callback runs.
pub record Respects {S I : Type 0} (rule : I → Rule S) (P : S → Type 0) (G : I → S → Type 0)
    : Type 0 where
  pub interested : (i : I) (s : S) → P s → (rule i).interest s ≡ true → G i s
  pub runs : (i : I) (s : S) → P s → G i s → P ((rule i).callback s).0
  pub stops : (i : I) (s : S) → P s → P ((rule i).cancel s).0
  pub runs_beside : (i j : I) (s : S) → i ≢ j → P s → G i s → G j s → G j ((rule i).callback s).0
  pub stops_beside : (i j : I) (s : S) → i ≢ j → P s → G j s → G j ((rule i).cancel s).0
