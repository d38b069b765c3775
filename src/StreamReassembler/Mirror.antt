-- ===== src/StreamReassembler/Mirror.antt =====
-- The list `_str_to_assemble` and the map `_existed` of libsponge/stream_reassembler.cc, and storing a
-- text as an insertion into an ordered list.
use cs144_lab_assignment.Common.{
  ℕ, suc, ◌≤◌, ◌<◌, ◌≡◌, ◌≢◌, refl, ap, sym, ◌∙◌, inl, inr, true, false, Bool-cases, Option, none,
  some, List, [], ◌∷◌, ◌++◌, length, ltb, ◌==◌, if◌then◌else◌, All, if_both, arith,
}
use cs144_lab_assignment.StreamReassembler.Nodes.{
  Node, Entry, lower_bound, assign, overwrite_shorter, insert_before,
}

-- The entries of the map for the nodes of the list.
abbrev pub entries_of : List Node → List Entry
entries_of [] = []
entries_of (n ∷ ns) = (n.index, n.id) ∷ entries_of ns

-- The indexes ascend strictly, from `low` on.
abbrev pub Ascending : ℕ → List Node → Type 0
Ascending low [] = Unit {0}
Ascending low (n ∷ ns) = (low ≤ n.index) × Ascending (suc n.index) ns

-- No two nodes have the same identity.
abbrev pub Separate : List Node → Type 0
Separate [] = Unit {0}
Separate (n ∷ ns) = All (λ (m : Node). m.id ≢ n.id) ns × Separate ns

-- Storing a text with the identity `id`, as an insertion into the ordered list: of two texts at the same
-- index the longer one stays.
unfoldable pub put : ℕ → List ℕ → ℕ → List Node → List Node
put id text index [] = record { id = id; text = text; index = index } ∷ []
put id text index (n ∷ ns) =
    let rest = put id text index ns in
    if ltb n.index index
    then n ∷ rest
    else if n.index == index
    then (if ltb (length n.text) (length text)
        then record { id = n.id; text = text; index = index } ∷ ns
        else n ∷ ns)
    else record { id = id; text = text; index = index } ∷ n ∷ ns

-- The identity that `lower_bound` finds is that of a node.
lower_bound-id :
    (x index key id : ℕ) (ns : List Node)
    → All (λ (m : Node). m.id ≢ x) ns
    → lower_bound (entries_of ns) index ≡ some (key, id)
    → x ≢ id
unfolding lower_bound
lower_bound-id x index key id [] a = λ h _. ground arith
lower_bound-id x index key id (n ∷ ns) a =
    if_both (λ (o : Option Entry). o ≡ some (key, id) → x ≢ id) (ltb n.index index)
      (λ _. lower_bound-id x index key id ns a.1)
      λ _ h. let same : n.id ≡ id = ground arith in λ e. a.0 (same ∙ sym e)

-- The key that it finds is not below the index.
pub lower_bound_ge :
    (index key id : ℕ) (ns : List Node)
    → lower_bound (entries_of ns) index ≡ some (key, id)
    → index ≤ key
unfolding lower_bound
lower_bound_ge index key id [] = λ h. ground arith
lower_bound_ge index key id (n ∷ ns) = ground (arith, lower_bound_ge index key id ns)

module _ (new_id : ℕ) (text : List ℕ) (index : ℕ) where
  abbrev pub new : Node
  new = record { id = new_id; text = text; index = index }

  pub append-put :
      (ns : List Node)
      → lower_bound (entries_of ns) index ≡ none
      → ns ++ new ∷ [] ≡ put new_id text index ns
  unfolding lower_bound put
  append-put [] h = refl
  append-put (n ∷ ns) h = elim (Bool-cases (ltb n.index index)) [
    | inl lt ↦ rw (put, lt) (ap (◌∷◌ n) (append-put ns (ground arith)))
    | inr ge ↦ ground arith
  ]

  -- The map gets an entry where the list gets a node.
  pub assign-put :
      (ns : List Node) (o : Option Entry)
      → lower_bound (entries_of ns) index ≡ o
      → ((key id : ℕ) → o ≡ some (key, id) → index < key)
      → assign (entries_of ns) index new_id ≡ entries_of (put new_id text index ns)
  unfolding lower_bound put assign
  assign-put [] o h above = refl
  assign-put (n ∷ ns) o h above = elim (Bool-cases (ltb n.index index)) [
    | inl lt ↦
        rw (put, assign, lt) (ap (◌∷◌ (n.index, n.id)) (assign-put ns o (ground arith) above))
    | inr ge ↦
        let found : o ≡ some (n.index, n.id) = ground arith in
        let ne : n.index == index ≡ false = ground (arith, above n.index n.id found) in
        rw (put, assign, ge, ne) refl
  ]

  pub overwrite_shorter-put :
      (ns : List Node) (key id : ℕ)
      → Separate ns
      → lower_bound (entries_of ns) index ≡ some (key, id)
      → key ≡ index
      → (overwrite_shorter id text index ns ≡ put new_id text index ns)
        × (entries_of ns ≡ entries_of (put new_id text index ns))
  unfolding lower_bound put overwrite_shorter
  overwrite_shorter-put [] key id s h e = ground arith
  overwrite_shorter-put (n ∷ ns) key id s h e = elim (Bool-cases (ltb n.index index)) [
    | inl lt ↦
        let tail : lower_bound (entries_of ns) index ≡ some (key, id) = ground arith in
        let other : n.id == id ≡ false =
          ground (arith, lower_bound-id n.id index key id ns s.0 tail) in
        let (a, b) = overwrite_shorter-put ns key id s.1 tail e in
        rw (put, overwrite_shorter, lt, other) (ap (◌∷◌ n) a, ap (◌∷◌ (n.index, n.id)) b)
    | inr ge ↦
        let key_is : n.index ≡ key = ground arith in
        let id_is : n.id ≡ id = ground arith in
        let same : n.index == index ≡ true = ground arith in
        let found : n.id == id ≡ true = ground arith in
        rw (put, overwrite_shorter, ge, same, found, ← id_is, key_is ∙ e)
          (
            refl,
            if_both (λ (l : List Node). (index, n.id) ∷ entries_of ns ≡ entries_of l)
                (ltb (length n.text) (length text)) (λ _. refl) λ _. refl,
          )
  ]

  pub insert_before-put :
      (ns : List Node) (key id : ℕ)
      → Separate ns
      → lower_bound (entries_of ns) index ≡ some (key, id)
      → index < key
      → insert_before id new ns ≡ put new_id text index ns
  unfolding lower_bound put insert_before
  insert_before-put [] key id s h e = ground arith
  insert_before-put (n ∷ ns) key id s h e = elim (Bool-cases (ltb n.index index)) [
    | inl lt ↦
        let tail : lower_bound (entries_of ns) index ≡ some (key, id) = ground arith in
        let other : n.id == id ≡ false =
          ground (arith, lower_bound-id n.id index key id ns s.0 tail) in
        rw (put, insert_before, lt, other) (ap (◌∷◌ n) (insert_before-put ns key id s.1 tail e))
    | inr ge ↦
        let above : n.index == index ≡ false = ground arith in
        let found : n.id == id ≡ true = ground arith in
        rw (put, insert_before, ge, above, found) refl
  ]
