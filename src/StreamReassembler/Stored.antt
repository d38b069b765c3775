-- ===== src/StreamReassembler/Stored.antt =====
-- The relation between the list and the map of libsponge/stream_reassembler.cc when a text is stored.
use cs144_lab_assignment.Common.{
  ℕ, suc, ◌≤◌, ◌<◌, ◌≡◌, ◌≢◌, ap, sym, subst, ◌∙◌, inl, inr, Option-cases, Option, none, some, List,
  [], ◌∷◌, length, ltb, ◌==◌, All, All-map, if_both, ltb→lt, ltb→le, ==→eq, ==→ne, arith,
}
use cs144_lab_assignment.StreamReassembler.Nodes.{
  Node, Entry, Store, lower_bound, assign, overwrite_shorter, store_text,
}
use cs144_lab_assignment.StreamReassembler.Mirror.{
  entries_of, Ascending, Separate, put, lower_bound_ge, append-put, assign-put,
  overwrite_shorter-put, insert_before-put,
}

-- The map mirrors the list, whose nodes are in order, with identities of their own.
pub record Mirrors (low : ℕ) (s : Store) : Type 0 where
  pub entries : s.existed ≡ entries_of s.nodes
  pub ascending : Ascending low s.nodes
  pub separate : Separate s.nodes
  pub used : All (λ (n : Node). n.id < s.next_id) s.nodes

pub Ascending-put :
    (id : ℕ) (text : List ℕ) (index low : ℕ) (ns : List Node)
    → low ≤ index
    → Ascending low ns
    → Ascending low (put id text index ns)
unfolding put
Ascending-put id text index low [] h a = (h, tt)
Ascending-put id text index low (n ∷ ns) h a =
    if_both (Ascending low) (ltb n.index index)
      (λ lt. (a.0, Ascending-put id text index (suc n.index) ns (ltb→lt _ _ lt) a.1))
      λ ge.
        if_both (Ascending low) (n.index == index)
          (λ e.
            if_both (Ascending low) (ltb (length n.text) (length text))
              (λ _. rw (← ==→eq n.index index e) a) λ _. a)
          λ ne.
            let lt : index < n.index = omega (arith, ltb→le _ _ ge, ==→ne _ _ ne) in (h, (lt, a.1))

-- What holds of the identities of a list and of the new one holds of those behind.
All-put :
    (P : ℕ → Type 0) (id : ℕ) (text : List ℕ) (index : ℕ) (ns : List Node)
    → P id
    → All (λ (n : Node). P n.id) ns
    → All (λ (n : Node). P n.id) (put id text index ns)
unfolding put
All-put P id text index [] p a = (p, tt)
All-put P id text index (n ∷ ns) p a =
    let Q : List Node → Type 0 = All (λ (m : Node). P m.id) in
    if_both Q (ltb n.index index) (λ _. (a.0, All-put P id text index ns p a.1))
      λ _.
        if_both Q (n.index == index)
          (λ _. if_both Q (ltb (length n.text) (length text)) (λ _. a) λ _. a) λ _. (p, a)

Separate-put :
    (id : ℕ) (text : List ℕ) (index : ℕ) (ns : List Node)
    → All (λ (n : Node). n.id < id) ns
    → Separate ns
    → Separate (put id text index ns)
unfolding put
Separate-put id text index [] u s = (tt, tt)
Separate-put id text index (n ∷ ns) u s =
    if_both Separate (ltb n.index index)
      (λ _. (
        All-put (λ i. i ≢ n.id) id text index ns (λ e. omega (arith, u.0)) s.0,
        Separate-put id text index ns u.1 s.1,
      ))
      λ _.
        if_both Separate (n.index == index)
          (λ _. if_both Separate (ltb (length n.text) (length text)) (λ _. s) λ _. s)
          λ _. (
            All-map {Q = λ (m : Node). m.id ≢ id}
                (λ (m : Node) (lt : m.id < id) (e : m.id ≡ id). omega arith) (n ∷ ns) u,
            s,
          )

-- Lists with the same entries have the same identities.
All-entries :
    (P : ℕ → Type 0) (ns : List Node)
    → All (λ (n : Node). P n.id) ns
    → All (λ (e : Entry). P e.1) (entries_of ns)
All-entries P [] a = tt
All-entries P (n ∷ ns) a = (a.0, All-entries P ns a.1)

entries-All :
    (P : ℕ → Type 0) (ns : List Node)
    → All (λ (e : Entry). P e.1) (entries_of ns)
    → All (λ (n : Node). P n.id) ns
entries-All P [] a = tt
entries-All P (n ∷ ns) a = (a.0, entries-All P ns a.1)

-- A store whose list is the one with the text put in.
abbrev pub Stored : Store → List ℕ → ℕ → Store → Type 0
Stored s text index s' = (s'.nodes ≡ put s.next_id text index s.nodes) × Mirrors 0 s'

-- A store with a new node.
add-Stored :
    (text : List ℕ) (index : ℕ) (s : Store) (nodes : List Node)
    → Mirrors 0 s
    → nodes ≡ put s.next_id text index s.nodes
    → ((key id : ℕ) → lower_bound s.existed index ≡ some (key, id) → index < key)
    → Stored s text index (record {
      nodes = nodes;
      existed = assign s.existed index s.next_id;
      next_id = suc s.next_id;
    })
add-Stored text index s nodes m e above = (
  e,
  rw e (record {
    entries =
        ap (λ (es : List Entry). assign es index s.next_id) m.entries
        ∙ assign-put s.next_id text index s.nodes (lower_bound s.existed index)
            (ap (λ (es : List Entry). lower_bound es index) (sym m.entries)) above;
    ascending = Ascending-put s.next_id text index 0 s.nodes (omega arith) m.ascending;
    separate = Separate-put s.next_id text index s.nodes m.used m.separate;
    used =
        All-put (λ i. i < suc s.next_id) s.next_id text index s.nodes (omega arith)
          (All-map {Q = λ (n : Node). n.id < suc s.next_id}
            (λ (n : Node) (lt : n.id < s.next_id). omega arith) s.nodes m.used);
  }),
)

-- A store whose node at the index may have got the text.
overwrite-Stored :
    (text : List ℕ) (index : ℕ) (s : Store) (key id : ℕ)
    → Mirrors 0 s
    → lower_bound s.existed index ≡ some (key, id)
    → key ≡ index
    → Stored s text index (record s { nodes = overwrite_shorter id text index s.nodes })
overwrite-Stored text index s key id m found e =
    let at : lower_bound (entries_of s.nodes) index ≡ some (key, id) =
      ap (λ (es : List Entry). lower_bound es index) (sym m.entries) ∙ found in
    let (nodes, entries) =
      overwrite_shorter-put s.next_id text index s.nodes key id m.separate at e in
    (
      nodes,
      rw nodes (record {
        entries = m.entries ∙ entries;
        ascending = Ascending-put s.next_id text index 0 s.nodes (omega arith) m.ascending;
        separate = Separate-put s.next_id text index s.nodes m.used m.separate;
        used =
            entries-All (λ i. i < s.next_id) _
              (subst (All (λ (x : Entry). x.1 < s.next_id)) entries
                (All-entries (λ i. i < s.next_id) s.nodes m.used));
      }),
    )

-- Storing a text inserts it into the list, and the map still mirrors the list.
pub store_text-Stored :
    (text : List ℕ) (index : ℕ) (s : Store)
    → Mirrors 0 s
    → Stored s text index (store_text s text index)
unfolding store_text
store_text-Stored text index s m =
    let mirrored : (o : Option Entry)
        → lower_bound s.existed index ≡ o
        → lower_bound (entries_of s.nodes) index ≡ o =
      λ o h. ap (λ (es : List Entry). lower_bound es index) (sym m.entries) ∙ h in
    elim (Option-cases (lower_bound s.existed index)) [
      | inl e ↦
          rw (store_text, e)
            (add-Stored text index s _ m (append-put s.next_id text index s.nodes (mirrored none e))
              λ key id h. ground arith)
      | inr ((key, id), e) ↦
          rw (store_text, e)
            (if_both (Stored s text index) (key == index)
              (λ same. overwrite-Stored text index s key id m e (==→eq key index same))
              λ other.
                let lt : index < key =
                  omega
                    (arith, lower_bound_ge index key id s.nodes (mirrored _ e), ==→ne _ _ other) in
                add-Stored text index s _ m
                  (insert_before-put s.next_id text index s.nodes key id m.separate (mirrored _ e)
                    lt)
                  λ key' id' h. let e' : key ≡ key' = ground arith in omega arith)
    ]
