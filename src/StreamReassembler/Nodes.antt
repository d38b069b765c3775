-- ===== src/StreamReassembler/Nodes.antt =====
-- The list `_str_to_assemble` and the map `_existed` of libsponge/stream_reassembler.cc. The map
-- holds iterators into the list: a list node has an identity `id`, and an iterator is that identity.
use cs144_lab_assignment.Common.{
  ℕ, List, [], ◌∷◌, ◌++◌, Option, none, some, length, ltb, ◌==◌, if◌then◌else◌, suc,
}

pub record Node : Type 0 where
  pub id : ℕ
  pub text : List ℕ
  pub index : ℕ

-- An entry of `std::map<size_t, iterator>`: the index and the node.
abbrev pub Entry : Type 0
Entry = ℕ × ℕ

-- The list, the map in ascending order of its keys, and the identity of the next node.
pub record Store : Type 0 where
  pub nodes : List Node
  pub existed : List Entry
  pub next_id : ℕ

-- `std::map::lower_bound`: the first entry whose key is not below the index.
unfoldable pub lower_bound : List Entry → ℕ → Option Entry
lower_bound [] index = none
lower_bound (e ∷ es) index = if ltb e.0 index then lower_bound es index else some e

-- `_existed[index] = id`
unfoldable pub assign : List Entry → ℕ → ℕ → List Entry
assign [] index id = (index, id) ∷ []
assign (e ∷ es) index id =
    if ltb e.0 index
    then e ∷ assign es index id
    else if e.0 == index
    then (index, id) ∷ es
    else (index, id) ∷ e ∷ es

-- `_existed.erase(index)`
unfoldable pub erase : List Entry → ℕ → List Entry
erase [] index = []
erase (e ∷ es) index = if e.0 == index then es else e ∷ erase es index

-- `*it = node` for the iterator `id`, if the node's text is shorter than the new one. An iterator
-- that names no node would be undefined behaviour and changes nothing here.
unfoldable pub overwrite_shorter : ℕ → List ℕ → ℕ → List Node → List Node
overwrite_shorter id text index [] = []
overwrite_shorter id text index (n ∷ ns) =
    if n.id == id
    then (if ltb (length n.text) (length text)
        then record { id = id; text = text; index = index } ∷ ns
        else n ∷ ns)
    else n ∷ overwrite_shorter id text index ns

-- `_str_to_assemble.insert(it, node)` for the iterator `id`: just before its node.
unfoldable pub insert_before : ℕ → Node → List Node → List Node
insert_before id new [] = []
insert_before id new (n ∷ ns) = if n.id == id then new ∷ n ∷ ns else n ∷ insert_before id new ns

-- The part of `push_substring` that stores the text at its index.
unfoldable pub store_text : Store → List ℕ → ℕ → Store
store_text s text index = elim (lower_bound s.existed index) [
  | none ↦ record {
    nodes = s.nodes ++ new ∷ [];
    existed = assign s.existed index s.next_id;
    next_id = suc s.next_id;
  }
  | some (key, id) ↦
      if key == index
      then record s { nodes = overwrite_shorter id text index s.nodes }
      else record {
        nodes = insert_before id new s.nodes;
        existed = assign s.existed index s.next_id;
        next_id = suc s.next_id;
      }
]
  where
    new : Node
    new = record { id = s.next_id; text = text; index = index }
