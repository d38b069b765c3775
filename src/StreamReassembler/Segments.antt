-- ===== src/StreamReassembler/Segments.antt =====
-- The set `_used_byte` of libsponge/stream_reassembler.cc: a `std::set` of pairs, the ranges of bytes
-- that have not been stored yet. The set is its elements in ascending order.
use cs144_lab_assignment.Common.{
  ℕ, suc, ◌-◌, Bool, ◌&&◌, ◌||◌, List, [], ◌∷◌, ◌++◌, ltb, leb, ◌==◌, if◌then◌else◌, add64, sub64,
  min, drop,
}

-- `std::pair<size_t, size_t>`: from the first position up to the second.
abbrev pub Segment : Type 0
Segment = ℕ × ℕ

-- `operator<` of pairs.
abbrev pub less : Segment → Segment → Bool
less p q = ltb p.0 q.0 || (p.0 == q.0 && ltb p.1 q.1)

abbrev pub same : Segment → Segment → Bool
same p q = p.0 == q.0 && p.1 == q.1

-- `std::set::lower_bound`, as a position from the front.
unfoldable pub lower_bound : List Segment → Segment → ℕ
lower_bound [] q = 0
lower_bound (p ∷ ps) q = if less p q then suc (lower_bound ps q) else 0

-- `std::set::insert`; an element that is there is not inserted again.
unfoldable pub insert : Segment → List Segment → List Segment
insert q [] = q ∷ []
insert q (p ∷ ps) = if less p q then p ∷ insert q ps else if same p q then p ∷ ps else q ∷ p ∷ ps

-- `std::set::erase`
unfoldable pub erase : Segment → List Segment → List Segment
erase q [] = []
erase q (p ∷ ps) = if same p q then ps else p ∷ erase q ps

-- What the loop over the set collects: `_stored_bytes`, `_need_to_erase` and `_need_to_insert`.
pub record Changes : Type 0 where
  pub stored_bytes : ℕ
  pub to_erase : List Segment
  pub to_insert : List Segment

-- `push_back` of a segment if it is not empty.
abbrev pub push_nonempty : List Segment → ℕ → ℕ → List Segment
push_nonempty ps a b = if ltb a b then ps ++ (a, b) ∷ [] else ps

-- `StreamReassembler::remove_segement`: take the range from `l` up to `r` out of one free segment.
unfoldable pub remove_segment : Segment → ℕ → ℕ → Changes → Changes
remove_segment (a, b) l r c =
    if leb b l || leb r a
    then c
    else if leb a l
    then record {
      stored_bytes = add64 c.stored_bytes (sub64 (min r b) l);
      to_erase = c.to_erase ++ (a, b) ∷ [];
      to_insert = push_nonempty (push_nonempty c.to_insert a l) r b;
    }
    else record {
      stored_bytes = add64 c.stored_bytes (sub64 (min r b) a);
      to_erase = c.to_erase ++ (a, b) ∷ [];
      to_insert = push_nonempty c.to_insert r b;
    }

-- The loop from the position `at` up to the position `last`, which is visited too; it ends sooner at
-- the end of the set. The list holds the elements from `at` on.
unfoldable pub scan : ℕ → ℕ → ℕ → ℕ → List Segment → Changes → Changes
scan at last l r [] c = c
scan at last l r (p ∷ ps) c =
    let c' = remove_segment p l r c in
    let rest = scan (suc at) last l r ps c' in if at == last then c' else rest

unfoldable pub erase_all : List Segment → List Segment → List Segment
erase_all [] ps = ps
erase_all (q ∷ qs) ps = erase_all qs (erase q ps)

unfoldable pub insert_all : List Segment → List Segment → List Segment
insert_all [] ps = ps
insert_all (q ∷ qs) ps = insert_all qs (insert q ps)

-- The first segment that can meet the range: the one before `lower_bound`, if there is one.
abbrev pub first_touched : List Segment → ℕ → ℕ
first_touched ps l = let i = lower_bound ps (l, l) in if i == 0 then 0 else i - 1

-- The part of `push_substring` under "Calculate stored bytes", for the range from `l` up to `r`.
unfoldable pub store_range : ℕ → List Segment → ℕ → ℕ → ℕ × List Segment
store_range stored ps l r =
    let at = first_touched ps l in
    let c =
      scan at (lower_bound ps (r, r)) l r (drop at ps)
        (record { stored_bytes = stored; to_erase = []; to_insert = [] }) in
    (c.stored_bytes, insert_all c.to_insert (erase_all c.to_erase ps))
