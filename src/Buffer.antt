-- ===== src/Buffer.antt =====
-- libsponge/util/buffer.hh and buffer.cc: a read-only string that can discard bytes from the front,
-- and a sequence of such strings. A byte is a number. A `shared_ptr<string>` is an option of the
-- bytes, since nobody writes through it; `none` is the empty pointer.
pub mod Laws
pub mod Views
use cs144_lab_assignment.Common.{
  ℕ, ◌+◌, ◌-◌, List, [], ◌∷◌, ◌++◌, Option, none, some, length, drop, ltb, ◌==◌, if◌then◌else◌,
  add64,
}

pub record Buffer : Type 0 where
  pub storage : Option (List ℕ)
  pub starting_offset : ℕ

-- `Buffer()`
abbrev pub empty : Buffer
empty = record { storage = none; starting_offset = 0 }

-- `Buffer(std::string &&)`
unfoldable pub of_string : List ℕ → Buffer
of_string s = record { storage = some s; starting_offset = 0 }

-- `Buffer::str`, the same bytes as `Buffer::copy` and the conversion to `string_view`.
unfoldable pub str : Buffer → List ℕ
str b = elim b.storage [ none ↦ [] | some s ↦ drop b.starting_offset s ]

unfoldable pub size : Buffer → ℕ
unfolding str
size b = length (str b)

-- The last statement of `Buffer::remove_prefix`: storage that is used up is let go.
release_used : Option (List ℕ) → ℕ → Buffer
release_used none offset = record { storage = none; starting_offset = offset }
release_used (some s) offset =
    if offset == length s
    then record { storage = none; starting_offset = offset }
    else record { storage = some s; starting_offset = offset }

-- `Buffer::remove_prefix`; `none` is the exception `out_of_range`.
unfoldable pub remove_prefix : Buffer → ℕ → Option Buffer
unfolding size release_used
remove_prefix b n =
    if ltb (size b) n then none else some (release_used b.storage (add64 b.starting_offset n))

-- `BufferList`, front first.
abbrev pub BufferList : Type 0
BufferList = List Buffer

-- `BufferList::append`
unfoldable pub append : BufferList → BufferList → BufferList
append bs other = bs ++ other

-- `BufferList::concatenate`
unfoldable pub concatenate : BufferList → List ℕ
concatenate [] = []
concatenate (b ∷ bs) = str b ++ concatenate bs

-- `BufferList::size`
unfoldable pub list_size : BufferList → ℕ
list_size [] = 0
list_size (b ∷ bs) = add64 (size b) (list_size bs)

-- `BufferList::operator Buffer`; `none` is the `runtime_error` for a list of several buffers.
unfoldable pub to_buffer : BufferList → Option Buffer
to_buffer [] = some empty
to_buffer (b ∷ []) = some b
to_buffer (b ∷ c ∷ bs) = none

-- `BufferList::remove_prefix`; `none` is an `out_of_range` of the list or of its front buffer.
unfoldable pub list_remove_prefix : BufferList → ℕ → Option BufferList
list_remove_prefix [] n = if n == 0 then some [] else none
list_remove_prefix (b ∷ bs) n =
    let rest = list_remove_prefix bs (n - size b) in
    if n == 0
    then some (b ∷ bs)
    else if ltb n (size b)
    then elim (remove_prefix b n) [ none ↦ none | some b' ↦ some (b' ∷ bs) ]
    else rest

-- `BufferViewList`: a `string_view` for each part, front first.
abbrev pub BufferViewList : Type 0
BufferViewList = List (List ℕ)

-- `BufferViewList(buffers)`
unfoldable pub views_of : BufferList → BufferViewList
views_of [] = []
views_of (b ∷ bs) = str b ∷ views_of bs

-- `BufferViewList::remove_prefix`; `none` is the exception `out_of_range`.
unfoldable pub view_remove_prefix : BufferViewList → ℕ → Option BufferViewList
view_remove_prefix [] n = if n == 0 then some [] else none
view_remove_prefix (v ∷ vs) n =
    let rest = view_remove_prefix vs (n - length v) in
    if n == 0 then some (v ∷ vs) else if ltb n (length v) then some (drop n v ∷ vs) else rest

-- `BufferViewList::size`
unfoldable pub view_size : BufferViewList → ℕ
view_size [] = 0
view_size (v ∷ vs) = add64 (length v) (view_size vs)

-- The bytes of `BufferViewList::as_iovecs`, in order.
unfoldable pub flatten : BufferViewList → List ℕ
flatten [] = []
flatten (v ∷ vs) = v ++ flatten vs
