-- ===== src/Buffer/Laws.antt =====
-- Lemmas on the buffers of libsponge/util/buffer.cc and on lists of them.
use cs144_lab_assignment.Common.{
  ℕ, ◌-◌, ◌≤◌, ◌<◌, ◌^◌, ◌≡◌, refl, ap, sym, ◌∙◌, List, [], ◌∷◌, ◌++◌, Option, none, some, length,
  drop, drop-drop, drop_all, append-nil, drop-nil, if_both, ==→eq, ltb→le, append_assoc,
  length-drop, length-append, drop-append_ge, drop-append_le, ltb, ◌==◌, add64, arith, Bool-cases,
  ltb→lt, inl, inr,
}
use cs144_lab_assignment.Buffer.{
  Buffer, BufferList, str, size, of_string, release_used, remove_prefix, concatenate,
  list_remove_prefix,
}

-- A buffer whose offset stays inside its storage, of a length that `size_t` can hold.
abbrev pub IsValid : Buffer → Type 0
IsValid b = elim b.storage [
  | none ↦ Unit {0}
  | some s ↦ (b.starting_offset ≤ length s) × (length s < 2 ^ 64)
]

pub str-of_string : (s : List ℕ) → str (of_string s) ≡ s
unfolding str of_string
str-of_string s = refl

pub size-of_string : (s : List ℕ) → size (of_string s) ≡ length s
unfolding size
size-of_string s = ap length (str-of_string s)

pub of_string-IsValid : (s : List ℕ) → length s < 2 ^ 64 → IsValid (of_string s)
unfolding of_string
of_string-IsValid s h = omega arith

str-release_used : (s : List ℕ) (o : ℕ) → str (release_used (some s) o) ≡ drop o s
unfolding str release_used
str-release_used s o = elim (Bool-cases (o == length s)) [
  | inl e ↦ rw e (sym (drop_all o s (ground arith)))
  | inr e ↦ rw e
]

release_used-IsValid :
    (s : List ℕ) (o : ℕ) → o ≤ length s → length s < 2 ^ 64 → IsValid (release_used (some s) o)
unfolding release_used
release_used-IsValid s o h k = ground arith

abbrev pub Removes : List ℕ → ℕ → Option Buffer → Type 0
Removes s n r = (b : Buffer) × (r ≡ some b) × (str b ≡ drop n s) × IsValid b

remove_prefix-some :
    (s : List ℕ) (o n : ℕ)
    → o ≤ length s
    → length s < 2 ^ 64
    → n ≤ length s - o
    → Removes (drop o s) n (remove_prefix (record { storage = some s; starting_offset = o }) n)
unfolding remove_prefix size str
remove_prefix-some s o n h k le = (
  release_used (some s) (add64 o n),
  ground (arith, length-drop o s),
  rw (str-release_used s (add64 o n), drop-drop n o s) (ap (λ (i : ℕ). drop i s) (omega arith)),
  release_used-IsValid s (add64 o n) (omega arith) k,
)

remove_prefix-none :
    (o n : ℕ)
    → n ≤ 0
    → Removes [] n (remove_prefix (record { storage = none; starting_offset = o }) n)
unfolding remove_prefix size str release_used
remove_prefix-none o n h =
    (record { storage = none; starting_offset = add64 o n }, ground arith, sym (drop-nil n), tt)

remove_prefix-parts :
    (st : Option (List ℕ)) (o n : ℕ)
    → IsValid (record { storage = st; starting_offset = o })
    → n ≤ size (record { storage = st; starting_offset = o })
    → Removes
        (str (record { storage = st; starting_offset = o }))
        n
        (remove_prefix (record { storage = st; starting_offset = o }) n)
unfolding size str
remove_prefix-parts none o n v h = remove_prefix-none o n h
remove_prefix-parts (some s) o n v h =
    remove_prefix-some s o n v.0 v.1 (omega (arith, length-drop o s))

-- `Buffer::remove_prefix` within the size drops exactly that many bytes, throws nothing, and keeps
-- the buffer valid.
pub remove_prefix-Removes :
    (b : Buffer) (n : ℕ) → IsValid b → n ≤ size b → Removes (str b) n (remove_prefix b n)
remove_prefix-Removes b n v h = remove_prefix-parts b.storage b.starting_offset n v h

abbrev pub AllValid : BufferList → Type 0
AllValid [] = Unit {0}
AllValid (b ∷ bs) = IsValid b × AllValid bs

pub AllValid-append : (bs cs : BufferList) → AllValid bs → AllValid cs → AllValid (bs ++ cs)
AllValid-append [] cs u v = v
AllValid-append (b ∷ bs) cs u v = (u.0, AllValid-append bs cs u.1 v)

pub concatenate-of_string : (s : List ℕ) → concatenate (of_string s ∷ []) ≡ s
unfolding concatenate
concatenate-of_string s = rw (str-of_string s) (append-nil s)

pub concatenate-append :
    (bs cs : BufferList) → concatenate (bs ++ cs) ≡ concatenate bs ++ concatenate cs
unfolding concatenate
concatenate-append [] cs = refl
concatenate-append (b ∷ bs) cs =
    rw (concatenate-append bs cs, append_assoc (str b) (concatenate bs) (concatenate cs))

-- What a loop that removes a prefix of a list of buffers has to do.
abbrev pub RemovesAll : BufferList → ℕ → Option BufferList → Type 0
RemovesAll bs n r =
    (cs : BufferList) × (r ≡ some cs) × (concatenate cs ≡ drop n (concatenate bs)) × AllValid cs

-- The two ways on from a front buffer: it is cut, or it is dropped whole.
pub RemovesAll-cut :
    (b : Buffer) (bs : BufferList) (n : ℕ)
    → AllValid (b ∷ bs)
    → n ≤ size b
    → RemovesAll (b ∷ bs) n (elim (remove_prefix b n) [ none ↦ none | some b' ↦ some (b' ∷ bs) ])
unfolding concatenate size
RemovesAll-cut b bs n v h =
    let (b', e, s, w) = remove_prefix-Removes b n v.0 h in
    (b' ∷ bs, rw e refl, rw s (sym (drop-append_le n (str b) (concatenate bs) h)), (w, v.1))

pub RemovesAll-skip :
    (b : Buffer) (bs : BufferList) (n : ℕ) {r : Option BufferList}
    → size b ≤ n
    → RemovesAll bs (n - size b) r
    → RemovesAll (b ∷ bs) n r
unfolding concatenate size
RemovesAll-skip b bs n h (cs, e, s, v) =
    (cs, e, s ∙ sym (drop-append_ge n (str b) (concatenate bs) h), v)

pub RemovesAll-zero : (bs : BufferList) (n : ℕ) → AllValid bs → n ≡ 0 → RemovesAll bs n (some bs)
RemovesAll-zero bs n v e = (bs, refl, rw e refl, v)

-- `BufferList::remove_prefix` within the size throws nothing and drops exactly that many bytes of
-- the concatenation.
pub list_remove_prefix-RemovesAll :
    (bs : BufferList) (n : ℕ)
    → AllValid bs
    → n ≤ length (concatenate bs)
    → RemovesAll bs n (list_remove_prefix bs n)
unfolding list_remove_prefix concatenate size
list_remove_prefix-RemovesAll [] n v h = ([], ground arith, sym (drop-nil n), tt)
list_remove_prefix-RemovesAll (b ∷ bs) n v h =
    if_both (RemovesAll (b ∷ bs) n) (n == 0) (λ e. RemovesAll-zero (b ∷ bs) n v (==→eq _ _ e))
      λ _.
        if_both (RemovesAll (b ∷ bs) n) (ltb n (size b))
          (λ e. RemovesAll-cut b bs n v (omega (arith, ltb→lt _ _ e)))
          λ e. RemovesAll-skip b bs n (ltb→le _ _ e) (
            list_remove_prefix-RemovesAll bs (n - size b) v.1
              (omega (arith, length-append (str b) (concatenate bs))))
