-- ===== src/Buffer/Views.antt =====
-- `BufferViewList` of libsponge/util/buffer.cc against `BufferList`.
use cs144_lab_assignment.Common.{
  ℕ, ◌-◌, ◌<◌, ◌≡◌, refl, ap, sym, List, [], ◌∷◌, Option, none, some, length, ltb, ◌==◌, Bool-cases,
  inl, inr, ltb→lt, arith,
}
use cs144_lab_assignment.Buffer.{
  BufferList, BufferViewList, str, size, list_remove_prefix, views_of, view_remove_prefix,
}
use cs144_lab_assignment.Buffer.Laws.{AllValid, remove_prefix-Removes}

-- The views of a list of buffers, if there is one.
abbrev pub shown : Option BufferList → Option BufferViewList
shown none = none
shown (some bs) = some (views_of bs)

-- Taking bytes off the front of the views of a list of valid buffers is taking them off the list and
-- viewing what is left; in particular both throw, or neither does.
pub view_remove_prefix-views_of :
    (bs : BufferList) (n : ℕ)
    → AllValid bs
    → view_remove_prefix (views_of bs) n ≡ shown (list_remove_prefix bs n)
unfolding view_remove_prefix views_of list_remove_prefix size
view_remove_prefix-views_of [] n v = ground arith
view_remove_prefix-views_of (b ∷ bs) n v = elim (Bool-cases (n == 0)) [
  | inl z ↦ rw z refl
  | inr z ↦ elim (Bool-cases (ltb n (length (str b)))) [
    | inl l ↦
        let lt : n < length (str b) = ltb→lt n (length (str b)) l in
        let (b', e, s, w) = remove_prefix-Removes b n v.0 (unfold size in omega arith) in
        rw (z, l, e) (ap (λ (x : List ℕ). some (x ∷ views_of bs)) (sym s))
    | inr l ↦ rw (z, l) (view_remove_prefix-views_of bs (n - length (str b)) v.1)
  ]
]
