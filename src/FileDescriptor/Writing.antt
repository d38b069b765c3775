-- ===== src/FileDescriptor/Writing.antt =====
-- `FileDescriptor::write` of libsponge/util/file_descriptor.cc, whatever the kernel answers.
use cs144_lab_assignment.Common.{
  ℕ, zero, suc, ◌+◌, ◌-◌, ◌≤◌, ◌<◌, ◌^◌, ◌≡◌, refl, ap, sym, subst, ◌∙◌, Bool, true, false, not,
  ◌&&◌, ◌||◌, List, [], ◌∷◌, ◌++◌, Option, some, length, take, drop, length-take, length-drop,
  length-append, take-append-drop, take-add, drop-nil, drop-append_le, drop-append_ge, take_all,
  if_both, ltb, leb, ltb→lt, ltb→le, ◌==◌, ==→eq, add64, arith, inl, inr, Bool-cases,
}
use cs144_lab_assignment.Buffer.{BufferViewList, view_remove_prefix, view_size, flatten}
use cs144_lab_assignment.SystemCall.{
  Exception, Result, ok, throws, SysReturn, returned, failed, system_call,
}
use cs144_lab_assignment.FileDescriptor.{
  FdWrapper, Writev, Written, Pass, wrote, stopped, pass, write_loop, write, register_write, after,
}

pub view_size-flatten :
    (vs : BufferViewList) → length (flatten vs) < 2 ^ 64 → view_size vs ≡ length (flatten vs)
unfolding view_size flatten
view_size-flatten [] h = refl
view_size-flatten (v ∷ vs) h =
    let e = length-append v (flatten vs) in
    let r = view_size-flatten vs (omega (arith, e)) in omega (arith, e)

-- The views that are left of an amount taken off, if it was not too much.
abbrev pub CutTo : List ℕ → Option BufferViewList → Type 0
CutTo bytes o = (vs : BufferViewList) × (o ≡ some vs) × (flatten vs ≡ bytes)

-- Taking bytes off the views takes them off their concatenation.
pub view_remove_prefix_lem :
    (vs : BufferViewList) (n : ℕ)
    → n ≤ length (flatten vs)
    → CutTo (drop n (flatten vs)) (view_remove_prefix vs n)
unfolding view_remove_prefix flatten
view_remove_prefix_lem [] n h = ([], ground arith, sym (drop-nil n))
view_remove_prefix_lem (v ∷ vs) n h =
    let all = length-append v (flatten vs) in
    let P : Option BufferViewList → Type 0 = CutTo (drop n (v ++ flatten vs)) in
    if_both P (n == 0)
      (λ z. (v ∷ vs, refl, sym (ap (λ (k : ℕ). drop k (v ++ flatten vs)) (==→eq n 0 z))))
      λ _.
        if_both P (ltb n (length v))
          (λ l.
            let lt : n < length v = ltb→lt _ _ l in
            (drop n v ∷ vs, refl, sym (drop-append_le n v (flatten vs) (omega arith))))
          λ l.
            let ge : length v ≤ n = ltb→le _ _ l in
            subst (λ (bytes : List ℕ). CutTo bytes (view_remove_prefix vs (n - length v)))
              (sym (drop-append_ge n v (flatten vs) ge))
              (view_remove_prefix_lem vs (n - length v) (omega (arith, all)))

-- A pass of the loop: it takes bytes that there are, at least one if there is one, or it throws.
abbrev Passes : List ℕ → Pass → Type 0
Passes bytes (stopped e) = Unit {0}
Passes bytes (wrote n vs) =
    (n ≤ length bytes)
    × (flatten vs ≡ drop n bytes)
    × (length bytes ≡ 0 → n ≡ 0)
    × (n ≡ 0 → length bytes ≡ 0)

pass-Passes :
    (answer : SysReturn) (vs : BufferViewList)
    → length (flatten vs) < 2 ^ 63
    → Passes (flatten vs) (pass answer vs)
unfolding pass system_call
pass-Passes (failed errno) vs h = tt
pass-Passes (returned n) vs h =
    let P : Pass → Type 0 = Passes (flatten vs) in
    let size : view_size vs ≡ length (flatten vs) = view_size-flatten vs (omega arith) in
    if_both P (n == 0 && not (view_size vs == 0)) (λ _. tt)
      λ some_taken.
        if_both P (ltb (view_size vs) n || leb (2 ^ 63) (view_size vs)) (λ _. tt)
          λ fits.
            let le : n ≤ length (flatten vs) = ground arith in
            let (vs', e, c) = view_remove_prefix_lem vs n le in
            rw e (le, c, λ z. omega arith, λ z. ground arith)

-- What a call of `write` has done: the kernel has taken a prefix of the bytes, the number returned is
-- that of the bytes taken, and these are all if all were to be written.
pub record Wrote (bytes : List ℕ) (write_all : Bool) (total : ℕ) (out : Written) : Type 0 where
  pub prefix : out.taken ≡ take (length out.taken) bytes
  pub ended : (r : Result ℕ) × (out.result ≡ some r)
  pub count : (n : ℕ) → out.result ≡ some (ok n) → n ≡ total + length out.taken
  pub all : (n : ℕ) → out.result ≡ some (ok n) → write_all ≡ true → out.taken ≡ bytes

-- The end of a pass, if the rest of the loop keeps what is stated.
after-Wrote :
    (again : FdWrapper → BufferViewList → ℕ → Written) (fuel : ℕ) (f : FdWrapper)
    (vs : BufferViewList) (write_all : Bool) (total : ℕ)
    → ((f' : FdWrapper) (vs' : BufferViewList) (total' : ℕ)
        → length (flatten vs') < fuel
        → total' + length (flatten vs') < 2 ^ 63
        → Wrote (flatten vs') write_all total' (again f' vs' total'))
    → length (flatten vs) < suc fuel
    → total + length (flatten vs) < 2 ^ 63
    → (p : Pass) → Passes (flatten vs) p
    → Wrote (flatten vs) write_all total (after again f vs write_all total p)
unfolding after
after-Wrote again fuel f vs write_all total keep h small (stopped e) _ = record {
  prefix = refl;
  ended = (throws e, refl);
  count = λ n x. ground arith;
  all = λ n x. ground arith;
}
after-Wrote again fuel f vs write_all total keep h small (wrote n vs') (le, c, z, y) =
    let sum : add64 total n ≡ total + n = omega arith in
    let left : length (flatten vs') ≡ length (flatten vs) - n =
      ap length c ∙ length-drop n (flatten vs) in
    let took : length (take n (flatten vs)) ≡ n = length-take n (flatten vs) ∙ omega arith in
    let size : view_size vs' ≡ length (flatten vs') = view_size-flatten vs' (omega arith) in
    elim (Bool-cases (write_all && not (view_size vs' == 0))) [
      | inl e ↦
          let more : 0 < length (flatten vs') = ground arith in
          let took_some : 0 < n = ground (arith, y) in
          let w' : Written = again (register_write f) vs' (add64 total n) in
          let size' = length-append (take n (flatten vs)) w'.taken in
          let w = keep (register_write f) vs' (add64 total n) (omega arith) (omega arith) in
          rw (after, e)
            (record {
              prefix =
                  ap (◌++◌ (take n (flatten vs))) (w.prefix ∙ ap (take (length w'.taken)) c)
                  ∙ sym (take-add (length w'.taken) n (flatten vs))
                  ∙ ap (λ (k : ℕ). take k (flatten vs)) (omega (arith, size', took));
              ended = w.ended;
              count = λ k x. omega (arith, w.count k x, size', took);
              all = λ k x a.
                  ap (◌++◌ (take n (flatten vs))) (w.all k x a ∙ c)
                  ∙ take-append-drop n (flatten vs);
            })
      | inr e ↦
          rw (after, e)
            (record {
              prefix = ap (λ (k : ℕ). take k (flatten vs)) (sym took);
              ended = (ok (add64 total n), refl);
              count = λ k x. ground arith;
              all = λ k x a. take_all n (flatten vs) (ground arith);
            })
    ]

write_loop-Wrote :
    (writev : Writev) (fuel i : ℕ) (f : FdWrapper) (vs : BufferViewList) (write_all : Bool)
    (total : ℕ)
    → length (flatten vs) < fuel
    → total + length (flatten vs) < 2 ^ 63
    → Wrote (flatten vs) write_all total (write_loop writev fuel i f vs write_all total)
unfolding write_loop
write_loop-Wrote writev zero i f vs write_all total h small = absurd (omega arith)
write_loop-Wrote writev (suc fuel) i f vs write_all total h small =
    after-Wrote _ fuel f vs write_all total
      (λ f' vs' total'. write_loop-Wrote writev fuel (i + 1) f' vs' write_all total') h small
      (pass (writev i vs) vs) (pass-Passes (writev i vs) vs (omega arith))

-- Whatever the kernel answers, `write` of fewer than 2 ^ 63 bytes ends; the kernel has then taken a
-- prefix of the bytes, also where the call throws; a number that is returned is that of the bytes
-- taken; and these are all the bytes if all were to be written.
pub write-Wrote :
    (writev : Writev) (f : FdWrapper) (vs : BufferViewList) (write_all : Bool)
    → length (flatten vs) < 2 ^ 63
    → Wrote (flatten vs) write_all 0 (write writev f vs write_all)
unfolding write
write-Wrote writev f vs write_all small =
    let size : view_size vs ≡ length (flatten vs) = view_size-flatten vs (omega arith) in
    write_loop-Wrote writev (suc (view_size vs)) 0 f vs write_all 0 (omega arith) (omega arith)

-- A single pass that throws has taken nothing.
once-taken :
    (again : FdWrapper → BufferViewList → ℕ → Written) (f : FdWrapper) (vs : BufferViewList)
    (e : Exception) (p : Pass)
    → (after again f vs false 0 p).result ≡ some (throws e)
    → (after again f vs false 0 p).taken ≡ []
unfolding after
once-taken again f vs e (stopped x) h = refl
once-taken again f vs e (wrote n vs') h = ground arith

pub write_once-taken :
    (writev : Writev) (f : FdWrapper) (vs : BufferViewList) (e : Exception)
    → (write writev f vs false).result ≡ some (throws e)
    → (write writev f vs false).taken ≡ []
unfolding write write_loop
write_once-taken writev f vs e = once-taken _ f vs e (pass (writev 0 vs) vs)
