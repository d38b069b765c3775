-- ===== src/FileDescriptor/Progress.antt =====
-- `FileDescriptor::write` of libsponge/util/file_descriptor.cc where the kernel always takes something.
use cs144_lab_assignment.Common.{
  ℕ, zero, suc, ◌+◌, ◌-◌, ◌≤◌, ◌<◌, ◌^◌, ◌≡◌, refl, ap, ◌∙◌, Bool, true, false, not, ◌&&◌, ◌||◌,
  some, length, length-drop, ltb, leb, ◌==◌, add64, arith, inl, inr, Bool-cases,
}
use cs144_lab_assignment.Buffer.{BufferViewList, view_size, flatten}
use cs144_lab_assignment.SystemCall.{ok, returned, system_call}
use cs144_lab_assignment.FileDescriptor.{
  FdWrapper, Writev, Written, Pass, wrote, pass, write_loop, write, register_write, after,
}
use cs144_lab_assignment.FileDescriptor.Writing.{
  write-Wrote, view_size-flatten, view_remove_prefix_lem,
}

-- A kernel that takes some of what it is offered, as a blocking descriptor does without an error.
abbrev pub Accepts : Writev → Type 0
Accepts writev =
    (i : ℕ) (vs : BufferViewList)
    → (n : ℕ) × (writev i vs ≡ returned n)
      × (n ≤ length (flatten vs))
      × (0 < length (flatten vs) → 0 < n)

-- A pass that goes on.
abbrev GoesOn : BufferViewList → Pass → Type 0
GoesOn vs p =
    (n : ℕ) × (vs' : BufferViewList) × (p ≡ wrote n vs')
    × (length (flatten vs') ≡ length (flatten vs) - n)
    × (0 < length (flatten vs) → 0 < n)

pass-GoesOn :
    (writev : Writev) (i : ℕ) (vs : BufferViewList)
    → Accepts writev
    → length (flatten vs) < 2 ^ 63
    → GoesOn vs (pass (writev i vs) vs)
pass-GoesOn writev i vs accepts small =
    let (n, e, le, some_taken) = accepts i vs in
    let size : view_size vs ≡ length (flatten vs) = view_size-flatten vs (omega arith) in
    let (vs', left, bytes) = view_remove_prefix_lem vs n le in
    let no_error : n == 0 && not (view_size vs == 0) ≡ false = ground arith in
    let no_excess : ltb (view_size vs) n || leb (2 ^ 63) (view_size vs) ≡ false = ground arith in
    rw e (
      unfold pass system_call in
      rw (no_error, no_excess, left)
        (n, vs', refl, ap length bytes ∙ length-drop n (flatten vs), some_taken))

-- A loop that returns a number.
abbrev Returns : Written → Type 0
Returns out = (n : ℕ) × (out.result ≡ some (ok n))

write_loop-Returns :
    (writev : Writev) (fuel i : ℕ) (f : FdWrapper) (vs : BufferViewList) (write_all : Bool)
    (total : ℕ)
    → Accepts writev
    → length (flatten vs) < fuel
    → length (flatten vs) < 2 ^ 63
    → Returns (write_loop writev fuel i f vs write_all total)
unfolding write_loop after
write_loop-Returns writev zero i f vs write_all total accepts h small = absurd (omega arith)
write_loop-Returns writev (suc fuel) i f vs write_all total accepts h small =
    let (n, vs', e, left, some_taken) = pass-GoesOn writev i vs accepts small in
    let size : view_size vs' ≡ length (flatten vs') = view_size-flatten vs' (omega arith) in
    elim (Bool-cases (write_all && not (view_size vs' == 0))) [
      | inr stop ↦ rw (e, after, stop) (add64 total n, refl)
      | inl more ↦
          let some_left : 0 < length (flatten vs') = ground arith in
          rw (e, after, more)
            (write_loop-Returns writev fuel (i + 1) (register_write f) vs' write_all (add64 total n)
              accepts (omega arith) (omega arith))
    ]

-- Where the kernel takes some of the bytes whenever there are any, `write` of all of fewer than 2 ^ 63
-- bytes returns their number, and the kernel has taken them all, in order.
pub write_all_returns :
    (writev : Writev) (f : FdWrapper) (vs : BufferViewList)
    → Accepts writev
    → length (flatten vs) < 2 ^ 63
    → let out = write writev f vs true in
      (out.result ≡ some (ok (length (flatten vs)))) × (out.taken ≡ flatten vs)
write_all_returns writev f vs accepts small =
    let size : view_size vs ≡ length (flatten vs) = view_size-flatten vs (omega arith) in
    let (n, e) : Returns (write writev f vs true) =
      unfold write in
      write_loop-Returns writev (suc (view_size vs)) 0 f vs true 0 accepts (omega arith) small in
    let w = write-Wrote writev f vs true small in
    let all = w.all n e refl in
    (e ∙ ap (λ (k : ℕ). some (ok k)) (omega (arith, w.count n e, ap length all)), all)
