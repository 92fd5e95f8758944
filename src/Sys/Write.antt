-- ===== src/Sys/Write.antt =====
-- `sys_write` of practica/zeos/sys.c: the whole buffer reaches the console, whatever its length.
use soa_ze_os.Prelude.{
  ℕ, zero, suc, ◌+◌, ◌-◌, ◌≤◌, ◌<◌, ◌≡◌, refl, sym, ◌∙◌, ◌⊎◌, inl, inr, subst, true, false,
  Bool-cases, arith, ltb,
}
use soa_ze_os.Prelude.Int.{ℤ, pos, pos_part, neg_part, eqb_ℤ, ◌-ℤ◌, ltb_ℤ, int_laws}
use soa_ze_os.Utils.{verify_read}
use soa_ze_os.Io.Cursor.{OnScreen}
use soa_ze_os.Kernel.{Kernel}
use soa_ze_os.Sys.{
  tam_buffer, accepts, check_fd, write_chunk, write_loop, write_all, sys_write, err, ebadf, einval,
  efault,
}
use soa_ze_os.Sys.Pieces.{Clear, Wrote, write_chunk-Wrote, Wrote-append, Wrote-zero}

-- The loop has written `done` bytes and left no more than fit the local buffer.
record LoopDone (localbuffer buffer n : ℕ) (k : Kernel) (r : ℕ × ℕ × Kernel) : Type 0 where
  done : ℕ
  sum : done + r.0 ≡ n
  small : r.0 ≤ tam_buffer
  place : r.1 ≡ buffer + done
  wrote : Wrote localbuffer buffer done k r.2

write_loop_lem :
    (fuel localbuffer n buffer : ℕ) (k : Kernel)
    → n ≤ fuel
    → Clear localbuffer buffer n
    → OnScreen k.screen
    → LoopDone localbuffer buffer n k (write_loop fuel localbuffer n buffer k)
unfolding write_loop
write_loop_lem zero localbuffer n buffer k le clear o = record {
  done = 0;
  sum = omega arith;
  small = omega arith;
  place = omega arith;
  wrote = Wrote-zero localbuffer buffer k o;
}
write_loop_lem (suc fuel) localbuffer n buffer k le clear o = elim (Bool-cases (ltb tam_buffer n)) [
  | inr few ↦ rw (few) record {
    done = 0;
    sum = omega arith;
    small = ground arith;
    place = omega arith;
    wrote = Wrote-zero localbuffer buffer k o;
  }
  | inl more ↦
      let lt : tam_buffer < n = ground arith in
      let chunk =
        write_chunk-Wrote localbuffer buffer tam_buffer k (omega arith)
          (elim clear [ inl h ↦ inl (omega arith) | inr h ↦ inr h ]) o in
      let k₁ = (write_chunk localbuffer buffer tam_buffer k).1 in
      let rest =
        write_loop_lem fuel localbuffer (n - tam_buffer) (buffer + tam_buffer) k₁ (omega arith)
          (elim clear [ inl h ↦ inl (omega arith) | inr h ↦ inr (omega arith) ])
          chunk.1.on_screen in
      rw (more, chunk.0)
        record {
          done = tam_buffer + rest.done;
          sum = omega (arith, rest.sum);
          small = rest.small;
          place = rest.place ∙ omega arith;
          wrote =
              Wrote-append localbuffer buffer tam_buffer rest.done k k₁ _
                (elim clear [ inl h ↦ inl (omega (arith, rest.sum)) | inr h ↦ inr h ]) chunk.1
                rest.wrote;
        }
]

write_all_lem :
    (localbuffer buffer n : ℕ) (k : Kernel)
    → Clear localbuffer buffer n
    → OnScreen k.screen
    → ((write_all localbuffer buffer n k).0 ≡ pos n)
      × Wrote localbuffer buffer n k (write_all localbuffer buffer n k).1
unfolding write_all
write_all_lem localbuffer buffer n k clear o =
    let loop = write_loop_lem n localbuffer n buffer k (omega arith) clear o in
    let r = write_loop n localbuffer n buffer k in
    let left = r.0 in
    elim (Bool-cases (ltb 0 left)) [
      | inr none_left ↦
          let all : loop.done ≡ n = ground (arith, loop.sum) in
          rw (none_left) (
            grind (int_laws, loop.sum, all),
            subst (λ d. Wrote localbuffer buffer d k r.2) all loop.wrote,
          )
      | inl some_left ↦
          let chunk =
            write_chunk-Wrote localbuffer (buffer + loop.done) left r.2 loop.small
              (elim clear [ inl h ↦ inl (omega (arith, loop.sum)) | inr h ↦ inr (omega arith) ])
              loop.wrote.on_screen in
          rw (some_left, loop.place, chunk.0)
            (
              grind int_laws,
              subst
                  (λ d.
                    Wrote localbuffer buffer d k
                      (write_chunk localbuffer (buffer + loop.done) left r.2).1)
                  loop.sum
                  (Wrote-append localbuffer buffer loop.done left k r.2 _
                    (subst (Clear localbuffer buffer) (sym loop.sum) clear) loop.wrote chunk.1),
            )
    ]

-- The outcomes of `sys_write`: everything is written, or one of the checks fails.
abbrev pub Outcome : (localbuffer buffer : ℕ) (fd nbytes : ℤ) → Kernel → ℤ × Kernel → Type 0
Outcome localbuffer buffer fd nbytes k r =
    ((fd ≡ pos 1)
      × (neg_part nbytes ≡ 0)
      × (accepts verify_read buffer nbytes k ≡ true)
      × (r.0 ≡ nbytes)
      × Wrote localbuffer buffer (pos_part nbytes) k r.1)
    ⊎ ((eqb_ℤ fd (pos 1) ≡ false) × (r ≡ (err ebadf, k)))
    ⊎ ((0 < neg_part nbytes) × (r ≡ (err einval, k)))
    ⊎ ((accepts verify_read buffer nbytes k ≡ false) × (r ≡ (err efault, k)))

-- With a user's buffer that has no byte in common with the kernel's `localbuffer`, and with the cursor
-- on the screen, `sys_write` either writes everything or nothing: it returns the number of bytes, sends
-- exactly these bytes to the console in order, leaves the cursor on the screen and changes no memory
-- but `localbuffer`; or it returns -EBADF for a file other than 1, -EINVAL for a negative number, or
-- -EFAULT for a buffer that `access_ok` refuses, and changes nothing.
pub sys_write_lem :
    (localbuffer buffer : ℕ) (fd nbytes : ℤ) (k : Kernel)
    → Clear localbuffer buffer (pos_part nbytes)
    → OnScreen k.screen
    → Outcome localbuffer buffer fd nbytes k (sys_write localbuffer fd buffer nbytes k)
unfolding sys_write check_fd ◌-ℤ◌
sys_write_lem localbuffer buffer fd nbytes k clear o = elim (Bool-cases (eqb_ℤ fd (pos 1))) [
  | inr other ↦ inr (inl (other, rw (other) refl))
  | inl console ↦ elim (Bool-cases (ltb_ℤ nbytes (pos 0))) [
    | inl negative ↦ inr (inr (inl (ground arith, rw (console, negative) refl)))
    | inr natural ↦ elim (Bool-cases (accepts verify_read buffer nbytes k)) [
      | inr refused ↦ inr (inr (inr (refused, rw (console, natural, refused) refl)))
      | inl ok ↦
          let all = write_all_lem localbuffer buffer (pos_part nbytes) k clear o in
          let signless : neg_part nbytes ≡ 0 = ground arith in
          let value : pos (pos_part nbytes) ≡ nbytes = ground arith in
          inl (
            ground arith,
            signless,
            ok,
            rw (console, natural, ok) (all.0 ∙ value),
            rw (console, natural, ok) all.1,
          )
    ]
  ]
]
