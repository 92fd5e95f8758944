-- ===== src/Older/Write.antt =====
-- `sys_write` of zeos/sys.c: what reaches the console, and what happens to `sys_buff` and the bytes behind.
use mathlib.Core.List.{append_assoc, append-nil}
use soa_ze_os.Prelude.{
  ℕ, zero, suc, ◌+◌, ◌-◌, ◌≤◌, ◌<◌, ◌≡◌, refl, sym, ap, ◌∙◌, subst, ◌⊎◌, inl, inr, Bool-cases, true,
  false, ◌==◌, ◌∷◌, [], ◌++◌, ltb, if◌then◌else◌, arith, rounds,
}
use soa_ze_os.Prelude.Int.{ℤ, pos, pos_part, neg_part, ltb_ℤ, eqb_ℤ, ◌-ℤ◌}
use soa_ze_os.Mm.Paging.{to_unsigned}
use soa_ze_os.Utils.{verify_read, copy_from_user}
use soa_ze_os.Utils.Copy.{Apart, Copied, Copied-append, copy_data_lem}
use soa_ze_os.Io.Text.{text, text-append}
use soa_ze_os.Sys.{err, ebadf, efault, einval}
use soa_ze_os.Sys.Pieces.{text_same}
use soa_ze_os.Older.{
  Machine, access_ok, printc, sys_write_console, check_fd, tam_buffer, write_piece, write_loop,
  sys_write,
}

-- The `n` bytes at `p` have gone to the console, and have been copied to `q`.
pub record Written (p q n : ℕ) (s s' : Machine) : Type 0 where
  pub log : s'.log ≡ s.log ++ text s.bytes p n
  pub copied : Copied p q n s.bytes s'.bytes

printc-log :
    (c : ℕ) (s : Machine) → ((printc c s).log ≡ s.log ++ c ∷ []) × ((printc c s).bytes ≡ s.bytes)
unfolding printc
printc-log c s = (ground arith, ground arith)

rounds-log :
    (b : ℕ → ℕ) (n i : ℕ) (s : Machine)
    → ((rounds n i (λ k. printc (b k)) s).log ≡ s.log ++ text b i n)
      × ((rounds n i (λ k. printc (b k)) s).bytes ≡ s.bytes)
unfolding rounds
rounds-log b zero i s = (sym (append-nil s.log), refl)
rounds-log b (suc n) i s =
    let (log, bytes) = printc-log (b i) s in
    let (more, same) = rounds-log b n (i + 1) (printc (b i) s) in
    (
      more
          ∙ (ap (λ l. l ++ text b (i + 1) n) log
              ∙ append_assoc s.log (b i ∷ []) (text b (i + 1) n)),
      same ∙ bytes,
    )

write_piece-Written :
    (sys_buff buffer offset n : ℕ) (s : Machine)
    → Apart (buffer + offset) (sys_buff + offset) n
    → ((write_piece sys_buff buffer offset n s).0 ≡ n)
      × Written (buffer + offset) (sys_buff + offset) n s (write_piece sys_buff buffer offset n s).1
unfolding write_piece sys_write_console
write_piece-Written sys_buff buffer offset n s apart =
    let p : ℕ = buffer + offset in
    let q : ℕ = sys_buff + offset in
    let (_, _, c, _, _) = copy_data_lem p q n s.bytes apart in
    let copied : Machine = record s { bytes = (copy_from_user p q (pos n) s.bytes).1 } in
    let (log, bytes) = rounds-log (λ i. copied.bytes (q + i)) n 0 copied in
    (
      refl,
      record {
        log =
            log
            ∙ ap (λ t. s.log ++ t)
                (text_same (λ i. copied.bytes (q + i)) s.bytes 0 p n
                  λ a lt.
                    let here : q + (0 + a) ≡ q + a = omega arith in
                    let there : p + (q + a - q) ≡ p + a = omega arith in
                    ap copied.bytes here
                    ∙ c.inside (q + a) (omega arith) (omega arith)
                    ∙ ap s.bytes there);
        copied = subst (Copied p q n s.bytes) (sym bytes) c;
      },
    )

-- One piece after the other.
Written-append :
    (p q m n l : ℕ) (s t u : Machine)
    → l ≡ m + n
    → Apart p q l
    → Written p q m s t
    → Written (p + m) (q + m) n t u
    → Written p q l s u
Written-append p q m n l s t u e apart a b = record {
  log =
      b.log
      ∙ ap (λ x. x ++ text t.bytes (p + m) n) a.log
      ∙ append_assoc s.log (text s.bytes p m) (text t.bytes (p + m) n)
      ∙ ap (λ x. s.log ++ (text s.bytes p m ++ x))
          (text_same t.bytes s.bytes (p + m) (p + m) n λ i lt.
            a.copied.outside (p + m + i)
              (elim apart [ inl low ↦ inl (omega arith) | inr high ↦ inr (omega arith) ]))
      ∙ ap (λ x. s.log ++ x) (text-append s.bytes p (p + m) l m n refl e);
  copied = Copied-append p q m n l s.bytes t.bytes u.bytes e apart a.copied b.copied;
}

Written-zero : (p q : ℕ) (s : Machine) → Written p q 0 s s
Written-zero p q s = record {
  log = sym (append-nil s.log);
  copied = record { inside = λ a ge lt. absurd (omega arith); outside = λ a out. refl };
}

write_loop-Written :
    (fuel sys_buff buffer total offset bytes_leidos : ℕ) (s : Machine)
    → total ≤ fuel
    → Apart (buffer + offset) (sys_buff + offset) total
    → let r = write_loop fuel sys_buff buffer total offset bytes_leidos s in
      (r.0 ≡ bytes_leidos + total) × Written (buffer + offset) (sys_buff + offset) total s r.1
unfolding write_loop
write_loop-Written zero sys_buff buffer total offset bytes_leidos s le apart =
    let done : 0 ≡ total = omega arith in
    (
      omega arith,
      subst (λ n. Written (buffer + offset) (sys_buff + offset) n s s) done
          (Written-zero (buffer + offset) (sys_buff + offset) s),
    )
write_loop-Written (suc fuel) sys_buff buffer total offset bytes_leidos s le apart =
    elim (Bool-cases (ltb 0 total)) [
      | inr end ↦
          let done : 0 ≡ total = ground arith in
          rw end (
            omega arith,
            subst (λ n. Written (buffer + offset) (sys_buff + offset) n s s) done
                (Written-zero (buffer + offset) (sys_buff + offset) s),
          )
      | inl more ↦
          let p : ℕ = buffer + offset in
          let q : ℕ = sys_buff + offset in
          let size : ℕ = if ltb total tam_buffer then total else tam_buffer in
          let low : 0 < size = ground arith in
          let high : size ≤ total = ground arith in
          let (ret, first) =
            write_piece-Written sys_buff buffer offset size s
              (elim apart [ inl h ↦ inl (omega arith) | inr h ↦ inr (omega arith) ]) in
          let piece = write_piece sys_buff buffer offset size s in
          let (count, rest) =
            write_loop-Written fuel sys_buff buffer (total - size) (offset + size)
              (bytes_leidos + piece.0) piece.1 (omega arith)
              (elim apart [ inl h ↦ inl (omega arith) | inr h ↦ inr (omega arith) ]) in
          let p_next : buffer + (offset + size) ≡ p + size = omega arith in
          let q_next : sys_buff + (offset + size) ≡ q + size = omega arith in
          let behind = rw (p_next, q_next) at rest in
          rw more (
            omega (arith, count, ret),
            Written-append p q size (total - size) total s piece.1 _ (omega arith) apart first
                behind,
          )
    ]

-- The outcomes of `sys_write`: everything is written, or one of the checks fails.
abbrev pub Outcome :
    (sys_buff : ℕ) (fd : ℤ) (buffer : ℕ) (size : ℤ) → Machine → ℤ × Machine → Type 0
Outcome sys_buff fd buffer size s r =
    ((fd ≡ pos 1)
      × (access_ok verify_read buffer (to_unsigned size) ≡ true)
      × (neg_part size ≡ 0)
      × (r.0 ≡ size)
      × Written buffer sys_buff (pos_part size) s r.1)
    ⊎ ((eqb_ℤ fd (pos 1) ≡ false) × (r ≡ (err ebadf, s)))
    ⊎ (((buffer ≡ 0) ⊎ (access_ok verify_read buffer (to_unsigned size) ≡ false))
        × (r ≡ (err efault, s)))
    ⊎ ((0 < neg_part size) × (r ≡ (err einval, s)))

-- With a user's buffer that has no byte in common with as many bytes from `sys_buff` on, `sys_write` of
-- the older version either writes everything or nothing: it returns the size, sends exactly these bytes
-- to the console in order, and copies all of them to `sys_buff` and on behind its 64 bytes, changing no
-- other byte; or it returns -EBADF for a file other than 1, -EFAULT for a null or refused buffer, or
-- -EINVAL for a negative size, and changes nothing.
pub older_write_lem :
    (sys_buff : ℕ) (fd : ℤ) (buffer : ℕ) (size : ℤ) (s : Machine)
    → Apart buffer sys_buff (pos_part size)
    → Outcome sys_buff fd buffer size s (sys_write sys_buff fd buffer size s)
unfolding sys_write check_fd ◌-ℤ◌
older_write_lem sys_buff fd buffer size s apart = elim (Bool-cases (eqb_ℤ fd (pos 1))) [
  | inr other ↦ inr (inl (other, rw other refl))
  | inl console ↦ elim (Bool-cases (buffer == 0)) [
    | inl null ↦ inr (inr (inl (inl (ground arith), rw (console, null) refl)))
    | inr there ↦ elim (Bool-cases (access_ok verify_read buffer (to_unsigned size))) [
      | inr refused ↦ inr (inr (inl (inr refused, rw (console, there, refused) refl)))
      | inl ok ↦ elim (Bool-cases (ltb_ℤ size (pos 0))) [
        | inl negative ↦ inr (inr (inr (ground arith, rw (console, there, ok, negative) refl)))
        | inr natural ↦
            let n : ℕ = pos_part size in
            let at_start : Apart (buffer + 0) (sys_buff + 0) n = elim apart [
              | inl h ↦ inl (omega arith)
              | inr h ↦ inr (omega arith)
            ] in
            let (count, all) =
              write_loop-Written n sys_buff buffer n 0 0 s (omega arith) at_start in
            let value : pos (0 + n) ≡ size = ground arith in
            let counted : pos (write_loop n sys_buff buffer n 0 0 s).0 ≡ size =
              ap pos count ∙ value in
            let whole : eqb_ℤ (pos (write_loop n sys_buff buffer n 0 0 s).0) size ≡ true =
              ground arith in
            let p_start : buffer + 0 ≡ buffer = omega arith in
            let q_start : sys_buff + 0 ≡ sys_buff = omega arith in
            inl (
              ground arith,
              ok,
              ground arith,
              rw (console, there, ok, natural, whole) counted,
              rw (console, there, ok, natural, whole) (rw (p_start, q_start) at all),
            )
      ]
    ]
  ]
]
