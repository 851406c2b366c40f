-- ===== src/LogBuffer/Flush.antt =====
-- What `log_flush` prints: the contents of the buffer, the most recent entry first.
use mathlib.Core.Option
use kernel_panic_logger.Prelude.{
  ℕ, zero, suc, ◌+◌, ◌≡◌, refl, List, [], ◌∷◌, ◌++◌, Bool, true, false, Option, none, some,
  if◌then◌else◌, ◌==◌, arith, ap, ◌∙◌, map, get_elem?, append_assoc, append-nil, ◌⊎◌, inl, inr,
  Bool-cases, if_false,
}
use native.Mathlib.Nat.{zero-add}
use kernel_panic_logger.Outcome.{ok, panics, and_then, zoom_of_ok, panics_first, zoom_of_panics}
use kernel_panic_logger.Spinlock.{acquire, release, push_off, holding}
use kernel_panic_logger.Spinlock.Laws.{
  IsFree, settle, settle_lem, taken, acquire_free, release_on_taken, acquire_held, push_off_quiet,
}
use kernel_panic_logger.CString.{cstr}
use kernel_panic_logger.Format.{word, text}
use kernel_panic_logger.Format.Total.{decimal}
use kernel_panic_logger.Format.Steps.{Prints, end, char, d, s, Prints-text}
use kernel_panic_logger.Kernel.{Kernel, LogBuf, LogEntry, chars}
use kernel_panic_logger.Printk.{printf-Prints, say-say, CanPrint, say}
use kernel_panic_logger.LogBuffer.{
  lvlstr, previous, print_entry, flush_loop, print_if_empty, flush_body, log_flush,
}
use kernel_panic_logger.LogBuffer.Add.{IsReady}
use kernel_panic_logger.LogBuffer.Ring.{View, view, going_back, recent, contents, IsValid, slot_of}

-- One line of the output: `[ticks][LEVEL] file:line message`.
abbrev entry_head : View → List ℕ
entry_head v =
    b'['
    ∷ (decimal v.ticks
        ++ (b']'
            ∷ b'['
            ∷ (lvlstr v.level
                ++ (b']' ∷ b' ' ∷ (v.file ++ (b':' ∷ (decimal v.line ++ (b' ' ∷ []))))))))

pub entry_line : View → List ℕ
entry_line v = entry_head v ++ (v.msg ++ (b'\n' ∷ []))

pub lines : List (Option View) → List ℕ
lines [] = []
lines (none ∷ vs) = lines vs
lines (some v ∷ vs) = entry_line v ++ lines vs

print_head :
    (v : View)
    → Prints
        (chars "[%d][%s] %s:%d ")
        (word v.ticks ∷ text (some (lvlstr v.level)) ∷ text (some v.file) ∷ word v.line ∷ [])
        (entry_head v)
print_head v =
    char refl
      (d (char refl (char refl (s (char refl (char refl (s (char refl (d (char refl end))))))))))

print_msg : (m : List ℕ) → Prints (chars "%s\n") (text (some m) ∷ []) (m ++ (b'\n' ∷ []))
print_msg m = s (char refl end)

print_entry_lem :
    (idx : ℕ) (k : Kernel) (e : LogEntry)
    → CanPrint k
    → get_elem? k.logbuf.entries idx ≡ some e
    → print_entry idx k ≡ ok tt (say k (entry_line (view e)))
unfolding print_entry entry_line view
print_entry_lem idx k e can found =
    rw (found, print_entry)
      (and_then _ _ (printf-Prints k can (print_head (view e))) (
        printf-Prints (say k (entry_head (view e))) can (print_msg (cstr e.msg))
        ∙ ap (ok tt) (say-say k (entry_head (view e)) (cstr e.msg ++ (b'\n' ∷ [])))))

-- The loop visits the slots backwards and prints a line for each.
flush_loop_lem :
    (n idx printed : ℕ) (k : Kernel)
    → CanPrint k
    → IsValid k.logbuf
    → flush_loop n idx printed k
      ≡ ok (printed + n) (say k (lines (map (Option.map view) (going_back k.logbuf.entries n idx))))
unfolding flush_loop going_back lines
flush_loop_lem zero idx printed k can v = ground (arith, append-nil k.console)
flush_loop_lem (suc n) idx printed k can v =
    let (e, found) = slot_of k.logbuf (previous idx) v (omega arith) in
    let said = say k (entry_line (view e)) in
    rw found (
      and_then _ _ (print_entry_lem (previous idx) k e can found) (
        flush_loop_lem n (previous idx) (printed + 1) said can v ∙ λ i. ok (count i) (
          say-say k (entry_line (view e))
            (lines (map (Option.map view) (going_back k.logbuf.entries n (previous idx)))) i)))
  where
    count : printed + 1 + n ≡ printed + suc n
    count = omega arith

empty_note : ℕ → List ℕ
empty_note count = if count == 0 then chars "(log buffer empty)\n" else []

-- What a flush prints of a buffer.
pub flush_text : LogBuf → List ℕ
flush_text b =
    chars "\n--- LOG FLUSH (most recent first) ---\n"
    ++ (lines (contents b) ++ (empty_note b.count ++ chars "--- END LOG FLUSH ---\n"))

print_if_empty_lem :
    (printed : ℕ) (k : Kernel)
    → CanPrint k
    → print_if_empty printed k ≡ ok tt (say k (empty_note printed))
unfolding print_if_empty empty_note
print_if_empty_lem printed k can = elim (Bool-cases (printed == 0)) [
  | inl none_printed ↦
      rw none_printed (printf-Prints k can (Prints-text (chars "(log buffer empty)\n") refl))
  | inr some_printed ↦ rw some_printed (ground (arith, append-nil k.console))
]

-- Nothing keeps `log_flush` from printing: a panic is under way, or the console's lock is free.
abbrev pub Printable : Kernel → Type 0
Printable k = (k.panicking ≡ true) ⊎ IsFree k.pr_lock

-- Inside the critical section of the buffer.
abbrev inside : Kernel → Bool → Kernel
inside k f =
    let p = taken (record { hart = k.hart; lock = k.logbuf.lock }) in
    record k { hart = p.hart; logbuf = record k.logbuf { lock = p.lock }; flushing = f }

can_inside : (k : Kernel) (f : Bool) → Printable k → CanPrint (inside k f)
can_inside k f (inl p) = inl p
can_inside k f (inr free) =
    inr (record {
      free = free;
      sane = (push_off_quiet k.hart).0;
      settled = (push_off_quiet k.hart).1;
    })

pub IsReady-flush : {k : Kernel} → IsReady k → IsReady (record k { hart = settle k.hart })
IsReady-flush {k} r = record { free = r.free; sane = (settle_lem k.hart r.sane).0; valid = r.valid }

regroup : (w a b c z : List ℕ) → (((w ++ a) ++ b) ++ c) ++ z ≡ w ++ (a ++ (b ++ (c ++ z)))
regroup w a b c z = simp append_assoc

flush_in_section :
    (k : Kernel) (a : List ℕ)
    → IsReady k
    → Printable k
    → flush_loop k.logbuf.count k.logbuf.head 0 (say (inside k true) a)
      ≡ ok k.logbuf.count (say (say (inside k true) a) (lines (contents k.logbuf)))
unfolding contents recent
flush_in_section k a ready p =
    flush_loop_lem k.logbuf.count k.logbuf.head 0 (say (inside k true) a) (can_inside k true p)
      (record {
        slots = ready.valid.slots;
        head_in = ready.valid.head_in;
        count_in = ready.valid.count_in;
        sized = ready.valid.sized;
      })
    ∙ ap (λ n. ok n (say (say (inside k true) a) (lines (contents k.logbuf))))
        (zero-add k.logbuf.count)

flush_body_lem :
    (k : Kernel)
    → IsReady k
    → Printable k
    → flush_body k
      ≡ ok tt (record k {
        hart = settle k.hart;
        flushing = false;
        console = k.console ++ flush_text k.logbuf;
      })
unfolding flush_body flush_text
flush_body_lem k ready p =
    let can = can_inside k true p in
    let ins = inside k true in
    let a = chars "\n--- LOG FLUSH (most recent first) ---\n" in
    let b = lines (contents k.logbuf) in
    let c = empty_note k.logbuf.count in
    let z = chars "--- END LOG FLUSH ---\n" in
    and_then _ _ (zoom_of_ok _ _ acquire (acquire_free _ ready.free)) (
      and_then _ _ refl (
        and_then _ _ (printf-Prints ins can (Prints-text a refl)) (
          and_then _ _ (flush_in_section k a ready p) (
            and_then _ _ (print_if_empty_lem k.logbuf.count (say (say ins a) b) can) (
              and_then _ _ (printf-Prints (say (say (say ins a) b) c) can (Prints-text z refl)) (
                and_then _ _ refl (
                  zoom_of_ok _ _ release (
                    release_on_taken (record { hart = k.hart; lock = k.logbuf.lock }) ready.sane
                      ready.free)
                  ∙ λ i. ok tt (record k {
                    hart = settle k.hart;
                    flushing = false;
                    console = regroup k.console a b c z i;
                  }))))))))

-- With the buffer's lock free, a valid buffer and the console at hand, `log_flush` returns. It prints
-- a header, one line for each entry of the buffer with the most recent first, a note if there is
-- none, and a footer; the buffer keeps its contents and the lock is free again.
pub log_flush_lem :
    (k : Kernel)
    → k.flushing ≡ false
    → IsReady k
    → Printable k
    → log_flush k
      ≡ ok tt (record k {
        hart = settle k.hart;
        flushing = false;
        console = k.console ++ flush_text k.logbuf;
      })
unfolding log_flush
log_flush_lem k idle ready p = if_false _ _ idle ∙ flush_body_lem k ready p

-- A flush that is called while one is under way, as by a panic inside it, does nothing.
pub log_flush_nested : (k : Kernel) → k.flushing ≡ true → log_flush k ≡ ok tt k
unfolding log_flush
log_flush_nested k busy = ground arith

-- A hart that holds the buffer's lock outside a flush and flushes calls panic before it prints.
pub log_flush_held :
    (k : Kernel)
    → k.flushing ≡ false
    → holding k.hart k.logbuf.lock ≡ true
    → log_flush k ≡ panics "acquire" (record k { hart = push_off k.hart })
unfolding log_flush
log_flush_held k idle held =
    rw idle
      (unfold flush_body in panics_first _ _ (zoom_of_panics _ _ acquire (acquire_held _ held)))
