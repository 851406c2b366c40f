-- ===== src/FsLog.antt =====
-- The write-ahead log of the file system, xv6-riscv/kernel/log.c: the copies of a commit and of the
-- recovery. The buffer cache is seen as what it promises: `buf` is the content of each block as `bread`
-- returns it, pinned or not, and `disk` what a restart finds. A block is its 32-bit words, so that
-- `struct logheader` is word 0 and the words after it. The machine may stop at any time: `power` is the
-- number of writes that still reach the disk. Block numbers are far below 2 ^ 31 and do not wrap.
pub mod Disk
pub mod Recovery
pub mod Atomic
pub mod Crash
pub mod Install
use kernel_panic_logger.Prelude.{
  ℕ, zero, suc, ◌+◌, ◌-◌, ◌^◌, List, [], ◌∷◌, Bool, true, false, if◌then◌else◌, ◌==◌, ltb, leb,
}

-- `LOGBLOCKS`, `MAXOPBLOCKS`
abbrev pub max_op_blocks : ℕ
max_op_blocks = 10

abbrev pub log_blocks : ℕ
log_blocks = 30

abbrev pub Block : Type 0
Block = ℕ → ℕ

abbrev pub Blocks : Type 0
Blocks = ℕ → Block

-- `log.start` and `log.lh`, the blocks, how often each buffer is pinned, and the lines that recovery prints, the
-- latest first.
pub record FsLog : Type 0 where
  pub start : ℕ
  pub n : ℕ
  pub block : ℕ → ℕ
  pub disk : Blocks
  pub buf : Blocks
  pub pins : ℕ → ℕ
  pub printed : List (ℕ × ℕ)
  pub power : ℕ

unfoldable pub put_block : Blocks → ℕ → Block → Blocks
put_block d b v a = if a == b then v else d a

unfoldable pub put_word : (ℕ → ℕ) → ℕ → ℕ → ℕ → ℕ
put_word f i w j = if j == i then w else f j

-- What `bwrite` promises, as long as there is power.
unfoldable pub bwrite : ℕ → FsLog → FsLog
unfolding put_block
bwrite b k = record k {
  disk = if k.power == 0 then k.disk else put_block k.disk b (k.buf b);
  power = k.power - 1;
}

-- `memmove(to->data, from->data, BSIZE)`
unfoldable pub copy_block : ℕ → ℕ → FsLog → FsLog
unfolding put_block
copy_block to from k = record k { buf = put_block k.buf to (k.buf from) }

unfoldable pub bunpin : ℕ → FsLog → FsLog
unfolding put_word
bunpin b k = record k { pins = put_word k.pins b (k.pins b - 1) }

-- The rounds of a loop up to an `int`.
unfoldable pub rounds_of : ℕ → ℕ
rounds_of n = if leb (2 ^ 31) n then 0 else n

-- `if(recovering == 0) bunpin(dbuf);`, and the line printed otherwise.
unfoldable pub note_install : Bool → ℕ → FsLog → FsLog
note_install true tail k = record k { printed = (tail, k.block tail) ∷ k.printed }
note_install false tail k = k

unfoldable pub unpin_installed : Bool → ℕ → FsLog → FsLog
unfolding bunpin
unpin_installed true b k = k
unpin_installed false b k = bunpin b k

-- A round of `install_trans`.
unfoldable pub install_block : Bool → ℕ → FsLog → FsLog
unfolding copy_block bwrite note_install unpin_installed
install_block recovering tail k =
    let dst = k.block tail in
    let k1 = note_install recovering tail k in
    let k2 = bwrite dst (copy_block dst (k1.start + tail + 1) k1) in
    unpin_installed recovering dst k2

unfoldable pub install_loop : Bool → ℕ → ℕ → FsLog → FsLog
unfolding install_block
install_loop recovering zero tail k = k
install_loop recovering (suc rounds) tail k =
    install_loop recovering rounds (tail + 1) (install_block recovering tail k)

unfoldable pub install_trans : Bool → FsLog → FsLog
unfolding install_loop rounds_of
install_trans recovering k = install_loop recovering (rounds_of k.n) 0 k

-- `log.lh.block[i] = lh->block[i];`, from round i on.
unfoldable pub read_names : ℕ → ℕ → Block → (ℕ → ℕ) → ℕ → ℕ
unfolding put_word
read_names zero i head block = block
read_names (suc rounds) i head block =
    read_names rounds (i + 1) head (put_word block i (head (i + 1)))

unfoldable pub read_head : FsLog → FsLog
unfolding read_names rounds_of
read_head k =
    let head = k.buf k.start in
    let k1 = record k { n = head 0 } in
    record k1 { block = read_names (rounds_of k1.n) 0 head k1.block }

-- `hb->block[i] = log.lh.block[i];`, from round i on.
unfoldable pub write_names : ℕ → ℕ → (ℕ → ℕ) → Block → Block
unfolding put_word
write_names zero i block head = head
write_names (suc rounds) i block head =
    write_names rounds (i + 1) block (put_word head (i + 1) (block i))

unfoldable pub write_head : FsLog → FsLog
unfolding write_names rounds_of put_word put_block bwrite
write_head k =
    let head = write_names (rounds_of k.n) 0 k.block (put_word (k.buf k.start) 0 k.n) in
    bwrite k.start (record k { buf = put_block k.buf k.start head })

unfoldable pub recover_from_log : FsLog → FsLog
unfolding read_head install_trans write_head
recover_from_log k = write_head (record (install_trans true (read_head k)) { n = 0 })

-- A round of `write_log`.
unfoldable pub log_block : ℕ → FsLog → FsLog
unfolding copy_block bwrite
log_block tail k = let to = k.start + tail + 1 in bwrite to (copy_block to (k.block tail) k)

unfoldable pub write_log_loop : ℕ → ℕ → FsLog → FsLog
unfolding log_block
write_log_loop zero tail k = k
write_log_loop (suc rounds) tail k = write_log_loop rounds (tail + 1) (log_block tail k)

unfoldable pub write_log : FsLog → FsLog
unfolding write_log_loop rounds_of
write_log k = write_log_loop (rounds_of k.n) 0 k

-- `log.lh.n > 0`, with `n` an `int`.
unfoldable pub commit : FsLog → FsLog
unfolding write_log write_head install_trans rounds_of
commit k =
    if rounds_of k.n == 0
    then k
    else write_head (record (install_trans false (write_head (write_log k))) { n = 0 })

-- A restart: what is in memory is lost, and there is power for so many writes.
unfoldable pub restart : ℕ → FsLog → FsLog
restart power k = record k {
  n = 0;
  block = λ i. 0;
  buf = k.disk;
  pins = λ b. 0;
  printed = [];
  power = power;
}
