-- ===== src/ConsoleIo/Line.antt =====
-- What a reader of the console gets.
use kernel_panic_logger.Prelude.{
  ℕ, zero, suc, ◌+◌, ◌%◌, ◌^◌, ◌≡◌, ◌≢◌, List, [], ◌∷◌, ◌++◌, Bool, Option, none, if◌then◌else◌,
  length,
}
use kernel_panic_logger.Outcome.{Outcome, ok}
use kernel_panic_logger.Spinlock.{Spinlock}
use kernel_panic_logger.Spinlock.Laws.{IsSane, IsFree}
use kernel_panic_logger.Pipe.Loops.{IsOutput}
use kernel_panic_logger.Console.{Console}
use kernel_panic_logger.Console.Edit.{IsConsole}
use kernel_panic_logger.ConsoleIo.{
  ReadStop, count, killed_off, blocked, end_of_file, next_key, take_key,
}

-- The next n bytes that a reader finds.
abbrev pub next_keys : ℕ → Console → List ℕ
next_keys zero k = []
next_keys (suc n) k = next_key k ∷ next_keys n (take_key k)

-- Bytes of which the last one at most is a newline.
pub data OneLine : List ℕ → Type 0 where
  nothing : OneLine []
  last : {b : ℕ} → OneLine (b ∷ [])
  before : {b : ℕ} {bs : List ℕ} → b ≢ b'\n' → OneLine bs → OneLine (b ∷ bs)

pub data EndsLine : List ℕ → Type 0 where
  newline : EndsLine (b'\n' ∷ [])
  further : {b : ℕ} {bs : List ℕ} → EndsLine bs → EndsLine (b ∷ bs)

-- From one state to the other a reader has moved at most; the typing side is as it was.
pub record SameTyping (k k' : Console) : Type 0 where
  pub hart : k'.hart ≡ k.hart
  pub lock : k'.lock ≡ k.lock
  pub buf : k'.buf ≡ k.buf
  pub w : k'.w ≡ k.w
  pub e : k'.e ≡ k.e

module _ {U : Type 0} (killed : Bool) (copyout : ℕ → ℕ → U → Option U) (dst : ℕ) where
  -- Why the loop ends with j bytes delivered by the call, these the last ones, and `left` to go, and what
  -- it has taken from the input beyond them. There is no more input, all are delivered, or a newline is:
  -- nothing. The end-of-file character comes next: a call that has delivered nothing takes it, and another
  -- one leaves it. The byte that was taken cannot be stored.
  pub data Why (j left : ℕ) (bs : List ℕ) (v : U) (k' : Console) : List ℕ → ReadStop → Type 0 where
    no_input : k'.r ≡ k'.w → Why j left bs v k' [] (if killed then killed_off else blocked j)
    all_done : left ≡ 0 → Why j left bs v k' [] (count j)
    line_done : EndsLine bs → Why j left bs v k' [] (count j)
    end_taken : j ≡ 0 → Why j left bs v k' (end_of_file ∷ []) (count j)
    end_left : j ≢ 0 → next_key k' ≡ end_of_file → Why j left bs v k' [] (count j)
    fault :
        (b : ℕ) → copyout ((dst + j) % 2 ^ 64) b v ≡ none → Why j left bs v k' (b ∷ []) (count j)

  pub record Delivers (i rest : ℕ) (u : U) (k : Console) (stop : ReadStop) (v : U) (k' : Console)
      : Type 0 where
    pub bytes : List ℕ
    pub upto : ℕ
    pub counted : upto ≡ i + length bytes
    pub left : ℕ
    pub bounded : length bytes + left ≡ rest
    pub output : IsOutput copyout dst i bytes u v
    pub extra : List ℕ
    pub source : next_keys (length (bytes ++ extra)) k ≡ bytes ++ extra
    pub index : k'.r ≡ (k.r + length (bytes ++ extra)) % 2 ^ 32
    pub line : OneLine bytes
    pub formed : IsConsole k'
    pub same : SameTyping k k'
    pub why : Why upto left bytes v k' extra stop

  -- A run of the call: it ends, with the console's lock free.
  pub record ReadsLine (i rest : ℕ) (u : U) (k : Console) (r : Outcome Console (ReadStop × U))
      : Type 0 where
    pub console : Console
    pub stop : ReadStop
    pub memory : U
    pub runs : r ≡ ok (stop, memory) console
    pub formed : IsConsole console
    pub free : IsFree console.lock
    pub sane : IsSane console.hart
    pub bytes : List ℕ
    pub output : IsOutput copyout dst i bytes u memory
    pub extra : List ℕ
    pub source : next_keys (length (bytes ++ extra)) k ≡ bytes ++ extra
    pub index : console.r ≡ (k.r + length (bytes ++ extra)) % 2 ^ 32
    pub line : OneLine bytes
    pub left : ℕ
    pub bounded : length bytes + left ≡ rest
    pub why : Why (i + length bytes) left bytes memory console extra stop
