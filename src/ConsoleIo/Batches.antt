-- ===== src/ConsoleIo/Batches.antt =====
-- What a writer to the console sends.
use kernel_panic_logger.Prelude.{
  ℕ, ◌+◌, ◌-◌, ◌%◌, ◌^◌, ◌≡◌, ◌⊎◌, List, Option, none, if◌then◌else◌, ltb,
}

-- A batch of the next bytes has at most 32 of them.
abbrev pub batch : ℕ → ℕ
batch rest = if ltb rest 32 then rest else 32

-- All bytes are sent, or the next batch cannot be read.
pub Stops : (ℕ → ℕ → Option (List ℕ)) → ℕ → ℕ → ℕ → Type 0
Stops copyin src total j = (j ≡ total) ⊎ (copyin ((src + j) % 2 ^ 64) (batch (total - j)) ≡ none)
