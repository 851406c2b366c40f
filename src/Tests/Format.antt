-- ===== src/Tests/Format.antt =====
-- The formatters at concrete states.
use kernel_panic_logger.Prelude.{◌≡◌, [], ◌∷◌, arith, replicate}
use mathlib.Core.Option
use kernel_panic_logger.Format.{word}
use kernel_panic_logger.Format.Vsnprintf.{vsnprintf}
use kernel_panic_logger.Format.Printf.{printf_codes}
use kernel_panic_logger.Format.Buffer.{stored, vsnprintf-printf}
use kernel_panic_logger.Kernel.{chars}

vsnprintf-printf_example :
    vsnprintf (replicate 4 88) 4 (chars "boot %d") (word 7 ∷ [])
    ≡ Option.map (stored (replicate 4 88) 4) (printf_codes (chars "boot %d") (word 7 ∷ []))
vsnprintf-printf_example =
    vsnprintf-printf (replicate 4 88) 4 (chars "boot %d") (word 7 ∷ []) (omega arith) (omega arith)
