-- ===== src/Tests/User.antt =====
-- The user's programs at concrete states.
use kernel_panic_logger.Prelude.{◌↔◌, ◌≡◌, true, refl, [], ◌∷◌, arith}
use kernel_panic_logger.Format.{word}
use kernel_panic_logger.Format.Printf.{printf_codes}
use kernel_panic_logger.Kernel.{chars}
use kernel_panic_logger.CrashContext.Text.{context_text}
use kernel_panic_logger.UserPrintf.{vprintf}
use kernel_panic_logger.UserPrintf.Numbers.{SameText}
use kernel_panic_logger.UserPrintf.Agree.{vprintf-printf}
use kernel_panic_logger.Dumppanic.{main, Reply}
use kernel_panic_logger.Dumppanic.Shows.{IsStored, Runs, title, footer, main_shows}
use kernel_panic_logger.Shell.{parsecmd}
use kernel_panic_logger.Shell.Simple.{Ends}
use kernel_panic_logger.Shell.Parse.{FitsLine, parsecmd-Ends}
use kernel_panic_logger.Grep.{match_text}
use kernel_panic_logger.Grep.Language.{Selects, match_text-Selects}
use kernel_panic_logger.Tests.{crashed}

vprintf-printf_example :
    SameText
      (vprintf (chars "at %p") (word 171 ∷ []))
      (printf_codes (chars "at %p") (word 171 ∷ []))
vprintf-printf_example = vprintf-printf (chars "at %p") (word 171 ∷ []) refl

abbrev answer : Reply
answer = record { ret = 0; ctx = crashed.saved_crash_ctx; sz = 568 }

answer-IsStored : IsStored answer.ctx
answer-IsStored = record { magic = refl; ticks = omega arith; depth = omega arith; trace = refl }

main_shows_example : Runs (main 568 answer) (context_text title footer answer.ctx) 0
main_shows_example = main_shows 568 answer refl refl answer-IsStored

parsecmd-Ends_example : Ends (FitsLine 12) 0 (parsecmd (chars "(a <b; c) |d"))
parsecmd-Ends_example = parsecmd-Ends (chars "(a <b; c) |d")

match_text-Selects_example :
    (match_text (chars "a*b$") (chars "xaab") ≡ true) ↔ Selects (chars "a*b$") (chars "xaab")
match_text-Selects_example = match_text-Selects (chars "a*b$") (chars "xaab")
