-- ===== src/Shell/Parse.antt =====
-- The parser ends on every line, and its commands fit into their arrays.
use kernel_panic_logger.Prelude.{
  ℕ, zero, suc, ◌≡◌, refl, ◌<◌, ◌≤◌, ◌∙◌, List, [], ◌∷◌, true, ◌==◌, arith, length, length-set, set,
}
use kernel_panic_logger.Shell.{
  Scanner, gettoken, peek, Command, execcmd, redircmd, pipecmd, listcmd, backcmd, Parsed,
  redirections_at, parseblock, parseexec, parsepipe, back_loop, parseline, nulterminate, parsecmd,
}
use kernel_panic_logger.Shell.Scan.{gettoken_keeps, peek_moves, peeked_moves}
use kernel_panic_logger.Shell.Simple.{
  Fits, Ends, good, bad, weaken, then-Ends, choice-Ends, redirections-Ends, with_redirections-Fits,
  exec_loop-Ends,
}

-- A `parseline` that ends on every text shorter than k.
abbrev LineEnds : ℕ → (Scanner → Parsed Command) → Type 0
LineEnds k line = (s : Scanner) → length s.rest < k → Ends Fits (length s.rest) (line s)

parseblock-Ends :
    (k : ℕ) (line : Scanner → Parsed Command) (s : Scanner)
    → LineEnds k line
    → length s.rest ≤ k
    → Ends Fits (length s.rest) (parseblock line s)
unfolding parseblock
parseblock-Ends k line s ends h =
    let s1 = (peek s (b'(' ∷ [])).1 in
    choice-Ends (peek s (b'(' ∷ [])).0
      (λ opens.
        let moved = peeked_moves s (b'(' ∷ []) opens in
        then-Ends (line (gettoken s1).next) _ (ends (gettoken s1).next (omega (arith, h, moved)))
          (λ c s2 fits le.
            let s3 = (peek s2 (b')' ∷ [])).1 in
            choice-Ends (peek s2 (b')' ∷ [])).0
              (λ closes.
                then-Ends (redirections_at [] (gettoken s3).next) _
                  (redirections-Ends [] (gettoken s3).next)
                  (λ rs s4 p le'.
                    good (with_redirections-Fits c rs fits) (
                      omega (arith, moved, le, le', gettoken_keeps s3, peek_moves s2 (b')' ∷ [])))))
              (λ still_open. bad)))
      (λ other. bad)

parseexec-Ends :
    (k : ℕ) (line : Scanner → Parsed Command) (s : Scanner)
    → LineEnds k line
    → length s.rest ≤ k
    → Ends Fits (length s.rest) (parseexec line s)
unfolding parseexec
parseexec-Ends k line s ends h =
    let s1 = (peek s (b'(' ∷ [])).1 in
    let before = peek_moves s (b'(' ∷ []) in
    choice-Ends (peek s (b'(' ∷ [])).0
      (λ opens. weaken before (parseblock-Ends k line s1 ends (omega (arith, h, before))))
      (λ simple. then-Ends (redirections_at [] s1) _ (redirections-Ends [] s1) (λ rs s2 p le.
        weaken (omega (arith, before, le))
          (exec_loop-Ends (suc (length s2.rest)) [] rs s2 (omega arith) (omega arith))))

parsepipe-Ends :
    (k : ℕ) (line : Scanner → Parsed Command) (fuel : ℕ) (s : Scanner)
    → LineEnds k line
    → length s.rest ≤ k
    → length s.rest < fuel
    → Ends Fits (length s.rest) (parsepipe line fuel s)
unfolding parsepipe
parsepipe-Ends k line zero s ends h enough = absurd (omega (arith, enough))
parsepipe-Ends k line (suc fuel) s ends h enough =
    then-Ends (parseexec line s) _ (parseexec-Ends k line s ends h) (λ c s1 fits le.
      let s2 = (peek s1 (b'|' ∷ [])).1 in
      choice-Ends (peek s1 (b'|' ∷ [])).0
        (λ more.
          let moved = peeked_moves s1 (b'|' ∷ []) more in
          then-Ends (parsepipe line fuel (gettoken s2).next) _
            (parsepipe-Ends k line fuel (gettoken s2).next ends (omega (arith, h, le, moved))
              (omega (arith, enough, le, moved)))
            (λ d s3 fits' le'. good (fits, fits') (omega (arith, le, le', moved))))
        (λ done. good fits (omega (arith, le, peek_moves s1 (b'|' ∷ [])))))

back_loop-Ends :
    (fuel : ℕ) (c : Command) (s : Scanner)
    → Fits c
    → length s.rest < fuel
    → Ends Fits (length s.rest) (back_loop fuel c s)
unfolding back_loop
back_loop-Ends zero c s fits enough = absurd (omega (arith, enough))
back_loop-Ends (suc fuel) c s fits enough =
    let s1 = (peek s (b'&' ∷ [])).1 in
    choice-Ends (peek s (b'&' ∷ [])).0
      (λ more.
        let moved = peeked_moves s (b'&' ∷ []) more in
        weaken (omega (arith, moved))
          (back_loop-Ends fuel (backcmd c) (gettoken s1).next fits (omega (arith, enough, moved))))
      (λ done. good fits (peek_moves s (b'&' ∷ [])))

parseline-Ends : (fuel : ℕ) → LineEnds fuel (parseline fuel)
unfolding parseline
parseline-Ends zero s h = absurd (omega (arith, h))
parseline-Ends (suc fuel) s h =
    then-Ends (parsepipe (parseline fuel) (suc (length s.rest)) s) _
      (parsepipe-Ends fuel (parseline fuel) (suc (length s.rest)) s (parseline-Ends fuel)
        (omega (arith, h)) (omega arith))
      (λ c s1 fits le.
        then-Ends (back_loop (suc (length s1.rest)) c s1) _
          (back_loop-Ends (suc (length s1.rest)) c s1 fits (omega arith))
          (λ d s2 fits' le'.
            let s3 = (peek s2 (b';' ∷ [])).1 in
            choice-Ends (peek s2 (b';' ∷ [])).0
              (λ more.
                let moved = peeked_moves s2 (b';' ∷ []) more in
                then-Ends (parseline fuel (gettoken s3).next) _
                  (parseline-Ends fuel (gettoken s3).next (omega (arith, h, le, le', moved)))
                  (λ e s4 fits'' le''. good (fits', fits'') (omega (arith, le, le', le'', moved))))
              (λ done. good fits' (omega (arith, le, le', peek_moves s2 (b';' ∷ []))))))

-- Terminating the strings keeps the length of the line.
length-nulterminate : (c : Command) (text : List ℕ) → length (nulterminate c text) ≡ length text
unfolding nulterminate
length-nulterminate (execcmd args) text = of_args args text
  where
    of_args :
        (args : List (ℕ × ℕ)) (text : List ℕ)
        → length (nulterminate (execcmd args) text) ≡ length text
    of_args [] text = refl
    of_args ((q, eq) ∷ args) text = of_args args (set text eq 0) ∙ length-set text eq 0
length-nulterminate (redircmd c r) text =
    length-set (nulterminate c text) r.efile 0 ∙ length-nulterminate c text
length-nulterminate (pipecmd c d) text =
    length-nulterminate d (nulterminate c text) ∙ length-nulterminate c text
length-nulterminate (listcmd c d) text =
    length-nulterminate d (nulterminate c text) ∙ length-nulterminate c text
length-nulterminate (backcmd c) text = length-nulterminate c text

-- A command for a line of this length, whose argument lists fit into their arrays, with the line as the
-- parser leaves it.
abbrev pub FitsLine : ℕ → Command × List ℕ → Type 0
FitsLine n (c, text) = Fits c × (length text ≡ n)

-- The parser ends on every line, well-formed or not: in a call of panic, or with a command whose argument
-- lists, with their null pointers, fit into argv[MAXARGS], having read the whole line, which keeps its length.
pub parsecmd-Ends : (text : List ℕ) → Ends (FitsLine (length text)) 0 (parsecmd text)
unfolding parsecmd
parsecmd-Ends text =
    then-Ends (parseline (suc (length text)) (record { pos = 0; rest = text })) _
      (parseline-Ends (suc (length text)) (record { pos = 0; rest = text }) (omega arith))
      (λ c s fits le.
        choice-Ends (length (peek s []).1.rest == 0)
          (λ whole.
            good (fits, length-nulterminate c text) (none_left (length (peek s []).1.rest) whole))
          (λ leftovers. bad))
  where
    none_left : (n : ℕ) → (n == 0) ≡ true → n ≤ 0
    none_left n h = ground (arith, h)
