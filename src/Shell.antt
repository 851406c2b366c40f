-- ===== src/Shell.antt =====
-- The parser of the shell, xv6-riscv/user/sh.c. The line is the list of its bytes up to its NUL, and
-- a pointer into it is an offset. A call of `panic`, which ends the process that parses, is `fails`, and `starved`
-- is running out of fuel. `malloc` is taken to give memory.
pub mod Scan
pub mod Simple
pub mod Parse
use kernel_panic_logger.Prelude.{
  ℕ, zero, suc, ◌+◌, List, [], ◌∷◌, ◌++◌, String, Bool, true, false, not, ◌&&◌, ◌||◌, if◌then◌else◌,
  ◌==◌, leb, length, set,
}

-- `MAXARGS`
abbrev pub max_args : ℕ
max_args = 10

-- `strchr` of ulib.c: whether the character is in the string.
unfoldable pub strchr : List ℕ → ℕ → Bool
strchr [] c = false
strchr (a ∷ s) c = if a == c then true else strchr s c

-- `whitespace`, `symbols`
abbrev pub whitespace : List ℕ
whitespace = b' ' ∷ 9 ∷ 13 ∷ 10 ∷ 11 ∷ []

abbrev pub symbols : List ℕ
symbols = b'<' ∷ b'|' ∷ b'>' ∷ b'&' ∷ b';' ∷ b'(' ∷ b')' ∷ []

-- `*ps`: an offset and the text from there on.
pub record Scanner : Type 0 where
  pub pos : ℕ
  pub rest : List ℕ

-- `while(s < es && strchr(whitespace, *s)) s++;`
unfoldable pub skip_space : ℕ → List ℕ → Scanner
skip_space pos [] = record { pos = pos; rest = [] }
skip_space pos (c ∷ cs) =
    if strchr whitespace c then skip_space (pos + 1) cs else record { pos = pos; rest = c ∷ cs }

-- `while(s < es && !strchr(whitespace, *s) && !strchr(symbols, *s)) s++;`
unfoldable pub skip_word : ℕ → List ℕ → Scanner
skip_word pos [] = record { pos = pos; rest = [] }
skip_word pos (c ∷ cs) =
    if not (strchr whitespace c) && not (strchr symbols c)
    then skip_word (pos + 1) cs
    else record { pos = pos; rest = c ∷ cs }

abbrev pub head_char : List ℕ → ℕ
head_char [] = 0
head_char (c ∷ cs) = c

abbrev pub tail_chars : List ℕ → List ℕ
tail_chars [] = []
tail_chars (c ∷ cs) = cs

-- The `switch` of `gettoken` at the character c, with what follows: the token's kind and its end.
unfoldable pub token_at : ℕ → ℕ → List ℕ → ℕ × Scanner
unfolding skip_word
token_at pos c cs =
    if c == 0
    then (0, record { pos = pos; rest = c ∷ cs })
    else (if strchr (b'|' ∷ b'(' ∷ b')' ∷ b';' ∷ b'&' ∷ b'<' ∷ []) c
        then (c, record { pos = pos + 1; rest = cs })
        else (if c == b'>'
            then (if head_char cs == b'>'
                then (b'+', record { pos = pos + 2; rest = tail_chars cs })
                else (b'>', record { pos = pos + 1; rest = cs }))
            else (b'a', skip_word pos (c ∷ cs))))

-- The same at `es`, where the character is the NUL.
unfoldable pub token_end : ℕ → List ℕ → ℕ × Scanner
unfolding token_at
token_end pos [] = (0, record { pos = pos; rest = [] })
token_end pos (c ∷ cs) = token_at pos c cs

-- The results of `gettoken`: its value, `*q`, `*eq` and `*ps`.
pub record Token : Type 0 where
  pub ret : ℕ
  pub q : ℕ
  pub eq : ℕ
  pub next : Scanner

unfoldable pub gettoken : Scanner → Token
unfolding skip_space token_end
gettoken s =
    let start = skip_space s.pos s.rest in
    let (ret, end) = token_end start.pos start.rest in
    record { ret = ret; q = start.pos; eq = end.pos; next = skip_space end.pos end.rest }

unfoldable pub is_one_of : List ℕ → List ℕ → Bool
is_one_of toks [] = false
is_one_of toks (c ∷ cs) = not (c == 0) && strchr toks c

-- `peek`: its value, and `*ps`.
unfoldable pub peek : Scanner → List ℕ → Bool × Scanner
unfolding skip_space is_one_of
peek s toks = let start = skip_space s.pos s.rest in (is_one_of toks start.rest, start)

-- `struct redircmd` less the command that it is put around.
pub record Redirection : Type 0 where
  pub file : ℕ
  pub efile : ℕ
  pub mode : ℕ
  pub fd : ℕ

-- `struct cmd` and its kinds. The arguments are the pairs of argv and eargv up to the null pointer.
pub data Command : Type 0 where
  execcmd : List (ℕ × ℕ) → Command
  redircmd : Command → Redirection → Command
  pipecmd : Command → Command → Command
  listcmd : Command → Command → Command
  backcmd : Command → Command

pub data Parsed (A : Type 0) : Type 0 where
  parsed : A → Scanner → Parsed A
  fails : String → Parsed A
  starved : Parsed A

-- The rest of a function, run on what a call has parsed.
unfoldable pub then_parse : {A B : Type 0} → Parsed A → (A → Scanner → Parsed B) → Parsed B
then_parse (parsed a s) f = f a s
then_parse (fails w) f = fails w
then_parse starved f = starved

-- `O_RDONLY`, `O_WRONLY|O_CREATE|O_TRUNC` and `O_WRONLY|O_CREATE`, with the descriptors.
unfoldable pub redirection : ℕ → ℕ → ℕ → Redirection
redirection tok q eq =
    if tok == b'<'
    then record { file = q; efile = eq; mode = 0; fd = 0 }
    else (if tok == b'>'
        then record { file = q; efile = eq; mode = 0x601; fd = 1 }
        else record { file = q; efile = eq; mode = 0x201; fd = 1 })

-- The loop of `parseredirs`: the redirections in the order in which they are put around the command.
unfoldable pub parseredirs : ℕ → List Redirection → Scanner → Parsed (List Redirection)
unfolding peek gettoken redirection
parseredirs zero rs s = starved
parseredirs (suc fuel) rs s =
    let (more, s1) = peek s (b'<' ∷ b'>' ∷ []) in
    let t = gettoken s1 in
    let u = gettoken t.next in
    let next = parseredirs fuel (rs ++ (redirection t.ret u.q u.eq ∷ [])) u.next in
    if more
    then (if u.ret == b'a' then next else fails "missing file for redirection")
    else parsed rs s1

abbrev pub with_redirections : Command → List Redirection → Command
with_redirections c [] = c
with_redirections c (r ∷ rs) = with_redirections (redircmd c r) rs

-- With a round for each character left, and one more.
abbrev pub redirections_at : List Redirection → Scanner → Parsed (List Redirection)
redirections_at rs s = parseredirs (suc (length s.rest)) rs s

-- The loop of `parseexec`, with the arguments and the redirections so far. They are kept apart, as
-- the arguments go to the command inside of the redirections.
unfoldable pub exec_loop : ℕ → List (ℕ × ℕ) → List Redirection → Scanner → Parsed Command
unfolding parseredirs then_parse peek gettoken
exec_loop zero args rs s = starved
exec_loop (suc fuel) args rs s =
    let (ends, s1) = peek s (b'|' ∷ b')' ∷ b'&' ∷ b';' ∷ []) in
    let t = gettoken s1 in
    let args' = args ++ ((t.q, t.eq) ∷ []) in
    let next = then_parse (redirections_at rs t.next) (λ rs' s'. exec_loop fuel args' rs' s') in
    if ends
    then parsed (with_redirections (execcmd args) rs) s1
    else (if t.ret == 0
        then parsed (with_redirections (execcmd args) rs) t.next
        else (if t.ret == b'a'
            then (if leb max_args (length args') then fails "too many args" else next)
            else fails "syntax"))

-- `parseblock`, with `parseline` as an argument.
unfoldable pub parseblock : (Scanner → Parsed Command) → Scanner → Parsed Command
unfolding peek gettoken parseredirs then_parse
parseblock line s =
    let (opens, s1) = peek s (b'(' ∷ []) in
    let inner = then_parse (line (gettoken s1).next) (λ c s2.
      let (closes, s3) = peek s2 (b')' ∷ []) in
      let rest =
        then_parse (redirections_at [] (gettoken s3).next)
          (λ rs s4. parsed (with_redirections c rs) s4) in
      if closes then rest else fails "syntax - missing )") in
    if opens then inner else fails "parseblock"

unfoldable pub parseexec : (Scanner → Parsed Command) → Scanner → Parsed Command
unfolding parseblock exec_loop parseredirs then_parse peek
parseexec line s =
    let (opens, s1) = peek s (b'(' ∷ []) in
    let simple =
      then_parse (redirections_at [] s1) (λ rs s2. exec_loop (suc (length s2.rest)) [] rs s2) in
    if opens then parseblock line s1 else simple

unfoldable pub parsepipe : (Scanner → Parsed Command) → ℕ → Scanner → Parsed Command
unfolding parseexec then_parse peek gettoken
parsepipe line zero s = starved
parsepipe line (suc fuel) s = then_parse (parseexec line s) (λ c s1.
    let (more, s2) = peek s1 (b'|' ∷ []) in
    let next =
      then_parse (parsepipe line fuel (gettoken s2).next) (λ d s3. parsed (pipecmd c d) s3) in
    if more then next else parsed c s2)

-- `while(peek(ps, es, "&"))`
unfoldable pub back_loop : ℕ → Command → Scanner → Parsed Command
unfolding peek gettoken
back_loop zero c s = starved
back_loop (suc fuel) c s =
    let (more, s1) = peek s (b'&' ∷ []) in
    let next = back_loop fuel (backcmd c) (gettoken s1).next in if more then next else parsed c s1

unfoldable pub parseline : ℕ → Scanner → Parsed Command
unfolding parsepipe back_loop then_parse peek gettoken
parseline zero s = starved
parseline (suc fuel) s = then_parse (parsepipe (parseline fuel) (suc (length s.rest)) s) (λ c s1.
    then_parse (back_loop (suc (length s1.rest)) c s1) (λ d s2.
      let (more, s3) = peek s2 (b';' ∷ []) in
      let next = then_parse (parseline fuel (gettoken s3).next) (λ e s4. parsed (listcmd d e) s4) in
      if more then next else parsed d s3))

-- `*ecmd->eargv[i] = 0;` for each argument. The place behind the line holds its NUL already.
abbrev terminate_args : List (ℕ × ℕ) → List ℕ → List ℕ
terminate_args [] text = text
terminate_args ((q, eq) ∷ args) text = terminate_args args (set text eq 0)

unfoldable pub nulterminate : Command → List ℕ → List ℕ
nulterminate (execcmd args) text = terminate_args args text
nulterminate (redircmd c r) text = set (nulterminate c text) r.efile 0
nulterminate (pipecmd c d) text = nulterminate d (nulterminate c text)
nulterminate (listcmd c d) text = nulterminate d (nulterminate c text)
nulterminate (backcmd c) text = nulterminate c text

-- `parsecmd`: the command, and the line with its strings terminated in place of `*ps`.
unfoldable pub parsecmd : List ℕ → Parsed (Command × List ℕ)
unfolding parseline nulterminate then_parse peek
parsecmd text = then_parse (parseline (suc (length text)) (record { pos = 0; rest = text })) (λ c s.
    let s1 = (peek s []).1 in
    if length s1.rest == 0 then parsed (c, nulterminate c text) s1 else fails "syntax")
