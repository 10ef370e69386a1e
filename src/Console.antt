-- ===== src/Console.antt =====
-- console.c: the input line of the console, consoleintr and consoleread. What runs under
-- `cons.lock` is one step; a run of consoleread ends when it returns or sleeps.
pub mod Ring
pub mod Edit
pub mod Typing
pub mod Read
mod Tests
use mit_xv.Prelude.{
  ℕ, zero, suc, ◌%◌, Bool, true, false, not, ◌&&◌, ◌||◌, List, [], ◌∷◌, ltb, ◌==◌, if◌then◌else◌,
  update, add32, sub32,
}

abbrev pub input_buf : ℕ
input_buf = 128

-- `input`; `out` has what consputc was called with, the last first.
pub record Input : Type 0 where
  pub buf : ℕ → ℕ
  pub r : ℕ
  pub w : ℕ
  pub e : ℕ
  pub out : List ℕ

abbrev pub backspace : ℕ
backspace = 256

-- `input.e--; consputc(BACKSPACE);`
abbrev pub erase : Input → Input
erase i = record i { e = sub32 i.e 1; out = backspace ∷ i.out }

-- The loop for C('U'), with `n` bytes from `w` up to `e`.
unfoldable pub kill_line : ℕ → Input → Input
kill_line zero i = i
kill_line (suc n) i =
    let rest = kill_line n (erase i) in
    if i.e == i.w || (i.buf (sub32 i.e 1 % input_buf) == 10) then i else rest

-- `input.buf[input.e++ % INPUT_BUF] = c; consputc(c);`
abbrev pub put : ℕ → Input → Input
put c i = record i { buf = update i.buf (i.e % input_buf) c; e = add32 i.e 1; out = c ∷ i.out }

-- `c == '\n' || c == C('D') || input.e == input.r+INPUT_BUF`, with `e` moved on.
abbrev pub ends_line : ℕ → Input → Bool
ends_line c i = (c == 10) || ((c == 4) || (i.e == add32 i.r input_buf))

abbrev pub accept : ℕ → Input → Input × Bool
accept c i = let j = put c i in if ends_line c j then (record j { w = j.e }, true) else (j, false)

abbrev pub newline : ℕ → ℕ
newline c = if c == 13 then 10 else c

-- One round of the loop of consoleintr for a character but C('P'), which changes nothing but
-- `doprocdump`: the input, and whether readers are woken.
unfoldable pub type_char : ℕ → Input → Input × Bool
type_char c i =
    if c == 21
    then (kill_line (sub32 i.e i.w) i, false)
    else (if (c == 8) || (c == 127)
        then (if i.e == i.w then (i, false) else (erase i, false))
        else (if not (c == 0) && ltb (sub32 i.e i.r) input_buf
            then accept (newline c) i
            else (i, false)))

-- How a run of consoleread ends, with the bytes that it has put at `dst`.
pub data ReadEnd : Type 0 where
  got : List ℕ → ReadEnd
  read_failed : ReadEnd
  read_sleeps : List ℕ → ReadEnd

-- `*dst++ = c`, in front of what the rest of the run reads.
abbrev pub also : ℕ → ReadEnd → ReadEnd
also c (got cs) = got (c ∷ cs)
also c read_failed = read_failed
also c (read_sleeps cs) = read_sleeps (c ∷ cs)

-- The loop with `n` bytes left to read of `target`.
unfoldable pub consoleread : Bool → ℕ → ℕ → Input → ReadEnd × Input
consoleread killed target zero i = (got [], i)
consoleread killed target (suc n) i =
    let rest = consoleread killed target n (record i { r = add32 i.r 1 }) in
    let c = i.buf (i.r % input_buf) in
    if i.r == i.w
    then (if killed then (read_failed, i) else (read_sleeps [], i))
    else (if c == 4
        then (if ltb (suc n) target then (got [], i) else (got [], record i { r = add32 i.r 1 }))
        else (if c == 10
            then (got (c ∷ []), record i { r = add32 i.r 1 })
            else (also c rest.0, rest.1)))
