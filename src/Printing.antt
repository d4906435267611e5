-- ===== src/Printing.antt =====
-- kernel/utils/display.c: the digits of numbers, and formatted messages on the serial port and the
-- text screen. A string constant is the list of its characters before the terminator.
pub mod Digits
pub mod Itoa
pub mod Format
pub mod Log
mod Tests
use piggy_os.Base.{
  ℕ, zero, suc, ◌+◌, ◌-◌, ◌*◌, ◌/◌, ◌%◌, ◌^◌, Bool, true, false, ◌||◌, Option, none, some, List, [],
  ◌∷◌, ◌++◌, ◌==◌, ltb, leb, if◌then◌else◌, sub32, u8, update, get_or, then_with,
}
use piggy_os.Vga.{Vga, vga_putc, vga_puts, vga_set_color}

-- The ASCII codes of "0123456789ABCDEF".
abbrev pub bchars : List ℕ
bchars = 48 ∷ 49 ∷ 50 ∷ 51 ∷ 52 ∷ 53 ∷ 54 ∷ 55 ∷ 56 ∷ 57 ∷ 65 ∷ 66 ∷ 67 ∷ 68 ∷ 69 ∷ 70 ∷ []

-- The character at each index or address.
abbrev pub Chars : Type 0
Chars = ℕ → ℕ

-- `while (i != 0)` of `__itoa` on `fuel` rounds: the next index, and the digits in `tbuf`, the
-- lowest one first; `none` where the rounds run out.
pub digit_loop : ℕ → (i base pos : ℕ) → Chars → Option (ℕ × Chars)
digit_loop zero i base pos tbuf = none
digit_loop (suc fuel) i base pos tbuf =
    let rest =
      digit_loop fuel (i / base) base (pos + 1) (update tbuf pos (get_or bchars (i % base) 0)) in
    if i == 0 then some (pos, tbuf) else rest

-- The `for` loop with `rounds` left, and the terminator. The last round's `pos--` leaves −1 in C,
-- which is not used.
pub copy_loop : (rounds opos pos : ℕ) → (tbuf : Chars) → (buf : ℕ) → Chars → Chars
copy_loop zero opos pos tbuf buf mem = update mem (buf + opos) 0
copy_loop (suc rounds) opos pos tbuf buf mem =
    copy_loop rounds (opos + 1) (pos - 1) tbuf buf (update mem (buf + opos) (tbuf pos))

-- `tbuf` and the memory afterwards.
abbrev pub Written : Type 0
Written = Option (Chars × Chars)

unfoldable pub itoa : (fuel i base buf : ℕ) → (tbuf mem : Chars) → Written
itoa fuel i base buf tbuf mem =
    if i == 0 || ltb 16 base
    then some (tbuf, update (update mem buf b'0') (buf + 1) 0)
    else then_with (digit_loop fuel i base 0 tbuf)
        λ (top, t). some (t, copy_loop top 0 (top - 1) t buf mem)

-- `i` is the bit pattern of an `int`.
unfoldable pub itoa_s : (fuel i base buf : ℕ) → (tbuf mem : Chars) → Written
itoa_s fuel i base buf tbuf mem =
    if ltb 16 base
    then some (tbuf, mem)
    else if leb (2 ^ 31) i
    then itoa fuel (sub32 0 i) base (buf + 1) tbuf (update mem buf b'-')
    else itoa fuel i base buf tbuf mem

-- The characters from an address to the terminator, which `while (*str)` visits.
pub visited : ℕ → (str : ℕ) → Chars → Option (List ℕ)
visited zero str mem = none
visited (suc fuel) str mem =
    let rest = then_with (visited fuel (str + 1) mem) λ cs. some (mem str ∷ cs) in
    if mem str == 0 then some [] else rest

-- The text screen, and the bytes sent to the serial port, the first one first.
pub record Out : Type 0 where
  pub screen : Vga
  pub serial : List ℕ

-- An argument behind the format.
pub data Arg : Type 0 where
  text : List ℕ → Arg
  number : ℕ → Arg

-- What a directive comes to: none that is known, or the arguments left and the output, or `fault`. The
-- code takes the next argument by `va_arg` without a test, and C leaves undefined what that is where
-- the argument is not there or is of another kind: then the model says nothing of the run.
pub data Conversion : Type 0 where
  unknown : Conversion
  fault : Conversion
  done : List Arg → Out → Conversion

-- `textmode` is whether the macro TEXTMODE is defined.
abbrev pub serial_putc : ℕ → Out → Out
serial_putc c o = record o { serial = o.serial ++ (c ∷ []) }

unfoldable pub putc : (textmode : Bool) → ℕ → Out → Out
putc textmode c o =
    serial_putc c (if textmode then record o { screen = vga_putc c o.screen } else o)

unfoldable pub puts : (textmode : Bool) → List ℕ → Out → Out
puts textmode cs o = record {
  screen = if textmode then vga_puts cs o.screen else o.screen;
  serial = o.serial ++ cs;
}

-- A text to print, if there is one.
abbrev pub put_text : (textmode : Bool) → Option (List ℕ) → List Arg → Out → Conversion
put_text textmode none args o = fault
put_text textmode (some cs) args o = done args (puts textmode cs o)

-- `char str[32] = {0}` after the conversion, printed. 33 rounds of the conversion and 34 of the
-- output are enough for every number.
abbrev pub put_number : (textmode : Bool) → Written → List Arg → Out → Conversion
put_number textmode w args o = put_text textmode (then_with w λ (t, mem). visited 34 0 mem) args o

-- `case 's'`, 'd', 'x' and 'c'.
abbrev pub directive_text : (textmode : Bool) → List Arg → Out → Conversion
directive_text textmode [] o = fault
directive_text textmode (text s ∷ args) o = done args (puts textmode s o)
directive_text textmode (number n ∷ args) o = fault

abbrev pub directive_number : (List Arg → ℕ → Out → Conversion) → List Arg → Out → Conversion
directive_number print_number [] o = fault
directive_number print_number (text s ∷ args) o = fault
directive_number print_number (number n ∷ args) o = print_number args n o

unfoldable pub directive : (textmode : Bool) → (tbuf : Chars) → ℕ → List Arg → Out → Conversion
directive textmode tbuf d args o =
    let decimal = λ (rest : List Arg) (n : ℕ) (out : Out).
      put_number textmode (itoa_s 33 n 10 0 tbuf (λ _. 0)) rest out in
    let hex = λ (rest : List Arg) (n : ℕ) (out : Out).
      put_number textmode (itoa 33 n 16 0 tbuf (λ _. 0)) rest out in
    let char = λ (rest : List Arg) (n : ℕ) (out : Out). done rest (putc textmode (u8 n) out) in
    if d == b's'
    then directive_text textmode args o
    else if d == b'd'
    then directive_number decimal args o
    else if d == b'x'
    then directive_number hex args o
    else if d == b'c'
    then directive_number char args o
    else unknown

-- Behind a known directive the loop skips the letter; behind an unknown one it does not.
abbrev pub go_on : Conversion → (List Arg → Out → Option Out) → Option Out → Option Out
go_on unknown after skipped = skipped
go_on fault after skipped = none
go_on (done args o) after skipped = after args o

-- `__kprintf_va_list`, from the current character on. `tbuf` is scratch space of `__itoa`, whose
-- contents before a conversion do not matter, so the first contents are passed to each one.
-- `none` is the undefined behaviour of an argument that is missing or of the wrong kind.
pub print : (textmode : Bool) → (tbuf : Chars) → List ℕ → List Arg → Out → Option Out
print textmode tbuf [] args o = some o
print textmode tbuf (c ∷ []) args o = some (if c == b'%' then o else putc textmode c o)
print textmode tbuf (c ∷ d ∷ fmt) args o =
    let skipped = print textmode tbuf (d ∷ fmt) args o in
    let plain = print textmode tbuf (d ∷ fmt) args (putc textmode c o) in
    let converted = go_on (directive textmode tbuf d args o) (print textmode tbuf fmt) skipped in
    if c == b'%' then converted else plain
