-- ===== src/Printing/Format.antt =====
-- `__kprintf_va_list`: what a format made of literal characters and directives prints.
use piggy_os.Base.{
  ℕ, zero, suc, ◌+◌, ◌^◌, ◌<◌, ◌≡◌, ◌≢◌, refl, sym, ap, ◌∙◌, List, [], ◌∷◌, ◌++◌, arith, some,
  ne→==, Bool, true, false, length, u8,
}
use mathlib.Core.List.{append_assoc, append-nil}
use piggy_os.Printing.{
  Chars, Out, Arg, text, number, done, directive, put_number, itoa, itoa_s, visited, puts, putc,
  print, Written,
}
use piggy_os.Printing.Digits.{numeral, signed_numeral, numerals-fit}
use piggy_os.Printing.Itoa.{itoa-Copied, itoa_s-Copied}
use piggy_os.Strings.Compare.{HasString}
use piggy_os.Vga.{Vga, vga_putc, vga_puts}

-- A part of a format: a character, or a directive with its argument.
pub data Piece : Type 0 where
  literal : ℕ → Piece
  string : List ℕ → Piece
  decimal : ℕ → Piece
  hex : ℕ → Piece
  char : ℕ → Piece

-- A literal is no percent sign, and a number has 32 bits.
abbrev pub IsPiece : Piece → Type 0
IsPiece (literal c) = c ≢ b'%'
IsPiece (string s) = Unit
IsPiece (decimal n) = n < 2 ^ 32
IsPiece (hex n) = n < 2 ^ 32
IsPiece (char n) = Unit

abbrev pub ArePieces : List Piece → Type 0
ArePieces [] = Unit
ArePieces (p ∷ ps) = IsPiece p × ArePieces ps

-- The format, the arguments and the text of a list of parts.
abbrev pub format : List Piece → List ℕ
format [] = []
format (literal c ∷ ps) = c ∷ format ps
format (string s ∷ ps) = b'%' ∷ b's' ∷ format ps
format (decimal n ∷ ps) = b'%' ∷ b'd' ∷ format ps
format (hex n ∷ ps) = b'%' ∷ b'x' ∷ format ps
format (char n ∷ ps) = b'%' ∷ b'c' ∷ format ps

abbrev pub arguments : List Piece → List Arg
arguments [] = []
arguments (literal c ∷ ps) = arguments ps
arguments (string s ∷ ps) = text s ∷ arguments ps
arguments (decimal n ∷ ps) = number n ∷ arguments ps
arguments (hex n ∷ ps) = number n ∷ arguments ps
arguments (char n ∷ ps) = number n ∷ arguments ps

abbrev pub shown : Piece → List ℕ
shown (literal c) = c ∷ []
shown (string s) = s
shown (decimal n) = signed_numeral 10 n
shown (hex n) = numeral 16 n
shown (char n) = u8 n ∷ []

abbrev pub message : List Piece → List ℕ
message [] = []
message (p ∷ ps) = shown p ++ message ps

visited-HasString :
    (fuel p : ℕ) (mem : Chars) (cs : List ℕ)
    → HasString mem p cs
    → length cs < fuel
    → visited fuel p mem ≡ some cs
unfolding visited
visited-HasString zero p mem cs a h = absurd (omega arith)
visited-HasString (suc fuel) p mem [] a h = ground arith
visited-HasString (suc fuel) p mem (c ∷ cs) a h =
    ground (arith, a.0, a.1, visited-HasString fuel (p + 1) mem cs a.2 (omega arith))

vga_puts-append : (xs ys : List ℕ) (s : Vga) → vga_puts ys (vga_puts xs s) ≡ vga_puts (xs ++ ys) s
unfolding vga_puts
vga_puts-append [] ys s = refl
vga_puts-append (x ∷ xs) ys s = vga_puts-append xs ys (vga_putc x s)

puts-nil : (t : Bool) (o : Out) → puts t [] o ≡ o
unfolding puts vga_puts
puts-nil false o = rw (append-nil o.serial)
puts-nil true o = rw (append-nil o.serial)

-- Two texts in turn are one text.
pub puts-append :
    (t : Bool) (xs ys : List ℕ) (o : Out) → puts t ys (puts t xs o) ≡ puts t (xs ++ ys) o
unfolding puts
puts-append false xs ys o = rw (append_assoc o.serial xs ys)
puts-append true xs ys o = rw (append_assoc o.serial xs ys, vga_puts-append xs ys o.screen)

pub putc-puts : (t : Bool) (c : ℕ) (o : Out) → putc t c o ≡ puts t (c ∷ []) o
unfolding putc puts vga_puts
putc-puts false c o = refl
putc-puts true c o = refl

number_done :
    (t : Bool) (w : Written) (r : Chars × Chars) (ds : List ℕ) (args : List Arg) (o : Out)
    → w ≡ some r
    → HasString r.1 0 ds
    → length ds < 34
    → put_number t w args o ≡ done args (puts t ds o)
number_done t w r ds args o e s h = rw (e, visited-HasString 34 0 r.1 ds s h)

module _ (t : Bool) (tbuf : Chars) (o : Out) where
  decimal_done :
      (n : ℕ) (args : List Arg)
      → n < 2 ^ 32
      → directive t tbuf b'd' (number n ∷ args) o ≡ done args (puts t (signed_numeral 10 n) o)
  unfolding directive
  decimal_done n args h =
      let w = itoa_s-Copied n 10 0 tbuf (λ _. 0) (omega arith) (omega arith) h in
      number_done t (itoa_s 33 n 10 0 tbuf (λ _. 0)) w.0 (signed_numeral 10 n) args o w.1 w.2.stored
        (omega (arith, numerals-fit n h))

  hex_done :
      (n : ℕ) (args : List Arg)
      → n < 2 ^ 32
      → directive t tbuf b'x' (number n ∷ args) o ≡ done args (puts t (numeral 16 n) o)
  unfolding directive
  hex_done n args h =
      let w = itoa-Copied n 16 0 tbuf (λ _. 0) (omega arith) (omega arith) h in
      number_done t (itoa 33 n 16 0 tbuf (λ _. 0)) w.0 (numeral 16 n) args o w.1 w.2.stored
        (omega (arith, numerals-fit n h))

  string_done :
      (s : List ℕ) (args : List Arg)
      → directive t tbuf b's' (text s ∷ args) o ≡ done args (puts t s o)
  unfolding directive
  string_done s args = refl

  char_done :
      (n : ℕ) (args : List Arg)
      → directive t tbuf b'c' (number n ∷ args) o ≡ done args (puts t (u8 n ∷ []) o)
  unfolding directive
  char_done n args = ap (done args) (putc-puts t (u8 n) o)

print-nil :
    (t : Bool) (tbuf : Chars) (args : List Arg) (o : Out)
    → print t tbuf [] args o ≡ some (puts t [] o)
unfolding print
print-nil t tbuf args o = ap some (sym (puts-nil t o))

-- A directive that is done goes on behind its letter.
print-done :
    (t : Bool) (tbuf : Chars) (d : ℕ) (fmt : List ℕ) (args rest : List Arg) (o o' : Out)
    → directive t tbuf d args o ≡ done rest o'
    → print t tbuf (b'%' ∷ d ∷ fmt) args o ≡ print t tbuf fmt rest o'
unfolding print
print-done t tbuf d fmt args rest o o' e = rw e

-- A character that is no percent sign is printed.
print-literal :
    (t : Bool) (tbuf : Chars) (c : ℕ) (fmt : List ℕ) (args : List Arg) (o : Out)
    → c ≢ b'%'
    → print t tbuf (c ∷ fmt) args o ≡ print t tbuf fmt args (puts t (c ∷ []) o)
unfolding print
print-literal t tbuf c [] args o ne = rw (ne→== c b'%' ne) (ap some (putc-puts t c o))
print-literal t tbuf c (d ∷ fmt) args o ne =
    rw (ne→== c b'%' ne) (ap (print t tbuf (d ∷ fmt) args) (putc-puts t c o))

-- Printing the rest behind a text that is out.
then_rest :
    (t : Bool) (tbuf : Chars) (fmt xs ys : List ℕ) (args : List Arg) (o : Out)
    → print t tbuf fmt args (puts t xs o) ≡ some (puts t ys (puts t xs o))
    → print t tbuf fmt args (puts t xs o) ≡ some (puts t (xs ++ ys) o)
then_rest t tbuf fmt xs ys args o e = e ∙ ap some (puts-append t xs ys o)

-- One part, and the rest behind it.
behind :
    (t : Bool) (tbuf : Chars) (ps : List Piece) (d : ℕ) (xs : List ℕ) (a : Arg) (rest : List Arg)
    (o : Out)
    → directive t tbuf d (a ∷ (arguments ps ++ rest)) o ≡ done (arguments ps ++ rest) (puts t xs o)
    → print t tbuf (format ps) (arguments ps ++ rest) (puts t xs o)
      ≡ some (puts t (message ps) (puts t xs o))
    → print t tbuf (b'%' ∷ d ∷ format ps) (a ∷ (arguments ps ++ rest)) o
      ≡ some (puts t (xs ++ message ps) o)
behind t tbuf ps d xs a rest o done_with after =
    let args = arguments ps ++ rest in
    print-done t tbuf d (format ps) (a ∷ args) args o (puts t xs o) done_with
    ∙ then_rest t tbuf (format ps) xs (message ps) args o after

-- A format put together from literal characters and directives, with its arguments, prints the
-- texts of these parts, one behind the other, on both devices; arguments left over do not matter.
pub print-message :
    (t : Bool) (tbuf : Chars) (ps : List Piece) (rest : List Arg) (o : Out)
    → ArePieces ps
    → print t tbuf (format ps) (arguments ps ++ rest) o ≡ some (puts t (message ps) o)
print-message t tbuf [] rest o a = print-nil t tbuf rest o
print-message t tbuf (literal c ∷ ps) rest o a =
    print-literal t tbuf c (format ps) (arguments ps ++ rest) o a.0
    ∙ then_rest t tbuf (format ps) (c ∷ []) (message ps) (arguments ps ++ rest) o
        (print-message t tbuf ps rest (puts t (c ∷ []) o) a.1)
print-message t tbuf (string s ∷ ps) rest o a =
    behind t tbuf ps b's' s (text s) rest o (string_done t tbuf o s (arguments ps ++ rest))
      (print-message t tbuf ps rest (puts t s o) a.1)
print-message t tbuf (decimal n ∷ ps) rest o a =
    behind t tbuf ps b'd' (signed_numeral 10 n) (number n) rest o
      (decimal_done t tbuf o n (arguments ps ++ rest) a.0)
      (print-message t tbuf ps rest (puts t (signed_numeral 10 n) o) a.1)
print-message t tbuf (hex n ∷ ps) rest o a =
    behind t tbuf ps b'x' (numeral 16 n) (number n) rest o
      (hex_done t tbuf o n (arguments ps ++ rest) a.0)
      (print-message t tbuf ps rest (puts t (numeral 16 n) o) a.1)
print-message t tbuf (char n ∷ ps) rest o a =
    behind t tbuf ps b'c' (u8 n ∷ []) (number n) rest o
      (char_done t tbuf o n (arguments ps ++ rest))
      (print-message t tbuf ps rest (puts t (u8 n ∷ []) o) a.1)

-- A letter that is no directive is printed as if the percent sign before it were not there.
pub print-unknown :
    (t : Bool) (tbuf : Chars) (d : ℕ) (fmt : List ℕ) (args : List Arg) (o : Out)
    → d ≢ b's'
    → d ≢ b'd'
    → d ≢ b'x'
    → d ≢ b'c'
    → print t tbuf (b'%' ∷ d ∷ fmt) args o ≡ print t tbuf (d ∷ fmt) args o
unfolding print directive
print-unknown t tbuf d fmt args o s e x c =
    rw (ne→== d b's' s, ne→== d b'd' e, ne→== d b'x' x, ne→== d b'c' c)
