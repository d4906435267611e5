-- ===== src/Printing/Tests.antt =====
-- Runs of the printing functions.
use piggy_os.Base.{
  ℕ, ◌+◌, ◌-◌, ◌^◌, ◌<◌, ◌≤◌, ◌≡◌, ◌≢◌, ◌⊎◌, refl, List, [], ◌∷◌, ◌++◌, arith, some, false, length,
}
use piggy_os.Printing.{Chars, Out, itoa, itoa_s, print, puts}
use piggy_os.Printing.Digits.{numeral, signed_numeral, read_from, figures}
use piggy_os.Printing.Itoa.{Copied, itoa-Copied, itoa-read_from, itoa_s-fits}
use piggy_os.Printing.Format.{
  Piece, literal, string, decimal, hex, char, format, arguments, message, print-message,
  print-unknown,
}
use piggy_os.Printing.Log.{log_ok, other, klog, opening, closing, escaped, klog-message}
use piggy_os.Vga.{Vga}

abbrev zeros : Chars
zeros = λ _. 0

abbrev dark : Vga
dark = record { screen_buffer = λ _. 0; color = 0xf00; cur_x = 0; cur_y = 0; ports = [] }

abbrev quiet : Out
quiet = record { screen = dark; serial = [] }

-- "a=%d b=%x %s" with −12, 255 and "ok".
abbrev parts : List Piece
parts =
    literal b'a'
    ∷ literal b'='
    ∷ decimal (2 ^ 32 - 12)
    ∷ literal 32
    ∷ hex 255
    ∷ char b'!'
    ∷ string (b'o' ∷ b'k' ∷ [])
    ∷ []

parts_text :
    message parts ≡ b'a' ∷ b'=' ∷ b'-' ∷ b'1' ∷ b'2' ∷ 32 ∷ b'F' ∷ b'F' ∷ b'!' ∷ b'o' ∷ b'k' ∷ []
unfolding signed_numeral numeral figures
parts_text = refl

itoa-Copied_run :
    (r : Chars × Chars) × (itoa 33 255 16 8 zeros zeros ≡ some r)
    × Copied 8 (numeral 16 255) zeros r.1
itoa-Copied_run = itoa-Copied 255 16 8 zeros zeros (omega arith) (omega arith) (omega arith)

itoa-read_from_example :
    (r : Chars × Chars) × (ds : List ℕ) × (itoa 33 1234 7 8 zeros zeros ≡ some r)
    × Copied 8 ds zeros r.1
    × (read_from 7 0 ds ≡ 1234)
    × (length ds ≤ 32)
itoa-read_from_example =
    itoa-read_from 1234 7 8 zeros zeros (omega arith) (omega arith) (omega arith)

itoa_s-fits_example :
    (r q : Chars × Chars) × (itoa_s 33 (2 ^ 31) 10 8 zeros zeros ≡ some r)
    × (itoa 33 (2 ^ 31) 16 8 zeros zeros ≡ some q)
    × ((j : ℕ) → (j < 8) ⊎ (8 + 12 ≤ j) → r.1 j ≡ 0)
    × ((j : ℕ) → (j < 8) ⊎ (8 + 9 ≤ j) → q.1 j ≡ 0)
itoa_s-fits_example = itoa_s-fits (2 ^ 31) 8 zeros zeros (omega arith)

print-message_example :
    print false zeros (format parts) (arguments parts ++ []) quiet
    ≡ some (puts false (message parts) quiet)
print-message_example = print-message false zeros parts [] quiet (omega arith)

print-unknown_run :
    print false zeros (b'%' ∷ b'u' ∷ []) [] quiet ≡ print false zeros (b'u' ∷ []) [] quiet
print-unknown_run =
    print-unknown false zeros b'u' [] [] quiet (omega arith) (omega arith) (omega arith)
      (omega arith)

klog-message_run :
    (o' : Out) × (klog false zeros log_ok (some (format parts)) (arguments parts ++ []) quiet
      ≡ some (1, o'))
    × (o'.serial ≡ opening ++ (escaped log_ok ++ (closing ++ message parts)))
    × (o'.screen.color ≡ 0xf00)
klog-message_run = klog-message false zeros log_ok parts quiet ok_ne_other (omega arith)
  where
    ok_ne_other : log_ok ≢ other
    ok_ne_other e = cc
