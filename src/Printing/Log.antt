-- ===== src/Printing/Log.antt =====
-- `kprintf` and `klog` (kernel/utils/display.c): the labels, and the message behind them.
use piggy_os.Base.{
  ℕ, ◌≡◌, ◌≢◌, refl, ap, ◌∙◌, List, [], ◌∷◌, ◌++◌, arith, some, Option, none, Bool, true, false,
  then_with, if◌then◌else◌,
}
use mathlib.Core.List.{append_assoc}
use piggy_os.Printing.{Chars, Out, Arg, puts, print}
use piggy_os.Printing.Format.{Piece, ArePieces, format, arguments, message, print-message}
use piggy_os.Vga.{Vga, vga_puts, vga_putc, vga_set_color, place, wrap, scroll, move_cur}

-- A NULL format prints nothing and the answer is 0.
unfoldable pub kprintf :
    (textmode : Bool) → (tbuf : Chars) → Option (List ℕ) → List Arg → Out → Option (ℕ × Out)
kprintf textmode tbuf none args o = some (0, o)
kprintf textmode tbuf (some fmt) args o =
    then_with (print textmode tbuf fmt args o) λ o'. some (1, o')

-- `enum status`; `other` is any value that the enumeration does not name.
pub data Status : Type 0 where
  log_ok : Status
  log_err : Status
  log_warn : Status
  other : Status

-- "OK", "ERROR" and "WARNING".
abbrev pub label : Status → List ℕ
label log_ok = b'O' ∷ b'K' ∷ []
label log_err = b'E' ∷ b'R' ∷ b'R' ∷ b'O' ∷ b'R' ∷ []
label log_warn = b'W' ∷ b'A' ∷ b'R' ∷ b'N' ∷ b'I' ∷ b'N' ∷ b'G' ∷ []
label other = []

-- The colour of the label: light green, light red, yellow.
abbrev pub label_color : Status → ℕ
label_color log_ok = 10
label_color log_err = 12
label_color log_warn = 14
label_color other = 15

-- "[ " and " ] ".
abbrev pub opening : List ℕ
opening = b'[' ∷ 32 ∷ []

abbrev pub closing : List ℕ
closing = 32 ∷ b']' ∷ 32 ∷ []

-- "\033[92m", "\033[91m" or "\033[93m" before the label, and "\033[0m" behind it.
abbrev pub escape_digit : Status → ℕ
escape_digit log_ok = b'2'
escape_digit log_err = b'1'
escape_digit log_warn = b'3'
escape_digit other = b'0'

abbrev pub escaped : Status → List ℕ
escaped status =
    (27 ∷ b'[' ∷ b'9' ∷ escape_digit status ∷ b'm' ∷ [])
    ++ (label status ++ (27 ∷ b'[' ∷ b'0' ∷ b'm' ∷ []))

-- The label on the screen, in its colour, and white on black afterwards.
unfoldable pub screen_label : Status → Vga → Vga
screen_label status s =
    let shown =
      vga_puts (label status) (vga_set_color (label_color status) 0 (vga_puts opening s)) in
    vga_puts closing (vga_set_color 15 0 shown)

abbrev pub labelled : (textmode : Bool) → Status → Out → Out
labelled textmode status o = record {
  screen = if textmode then screen_label status o.screen else o.screen;
  serial = ((o.serial ++ opening) ++ escaped status) ++ closing;
}

unfoldable pub klog :
    (textmode : Bool)
    → (tbuf : Chars) → Status
    → Option (List ℕ)
    → List Arg
    → Out
    → Option (ℕ × Out)
klog textmode tbuf status none args o = some (0, o)
klog textmode tbuf other (some fmt) args o = some (0, o)
klog textmode tbuf log_ok (some fmt) args o =
    kprintf textmode tbuf (some fmt) args (labelled textmode log_ok o)
klog textmode tbuf log_err (some fmt) args o =
    kprintf textmode tbuf (some fmt) args (labelled textmode log_err o)
klog textmode tbuf log_warn (some fmt) args o =
    kprintf textmode tbuf (some fmt) args (labelled textmode log_warn o)

place-color : (c : ℕ) (s : Vga) → (place c s).color ≡ s.color
unfolding place
place-color c s = ground arith

vga_putc-color : (c : ℕ) (s : Vga) → (vga_putc c s).color ≡ s.color
unfolding vga_putc wrap scroll move_cur
vga_putc-color c s = ground (arith, place-color c s)

pub vga_puts-color : (cs : List ℕ) (s : Vga) → (vga_puts cs s).color ≡ s.color
unfolding vga_puts
vga_puts-color [] s = refl
vga_puts-color (c ∷ cs) s = vga_puts-color cs (vga_putc c s) ∙ vga_putc-color c s

-- The colour behind a label does not depend on what was before.
screen_label-color : (status : Status) (s : Vga) → (screen_label status s).color ≡ 0xf00
unfolding screen_label vga_set_color
screen_label-color status s = vga_puts-color closing _

klog-kprintf :
    (t : Bool) (tbuf : Chars) (status : Status) (fmt : List ℕ) (args : List Arg) (o : Out)
    → status ≢ other
    → klog t tbuf status (some fmt) args o ≡ kprintf t tbuf (some fmt) args (labelled t status o)
unfolding klog
klog-kprintf t tbuf log_ok fmt args o ne = refl
klog-kprintf t tbuf log_err fmt args o ne = refl
klog-kprintf t tbuf log_warn fmt args o ne = refl
klog-kprintf t tbuf other fmt args o ne = absurd (ne refl)

kprintf-message :
    (t : Bool) (tbuf : Chars) (ps : List Piece) (o : Out)
    → ArePieces ps
    → kprintf t tbuf (some (format ps)) (arguments ps ++ []) o ≡ some (1, puts t (message ps) o)
unfolding kprintf
kprintf-message t tbuf ps o a =
    ap (λ r. then_with r λ (x : Out). some (1, x)) (print-message t tbuf ps [] o a)

labelled-color :
    (t : Bool) (status : Status) (cs : List ℕ) (o : Out)
    → (puts t cs (labelled t status o)).screen.color ≡ (if t then 0xf00 else o.screen.color)
unfolding puts
labelled-color true status cs o =
    vga_puts-color cs (screen_label status o.screen) ∙ screen_label-color status o.screen
labelled-color false status cs o = refl

labelled-serial :
    (t : Bool) (status : Status) (cs : List ℕ) (o : Out)
    → (puts t cs (labelled t status o)).serial
      ≡ o.serial ++ (opening ++ (escaped status ++ (closing ++ cs)))
unfolding puts
labelled-serial t status cs o = simp append_assoc

-- A message to the log, with one of the three statuses, answers 1; the serial port gets the label in
-- its escape sequences and the text, behind what it had, and a screen is left white on black.
pub klog-message :
    (t : Bool) (tbuf : Chars) (status : Status) (ps : List Piece) (o : Out)
    → status ≢ other
    → ArePieces ps
    → (o' : Out) × (klog t tbuf status (some (format ps)) (arguments ps ++ []) o ≡ some (1, o'))
      × (o'.serial ≡ o.serial ++ (opening ++ (escaped status ++ (closing ++ message ps))))
      × (o'.screen.color ≡ (if t then 0xf00 else o.screen.color))
klog-message t tbuf status ps o ne a = (
  puts t (message ps) (labelled t status o),
  klog-kprintf t tbuf status (format ps) (arguments ps ++ []) o ne
      ∙ kprintf-message t tbuf ps (labelled t status o) a,
  labelled-serial t status (message ps) o,
  labelled-color t status (message ps) o,
)
