-- ===== src/Serial/Tests.antt =====
-- Runs of the serial port's queue.
use piggy_os.Base.{◌%◌, ◌≡◌, refl, arith, [], ◌∷◌, ◌++◌, some, length}
use piggy_os.Serial.{Serial, serial_getc, wait_ready, serial_irq_handler}
use piggy_os.Serial.Queue.{
  contents, IsValid, popped, ring_from, serial_getc-popped, serial_irq_handler-append,
  serial_irq_handler-overrun,
}

-- Three characters, the last of them behind the end of the array.
abbrev three : Serial
three = record { read_queue = λ i. i % 256; queue_front = some 1022; queue_rear = some 0 }

-- A full queue that begins at index 5.
abbrev full : Serial
full = record { read_queue = λ i. i % 256; queue_front = some 5; queue_rear = some 4 }

ready : wait_ready (0 ∷ 0x60 ∷ 0x61 ∷ []) ≡ some []
unfolding wait_ready
ready = refl

serial_getc-popped_example :
    let (c, s') = serial_getc three in IsValid s' × ((c, contents s') ≡ popped (contents three))
serial_getc-popped_example = serial_getc-popped three (omega arith, omega arith)

first : (serial_getc three).0 ≡ 254
unfolding serial_getc
first = refl

serial_irq_handler-append_example :
    (s' : Serial) × (serial_irq_handler 4 (0 ∷ 0x60 ∷ 0x61 ∷ []) 65 three ≡ some s')
    × IsValid s'
    × (contents s' ≡ contents three ++ (65 ∷ []))
unfolding ring_from
serial_irq_handler-append_example =
    serial_irq_handler-append 4 (0 ∷ 0x60 ∷ 0x61 ∷ []) 65 three (omega arith) ready
      (omega arith, omega arith) (omega arith)

full-length : length (contents full) ≡ 1024
unfolding ring_from
full-length = refl

serial_irq_handler-overrun_run :
    (s' : Serial) × (serial_irq_handler 4 (0 ∷ 0x60 ∷ 0x61 ∷ []) 65 full ≡ some s')
    × (contents s' ≡ 65 ∷ [])
serial_irq_handler-overrun_run =
    serial_irq_handler-overrun 4 (0 ∷ 0x60 ∷ 0x61 ∷ []) 65 full (omega arith) ready
      (omega arith, omega arith) full-length (λ e. ground arith)
