-- ===== src/Serial.antt =====
-- kernel/drivers/serial.c: the queue of received characters and the interrupt handler that fills
-- it. The writes that set the port up, and the output loop, are not modelled.
pub mod Queue
mod Tests
use piggy_os.Base.{
  ℕ, zero, suc, ◌+◌, ◌-◌, ◌*◌, ◌/◌, ◌%◌, ◌^◌, bit_and, Bool, true, false, ◌&&◌, Option, none, some,
  List, [], ◌∷◌, ◌==◌, if◌then◌else◌, update,
}

-- `READ_QUEUE_SIZE`
abbrev pub read_queue_size : ℕ
read_queue_size = 1024

-- An index of the queue: `none` is −1.
abbrev pub Index : Type 0
Index = Option ℕ

pub record Serial : Type 0 where
  pub read_queue : ℕ → ℕ
  pub queue_front : Index
  pub queue_rear : Index

-- `(i + 1) % READ_QUEUE_SIZE`
abbrev pub next : Index → ℕ
next none = 0
next (some i) = (i + 1) % read_queue_size

-- `==` of two indices.
abbrev pub same_index : Index → Index → Bool
same_index none none = true
same_index none (some j) = false
same_index (some i) none = false
same_index (some i) (some j) = i == j

-- The character at the front, and the queue without it; 0 where it is empty.
unfoldable pub serial_getc : Serial → ℕ × Serial
serial_getc s = elim s.queue_front [
  | none ↦ (0, s)
  | some front ↦ (
    s.read_queue front,
    if same_index s.queue_front s.queue_rear
        then record s { queue_front = none; queue_rear = none }
        else record s { queue_front = some (next s.queue_front) },
  )
]

-- `port_read_ready` until it holds, on the bytes that the line status register yields; `none`
-- where they end before.
pub wait_ready : List ℕ → Option (List ℕ)
wait_ready [] = none
wait_ready (status ∷ rest) =
    let later = wait_ready rest in if bit_and status 1 == 0 then later else some rest

abbrev pub first_index : Index → Index
first_index none = some 0
first_index (some i) = some i

-- The handler behind the wait: the byte `d` is stored unless the queue is found full.
unfoldable pub receive : ℕ → Serial → Serial
receive d s =
    let rear = next s.queue_rear in
    if same_index s.queue_front (some 0) && same_index s.queue_rear (some (read_queue_size - 1))
    then s
    else record {
      read_queue = update s.read_queue rear d;
      queue_front = first_index s.queue_front;
      queue_rear = some rear;
    }

abbrev pub after_wait : ℕ → Serial → Option (List ℕ) → Option Serial
after_wait d s none = none
after_wait d s (some rest) = some (receive d s)

-- `isr` is what the interrupt identification register yields, `line` what the line status register
-- yields read by read, and `d` the byte received; `none` where the wait does not end.
unfoldable pub serial_irq_handler : (isr : ℕ) → (line : List ℕ) → (d : ℕ) → Serial → Option Serial
unfolding wait_ready
serial_irq_handler isr line d s =
    if bit_and isr (2 ^ 2) == 0 then some s else after_wait d s (wait_ready line)
