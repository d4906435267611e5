-- ===== src/Serial/Queue.antt =====
-- The queue of serial.c as a sequence of characters.
use piggy_os.Base.{
  ℕ, zero, suc, ◌+◌, ◌-◌, ◌%◌, ◌≤◌, ◌<◌, ◌≡◌, ◌≢◌, refl, sym, ap, ◌∙◌, List, [], ◌∷◌, ◌++◌, none,
  some, false, inl, inr, ◌==◌, ◌&&◌, arith, update, length, Bool-cases, if_true, if_false, bit_and,
  ne→==, ==_refl,
}
use piggy_os.Serial.{Serial, Index, serial_getc, receive, wait_ready, serial_irq_handler}

-- `n` characters of the ring from index `front` on.
unfoldable pub ring_from : (ℕ → ℕ) → (front n : ℕ) → List ℕ
ring_from q front zero = []
ring_from q front (suc n) = q front ∷ ring_from q ((front + 1) % 1024) n

-- The characters between two indices, both included.
abbrev pub between : (ℕ → ℕ) → Index → Index → List ℕ
between q none _ = []
between q (some front) none = []
between q (some front) (some rear) = ring_from q front ((rear + 1024 - front) % 1024 + 1)

abbrev pub contents : Serial → List ℕ
contents s = between s.read_queue s.queue_front s.queue_rear

-- Both indices are −1, or both are in range.
abbrev pub InRange : Index → Index → Type 0
InRange none none = Unit
InRange none (some rear) = ⊥
InRange (some front) none = ⊥
InRange (some front) (some rear) = (front < 1024) × (rear < 1024)

abbrev pub IsValid : Serial → Type 0
IsValid s = InRange s.queue_front s.queue_rear

abbrev ring : (ℕ → ℕ) → (front rear : Index) → Serial
ring q front rear = record { read_queue = q; queue_front = front; queue_rear = rear }

-- A write outside of the characters changes none of them.
ring_from-update :
    (q : ℕ → ℕ) (p d front n : ℕ)
    → front < 1024
    → p < 1024
    → n ≤ (p + 1024 - front) % 1024
    → ring_from (update q p d) front n ≡ ring_from q front n
unfolding ring_from
ring_from-update q p d front zero a b h = refl
ring_from-update q p d front (suc n) a b h =
    let rest = ring_from-update q p d ((front + 1) % 1024) n (omega arith) b (omega arith) in
    ground (arith, rest)

-- A write behind the last character appends it.
ring_from-append :
    (q : ℕ → ℕ) (d p front n : ℕ)
    → front < 1024
    → n < 1024
    → p ≡ (front + n) % 1024
    → ring_from (update q p d) front (suc n) ≡ ring_from q front n ++ (d ∷ [])
unfolding ring_from
ring_from-append q d p front zero a h at = let here : p ≡ front = omega arith in ground arith
ring_from-append q d p front (suc n) a h at =
    let rest =
      ring_from-append q d p ((front + 1) % 1024) n (omega arith) (omega arith) (omega arith) in
    let other : p ≢ front = λ e. omega arith in ground (arith, rest)

-- The answer and what is left, for a sequence of characters.
abbrev pub popped : List ℕ → ℕ × List ℕ
popped [] = (0, [])
popped (c ∷ cs) = (c, cs)

popped-ring_from :
    (q : ℕ → ℕ) (front n m : ℕ)
    → n ≡ suc m
    → popped (ring_from q front n) ≡ (q front, ring_from q ((front + 1) % 1024) m)
unfolding ring_from
popped-ring_from q front n m e = rw e refl

getc-ring :
    (q : ℕ → ℕ) (front rear : Index)
    → InRange front rear
    → let (c, s') = serial_getc (ring q front rear) in
      IsValid s' × ((c, contents s') ≡ popped (between q front rear))
unfolding serial_getc ring_from
getc-ring q none none v = (v, refl)
getc-ring q none (some rear) v = absurd v
getc-ring q (some front) none v = absurd v
getc-ring q (some front) (some rear) v = elim (Bool-cases (front == rear)) [
  | inl e ↦
      let one : (rear + 1024 - front) % 1024 + 1 ≡ suc 0 = ground arith in
      rw e (tt, sym (popped-ring_from q front _ 0 one))
  | inr ne ↦
      let less : (rear + 1024 - front) % 1024 + 1
          ≡ suc ((rear + 1024 - (front + 1) % 1024) % 1024 + 1) =
        ground arith in
      rw ne ((omega arith, v.1), sym (popped-ring_from q front _ _ less))
]

-- `serial_getc` takes the first character off the sequence, and answers 0 where there is none.
pub serial_getc-popped :
    (s : Serial)
    → IsValid s
    → let (c, s') = serial_getc s in IsValid s' × ((c, contents s') ≡ popped (contents s))
serial_getc-popped s v = getc-ring s.read_queue s.queue_front s.queue_rear v

length-ring_from : (q : ℕ → ℕ) (front n : ℕ) → length (ring_from q front n) ≡ n
unfolding ring_from
length-ring_from q front zero = refl
length-ring_from q front (suc n) = ap suc (length-ring_from q ((front + 1) % 1024) n)

-- The next index behind `n` characters, which leave room for one more.
stored :
    (q : ℕ → ℕ) (d front rear n : ℕ)
    → front < 1024
    → rear < 1024
    → n ≡ (rear + 1024 - front) % 1024 + 1
    → n < 1024
    → between (update q ((rear + 1) % 1024) d) (some front) (some ((rear + 1) % 1024))
      ≡ ring_from q front n ++ (d ∷ [])
stored q d front rear n f r at room =
    ap (ring_from (update q ((rear + 1) % 1024) d) front) (omega arith)
    ∙ ring_from-append q d ((rear + 1) % 1024) front n f room (omega arith)

receive-ring :
    (q : ℕ → ℕ) (d : ℕ) (front rear : Index)
    → InRange front rear
    → length (between q front rear) < 1024
    → let s' = receive d (ring q front rear) in
      IsValid s' × (contents s' ≡ between q front rear ++ (d ∷ []))
unfolding receive ring_from
receive-ring q d none none v room = ((omega arith, omega arith), refl)
receive-ring q d none (some rear) v room = absurd v
receive-ring q d (some front) none v room = absurd v
receive-ring q d (some front) (some rear) v room =
    let n = (rear + 1024 - front) % 1024 + 1 in
    let fits : n < 1024 = omega (arith, room, length-ring_from q front n) in
    let test : (front == 0 && rear == 1023) ≡ false = ground arith in
    rw test ((v.0, omega arith), stored q d front rear n v.0 v.1 refl fits)

handler-receives :
    (isr : ℕ) (line : List ℕ) (d : ℕ) (s : Serial) {rest : List ℕ}
    → bit_and isr 4 ≢ 0
    → wait_ready line ≡ some rest
    → serial_irq_handler isr line d s ≡ some (receive d s)
unfolding serial_irq_handler
handler-receives isr line d s on ready =
    if_false (bit_and isr 4 == 0) _ _ (ne→== (bit_and isr 4) 0 on) ∙ rw ready refl

-- An interrupt for a received byte appends the byte to the queue, if the line status register
-- shows it at some read and fewer than 1024 characters wait.
pub serial_irq_handler-append :
    (isr : ℕ) (line : List ℕ) (d : ℕ) (s : Serial) {rest : List ℕ}
    → bit_and isr 4 ≢ 0
    → wait_ready line ≡ some rest
    → IsValid s
    → length (contents s) < 1024
    → (s' : Serial) × (serial_irq_handler isr line d s ≡ some s')
      × IsValid s'
      × (contents s' ≡ contents s ++ (d ∷ []))
serial_irq_handler-append isr line d s on ready v room =
    let (valid, appended) = receive-ring s.read_queue d s.queue_front s.queue_rear v room in
    (receive d s, handler-receives isr line d s on ready, valid, appended)

full-ring :
    (q : ℕ → ℕ) (d : ℕ) (front rear : Index)
    → InRange front rear
    → length (between q front rear) ≡ 1024
    → front ≢ some 0
    → contents (receive d (ring q front rear)) ≡ d ∷ []
unfolding receive ring_from
full-ring q d none none v full moved = refl
full-ring q d none (some rear) v full moved = absurd v
full-ring q d (some front) none v full moved = absurd v
full-ring q d (some front) (some rear) v full moved =
    let ne : front ≢ 0 = λ e. moved (ap some e) in
    let all = length-ring_from q front ((rear + 1024 - front) % 1024 + 1) in
    let wraps : (rear + 1) % 1024 ≡ front = omega (arith, all, full, v.0, v.1) in
    let test : (front == 0 && rear == 1023) ≡ false = ground arith in
    let one : ((rear + 1) % 1024 + 1024 - front) % 1024 + 1 ≡ 1 = omega (arith, wraps) in
    rw test (
      ap (ring_from (update q ((rear + 1) % 1024) d) front) one
      ∙ ap (λ c. c ∷ []) (if_true ((rear + 1) % 1024 == front) _ _ (rw wraps (==_refl front))))

-- A byte that comes when 1024 characters wait and the first of them is not at index 0 is taken for
-- the only one: the queue is then that byte alone, and the 1024 characters are lost.
pub serial_irq_handler-overrun :
    (isr : ℕ) (line : List ℕ) (d : ℕ) (s : Serial) {rest : List ℕ}
    → bit_and isr 4 ≢ 0
    → wait_ready line ≡ some rest
    → IsValid s
    → length (contents s) ≡ 1024
    → s.queue_front ≢ some 0
    → (s' : Serial) × (serial_irq_handler isr line d s ≡ some s') × (contents s' ≡ d ∷ [])
serial_irq_handler-overrun isr line d s on ready v full moved = (
  receive d s,
  handler-receives isr line d s on ready,
  full-ring s.read_queue d s.queue_front s.queue_rear v full moved,
)
