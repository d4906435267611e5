-- ===== src/Rand/Tests.antt =====
-- Runs of the random number generator.
use piggy_os.Base.{ℕ, ◌+◌, ◌<◌, ◌≤◌, ◌≡◌, ◌⊎◌, refl, arith}
use piggy_os.Rand.{initial, init_rand, rand, read_random}
use piggy_os.Rand.Step.{IsValid, Stepped, rand-Stepped}
use piggy_os.Rand.Fill.{Bytes, numbers, state_after, read_random-numbers, Seeded, init_rand-Seeded}

initial-IsValid : IsValid initial
initial-IsValid = record { word = λ k. omega arith; carry = omega arith; index = omega arith }

rand-Stepped_example : let (r, s') = rand initial in Stepped initial r s' × IsValid s'
rand-Stepped_example = rand-Stepped initial initial-IsValid

-- 362436 at word 0 and no high half: the answer is `2 ^ 32 - 2 - 362436`.
first_number : (rand initial).0 ≡ 4294604858
unfolding rand
first_number = refl

init_rand-Seeded_example :
    Seeded 5 (init_rand 5 initial).q × IsValid (state_after 3 (init_rand 5 initial))
init_rand-Seeded_example = init_rand-Seeded 5 3 (omega arith)

read_random-numbers_run :
    let (n, mem', s') = read_random 7 2 100 (λ _. 0) initial in
    (n ≡ 2)
    × Bytes mem' 100 (numbers 2 initial)
    × ((j : ℕ) → (j < 100) ⊎ (100 + 2 ≤ j) → mem' j ≡ 0)
    × (s' ≡ state_after 2 initial)
    × IsValid s'
read_random-numbers_run = read_random-numbers 7 2 100 (λ _. 0) initial initial-IsValid
