-- ===== src/Queue/Ids.antt =====
-- The numbers that the queue gives to its settings.
use oig_proxy.Common.{ℕ, ◌+◌, ◌≤◌, ◌<◌, ◌≡◌, ◌⊎◌, arith}
use oig_proxy.Queue.{max_id_set, generate_id_set, generate_msg_id}

-- From a counter and a clock of at most ten digits, the id has at most ten digits, and so has the
-- next value of the counter, which is the next number, or the clock's after the largest id.
pub generate_id_set_bounds :
    (epoch next : ℕ)
    → epoch ≤ max_id_set
    → next ≤ max_id_set
    → let (id, next') = generate_id_set epoch next in
      (id ≡ next)
      × (next' ≤ max_id_set)
      × ((next' ≡ id + 1) ⊎ ((id ≡ max_id_set) × (next' ≡ epoch)))
unfolding generate_id_set
generate_id_set_bounds epoch next h k = ground arith

-- A message id has eight digits.
pub generate_msg_id_bounds :
    (random : ℕ)
    → random < 1000000
    → (14000000 ≤ generate_msg_id random) × (generate_msg_id random < 15000000)
unfolding generate_msg_id
generate_msg_id_bounds random h = omega arith
