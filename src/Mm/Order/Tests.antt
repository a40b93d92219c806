-- ===== src/Mm/Order/Tests.antt =====
-- Orders of concrete sizes.
use kernel_r.Prelude.{ℕ, ◌≡◌, ok, arith}
use kernel_r.Mm.Order.{size_to_order}
use kernel_r.Mm.Order.Laws.{OrderFor, size_to_order-OrderFor}

size_to_order-OrderFor_example : (order : ℕ) × (size_to_order 5000 ≡ ok order) × OrderFor 5000 order
size_to_order-OrderFor_example = size_to_order-OrderFor 5000 (omega arith)
