-- ===== src/Leadership/Samples.antt =====
-- The threshold's arithmetic at a stake of 1000, of which the note holds 10.
use nomos_node.Prelude.{ℕ, ◌-◌, ◌*◌, ◌≡◌, arith, nat_eq, ok}
use nomos_node.Leadership.{phi_coefficients, phi_approx}
use nomos_node.Leadership.Overflow.{phi_approx_total}

phi_approx_total_example :
    (t0 : ℕ) × (t1 : ℕ) × (phi_coefficients {E = ℕ} 1000 50 ≡ ok (t0, t1))
    × (phi_approx {E = ℕ} 10 (t0, t1) ≡ ok (10 * (t0 - t1 * 10)))
phi_approx_total_example =
    phi_approx_total 10 1000 50 (omega arith) (omega arith) (omega arith) (omega arith)
