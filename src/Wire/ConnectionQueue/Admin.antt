-- ===== src/Wire/ConnectionQueue/Admin.antt =====
-- The admin bit of a slot number.
use tateyama.Base.{ℕ, ◌<◌, ◌≡◌, true, false, arith}
use tateyama.Wire.ConnectionQueue.{set_admin, reset_admin, is_admin, admin_bit}

pub is_admin_small : (s : ℕ) → s < admin_bit → is_admin s ≡ false
is_admin_small s h = ground arith

pub is_admin-set_admin : (s : ℕ) → s < admin_bit → is_admin (set_admin s) ≡ true
unfolding set_admin
is_admin-set_admin s h = ground (arith, is_admin_small s h)

pub reset_admin_small : (s : ℕ) → s < admin_bit → reset_admin s ≡ s
unfolding reset_admin
reset_admin_small s h = ground (arith, is_admin_small s h)

-- Taking the admin bit off a slot number that it was put on gives the slot number back.
pub reset_admin-set_admin : (s : ℕ) → s < admin_bit → reset_admin (set_admin s) ≡ s
unfolding set_admin reset_admin
reset_admin-set_admin s h = ground (arith, is_admin_small s h)
