-- ===== src/Batches/Flagged.antt =====
-- Setting a name of a `map[string]bool`.
use kubernetes_upgrade_opera.Base.{
  String, str_eq, ◌≡◌, refl, true, [], ◌∷◌, if◌then◌else◌, arith, eq_iff,
}
use kubernetes_upgrade_opera.Batches.{Flags, flag, set_flag}

pub flag-set_flag :
    (m : Flags) (k n : String) → flag (set_flag m k) n ≡ (if str_eq k n then true else flag m n)
unfolding flag set_flag
flag-set_flag [] k n = refl
flag-set_flag ((j, b) ∷ m) k n =
    ground (arith, eq_iff j k, eq_iff j n, eq_iff k n, flag-set_flag m k n)
