-- ===== src/Core/Locale.antt =====
-- `String.prototype.localeCompare`, which the language leaves to the host: `le a b` stands for
-- `a.localeCompare(b) <= 0`. The language requires of it a consistent order, total and transitive.
use nestai.Prelude.{Bool, true, false, String, ◌≡◌}

pub record Locale : Type 0 where
  pub le : String → String → Bool
  pub le_total : (a b : String) → le a b ≡ false → le b a ≡ true
  pub le_trans : (a b c : String) → le a b ≡ true → le b c ≡ true → le a c ≡ true
