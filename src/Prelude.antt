-- ===== src/Prelude.antt =====
-- The names that all modules share: the libraries', passed on, and those of the modules below.
mod Tests
mod Equality
pub mod Int
mod Lists
pub mod Dict
pub mod Tables
pub use Tests.*
pub use Equality.{
  Eq, ◌==◌, discrete_eq, nat_eq, string_eq, option_eq, option_beq, decides, beq_refl, beq_sym,
  beq-eq, not_beq-ne,
}
pub use Lists.*
pub use Prim.Native.Nat.{ℕ, zero, suc, ◌+◌, ◌-◌, ◌*◌, ◌/◌, ◌%◌, ◌≤◌, ◌<◌}
pub use Prim.Native.String.{String}
pub use mathlib.Core.Path.{◌≡◌, refl, sym, ap, subst, ◌∙◌}
pub use mathlib.Core.Logic.{◌≢◌, ◌↔◌, ◌⊎◌, inl, inr}
pub use mathlib.Core.Bool.{Bool, true, false, not, ◌&&◌, ◌||◌}
pub use mathlib.Core.Option.{Option, none, some}
pub use mathlib.Core.List.{List, [], ◌∷◌, ◌++◌, map, append-nil, append_assoc}
pub use native.Mathlib.Omega.{arith}
