-- ===== src/Base.antt =====
-- Names that every module shares: the libraries', passed on, the Boolean tests on numbers, lists
-- measured by native numbers, and the wrap-around of u32 and u64.
mod Tests
mod Lists
mod Outcome
mod Words
mod ByteLists
unfoldable pub use Tests.*
unfoldable pub use Lists.*
pub use Outcome.*
unfoldable pub use Words.*
unfoldable pub use ByteLists.*
pub use Prim.Native.Nat.{ℕ, zero, suc, ◌+◌, ◌-◌, ◌*◌, ◌/◌, ◌%◌, ◌^◌, ◌≤◌, ◌<◌, min, max}
pub use Prim.Native.String.{String}
pub use mathlib.Core.Path.{◌≡◌, refl, sym, ap, subst, ◌∙◌, ◌≡⟨◌⟩◌, ◌∎}
pub use mathlib.Core.Logic.{◌≢◌, ◌↔◌, ◌⊎◌, inl, inr, ite, dite, if_pos, if_neg}
pub use mathlib.Core.Bool.{Bool, true, false, not, ◌&&◌, ◌||◌}
pub use mathlib.Core.Option.{Option, none, some}
pub use mathlib.Core.List.{List, [], ◌∷◌, ◌++◌, map}
pub use native.Mathlib.Omega.{arith}
unfoldable pub use native.Mathlib.Decide.{dec_lt, dec_le, ℕ_discrete}
