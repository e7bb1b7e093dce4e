-- ===== src/Base.antt =====
-- The names that every module shares: the libraries', passed on, and those of four children.
mod Tests
mod Lists
mod Texts
mod Lines
mod Maps
mod Members
pub mod Decimal
mod Results
pub use Tests.*
pub use Lists.*
unfoldable pub use Texts.*
unfoldable pub use Lines.*
unfoldable pub use Maps.*
pub use Members.*
pub use Results.*
pub use Prim.Native.Nat.{ℕ, zero, suc, ◌+◌, ◌-◌, ◌*◌, ◌/◌, ◌%◌, ◌^◌, ◌≤◌, ◌<◌, max}
pub use mathlib.Core.Path.{◌≡◌, refl, sym, ap, ◌∙◌, subst, fun_ext, ◌≡⟨◌⟩◌, ◌∎}
pub use mathlib.Core.Logic.{◌≢◌, ◌↔◌, ◌⊎◌, inl, inr}
pub use mathlib.Core.Bool.{Bool, true, false, not, ◌&&◌, ◌||◌}
pub use mathlib.Core.Option.{Option, none, some}
pub use mathlib.Core.List.{List, [], ◌∷◌, ◌++◌, map, append-nil, append_assoc, map-append}
pub use native.Mathlib.Omega.{arith}
