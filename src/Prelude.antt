-- ===== src/Prelude.antt =====
-- The names that the other modules share: the libraries' and those of the children.
mod Tests
mod Lists
mod Keys
mod Maps
mod Lookup
mod Sizes
mod Eviction
mod Codes
mod Bindings
mod Table
mod Bits
mod Strings
mod Integers
mod Values
mod Floats
mod Order
mod Blank
pub use Tests.*
pub use Lists.*
pub use Keys.*
unfoldable pub use Maps.*
pub use Lookup.*
pub use Sizes.*
unfoldable pub use Eviction.*
pub use Codes.*
pub use Bindings.*
pub use Table.*
pub use Bits.*
unfoldable pub use Strings.*
pub use Integers.*
unfoldable pub use Values.*
pub use Floats.*
pub use Blank.*
unfoldable pub use Order.*
pub use Prim.Native.Nat.{ℕ, zero, suc, ◌+◌, ◌-◌, ◌*◌, ◌/◌, ◌%◌, ◌^◌, ◌≤◌, ◌<◌, min, bit_and, bit_or}
pub use mathlib.Core.Path.{◌≡◌, refl, sym, ap, ◌∙◌, ◌≡⟨◌⟩◌, ◌∎}
pub use mathlib.Core.Logic.{◌≢◌, ◌↔◌, ◌⊎◌, inl, inr}
pub use mathlib.Core.Bool.{Bool, true, false, not, ◌&&◌, ◌||◌}
pub use mathlib.Core.Option.{Option, none, some}
pub use mathlib.Core.List.{List, [], ◌∷◌, ◌++◌, map, reverse, append-nil, append_assoc}
pub use native.Mathlib.Omega.{arith}
