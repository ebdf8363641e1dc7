-- ===== src/Base.antt =====
-- The names that the other modules share: the libraries' and those of the children.
pub mod Tests
pub mod Int
pub mod Control
pub mod Mem
pub mod Keep
pub use Tests.{ltb, leb, ◌==◌, if◌then◌else◌, ltb→lt, ==_iff, Bool-cases}
pub use Int.{
  ℤ, pos, negsuc, sub_ℕ, ◌+ℤ◌, ◌-ℤ◌, ltb_ℤ, pos_part, neg_part, -ℤ_cancel, -ℤ_step, -ℤ_zero, -ℤ_add,
}
pub use Control.{
  Run, ok, stop, fault, out_of_fuel, Outcome, Cmd, pure, and_then, ◌>>=◌, ◌>>◌, when, on_part,
  leave, get, Returns, returned, Returns-and_then, Returns-weaken, Returns-inv, Leaves, left,
  Leaves-inv, Leaves-weaken, Returns-Leaves,
}
pub use Keep.{
  Safe, goes_on, leaves, Safe-and_then, Safe-weaken, Safe-left, Safe-returned, Returns-Safe, Ends,
  ends, Ends-Safe, Safe-Ends, Ends-inv, Ends-weaken, Ends-and_then, Returns-Ends, Leaves-Ends,
}
pub use Mem.{Ptr, null, update, guard_ptr, has, length, length-append}
pub use Prim.Native.Nat.{ℕ, zero, suc, ◌+◌, ◌-◌, ◌*◌, ◌/◌, ◌%◌, ◌^◌, ◌≤◌, ◌<◌}
pub use mathlib.Core.Path.{◌≡◌, refl, sym, ap, ◌∙◌}
pub use mathlib.Core.Logic.{◌≢◌, ◌↔◌, ◌⊎◌, inl, inr}
pub use mathlib.Core.Bool.{Bool, true, false, not, ◌&&◌, ◌||◌}
pub use mathlib.Core.Option.{Option, none, some}
pub use mathlib.Core.List.{List, [], ◌∷◌, ◌++◌, map}
pub use native.Mathlib.Omega.{arith}
