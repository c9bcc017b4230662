-- ===== src/Base.antt =====
-- The names that the other modules share: the libraries', passed on, and those of the children.
mod Tests
mod Lists
mod Text
mod Words
mod Assoc
mod Search
mod Sums
pub use Tests.*
pub use Lists.{
  length, get_elem?, set, drop, take, length-append, drop-append, take-append, map-set_same,
}
pub use Lists.{All, All-append, All-get_elem?, All-set, Any, here, there}
pub use Assoc.{Eq, nat_eq, bytes_eq, Map, lookup-insert, lookup-delete}
unfoldable pub use Assoc.{lookup, insert, delete}
pub use Search.{has_prefix-append, index-prefix, index-append, has_suffix-append, drop-add}
pub use Sums.{
  total, IsDistinct, total-insert_new, total-insert, total-delete, insert-IsDistinct,
  delete-IsDistinct, lookup-total,
}
pub use Words.*
pub use Text.{Bytes, is_empty, str_eq_iff, str_eq_refl}
unfoldable pub use Text.{bytes, str_eq, has_prefix, has_suffix, index}
pub use Prim.Native.Nat.{ℕ, zero, suc, ◌+◌, ◌-◌, ◌*◌, ◌/◌, ◌%◌, ◌^◌, ◌≤◌, ◌<◌}
pub use mathlib.Core.Path.{◌≡◌, refl, sym, ap, ◌∙◌}
pub use mathlib.Core.Logic.{◌≢◌, ◌↔◌, ◌⊎◌, inl, inr}
pub use mathlib.Core.Bool.{Bool, true, false, not, ◌&&◌, ◌||◌}
pub use mathlib.Core.Option.{Option, none, some}
pub use mathlib.Core.List.{List, [], ◌∷◌, ◌++◌, map}
pub use native.Mathlib.Omega.{arith}
