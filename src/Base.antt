-- ===== src/Base.antt =====
-- The names that the other modules share: the libraries', passed on, and those of the children.
mod Tests
mod Lists
mod Int
mod Text
mod Search
mod Member
mod Sort
mod Cut
pub use Tests.*
pub use Lists.*
pub use Int.*
pub use Text.{Bytes, codes, equal_iff, equal_refl, equal_comm}
unfoldable pub use Text.{equal, has_prefix}
unfoldable pub use Search.{index_of, contains, has_suffix, free}
unfoldable pub use Member.{mem, lookup, insert}
unfoldable pub use Sort.{string_le, insert_string, sort_strings}
pub use Sort.{Distinct, mem-sort_strings, Distinct-sort_strings, Distinct-snoc, Distinct-snoc_inv}
unfoldable pub use Cut.{
  cut_prefix, before_cut, cut_at, or_here, last_cut, replace_byte, push_first, split_from,
  join_with,
}
pub use Cut.{
  cut_prefix-append, free-append, last_cut-free, last_cut-append, has_prefix-word, cut_at-skip,
  cut_at-free, split_from-skip, split_from-pass, replace_byte-free, replace_byte-append,
}
pub use Member.{mem-append, mem-snoc, mem-cons, mem_head, mem_tail, lookup-insert}
pub use Search.{take_while, drop_while}
pub use Prim.Native.Nat.{ℕ, zero, suc, ◌+◌, ◌-◌, ◌*◌, ◌≤◌, ◌<◌}
pub use mathlib.Core.Path.{◌≡◌, refl, sym, ap, ap₂, ◌∙◌}
pub use mathlib.Core.Logic.{◌≢◌, ◌↔◌, ◌⊎◌, inl, inr}
pub use mathlib.Core.Bool.{Bool, true, false, not, ◌&&◌, ◌||◌}
pub use mathlib.Core.Option.{Option, none, some}
pub use mathlib.Core.List.{List, [], ◌∷◌, ◌++◌, map, append-nil, append_assoc}
pub use native.Mathlib.Omega.{arith}
