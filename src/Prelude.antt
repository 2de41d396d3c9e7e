-- ===== src/Prelude.antt =====
-- The names that the other modules share: the libraries', passed on, and those of the children.
mod Tests
mod Lists
mod Maps
mod Results
mod Texts
mod Words
mod Lines
pub use Tests.*
pub use Lists.*
pub use Maps.{Map, map_laws, lookup-insert, lookup-erase, str_eq_refl, slice_at-insert}
pub use Results.{Result, ok, err, wrap, Result-cases}
pub use Words.{word_size, sign_bit, add_int, sub_int, int_leb}
pub use Texts.{codes, strip_prefix-append, begins_with_iff}
unfoldable pub use Texts.{strip_prefix, begins_with, same_text}
unfoldable pub use Maps.{lookup, insert, erase, slice_at}
pub use Prim.Native.Nat.{ℕ, zero, suc, ◌+◌, ◌-◌, ◌*◌, ◌/◌, ◌%◌, ◌^◌, ◌≤◌, ◌<◌, min, max}
pub use Prim.Native.String.{String, ◌++◌ as str_append}
pub use mathlib.Core.Path.{◌≡◌, refl, sym, ap, ◌∙◌, subst}
pub use mathlib.Core.Logic.{◌≢◌, ◌↔◌, ◌⊎◌, inl, inr}
pub use mathlib.Core.Bool.{Bool, true, false, not, ◌&&◌, ◌||◌}
pub use mathlib.Core.Option.{Option, none, some}
pub use mathlib.Core.List.{List, [], ◌∷◌, ◌++◌, map}
pub use native.Mathlib.Omega.{arith}
pub use text.Mathlib.Text.{◌==◌ as str_eq}
pub use text.Mathlib.TextEquality.{eq_iff}
pub use Lines.{scan_lines-append}
unfoldable pub use Lines.{
  is_space, is_empty, trim_left, trim_right, trim_space, put_char, split_lines, scan_lines,
  has_newline, unlines, size, contains, first_bytes, has_suffix, split_spaces, fields, behind_space,
  first_runes,
}
