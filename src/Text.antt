-- ===== src/Text.antt =====
-- The functions of Go's `strings` package that the program calls, on byte strings. Letters and
-- spaces are those of ASCII; a byte from 128 on is never a letter or a space.
mod Ascii
mod Cut
pub mod Decimal
pub use Ascii.*
unfoldable pub use Ascii.{is_space, trim_space, to_lower, to_upper}
pub use Cut.*
unfoldable pub use Cut.{
  split, drop_prefix?, trim_suffix, last_index, trim_set, trim_right_set, starts_with,
}
