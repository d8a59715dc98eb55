-- ===== src/Netip.antt =====
-- Go's `net/netip` as far as the program calls it: addresses, prefixes, their texts and `Contains`.
mod Parse
mod Print
mod Types
pub mod Tests
pub use Types.*
pub use Parse.*
pub use Print.*
pub use Print.Laws.*
unfoldable pub use Types.{is6, bit_len, prefix_from, contains, unmap}
unfoldable pub use Parse.{parse_addr, parse_prefix, parse_addr_port}
unfoldable pub use Print.{print_addr, print_prefix}
