-- ===== src/Prelude/Bytes.antt =====
-- Bytes and byte strings: the names of the children, passed on.
mod Encoding
mod Slices
mod Layout
mod Equality
unfoldable pub use Encoding.*
unfoldable pub use Slices.*
unfoldable pub use Layout.*
unfoldable pub use Equality.*
