-- ===== src/Text.antt =====
-- JavaScript strings, as the lists of their code points. A lone surrogate stands for itself, as
-- it does when a string is iterated; `length` of a list of code points is `[...value].length`.
-- The methods of `String.prototype` that the source calls and that depend on no Unicode table are
-- defined here; those that do are parameters, in Text/Unicode.
mod Defs
mod Laws
pub mod Unicode
pub mod Patterns
unfoldable pub use Defs.*
pub use Laws.*
