-- ===== src/Mask.antt =====
-- internal/lang: source texts in which strings and comments are blanked before a line scan. A text is
-- the list of its bytes.
pub mod Bytes
pub mod Swift
pub mod Loop
pub mod Elixir
pub mod Sigils
pub mod SwiftOpenings
pub mod SwiftLayout
pub mod ElixirLayout
