-- ===== src/Contract/Wire/Read.antt =====
-- The decoder: what each of its readers takes from the front of its input.
mod Leaf
mod Back
mod Forth
pub use Back.{read_value-wire}
pub use Forth.{read_value-eq-ok}
pub use Leaf.{take-drop, IsBytes-split}
