-- ===== src/Bits.antt =====
-- Laws of `&` and `|` on words of any width, from the recursion on binary digits that the native
-- operations stand for.
pub mod Digit
pub mod Laws
pub mod Masks
pub mod Subsets
