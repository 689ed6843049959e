-- ===== src/Float.antt =====
-- What the code does with a `float64`: the constants 0, 2.0 and 10.0, the comparisons `<` and `<=`
-- (`a > b` is `b < a`), and four operations. The type and the operations are parameters.
mod Laws
pub mod Cents
pub use Laws.*
