-- ===== src/Python.antt =====
-- The part of Python that the gateway's code uses: exceptions as values, text, binary64 floats and
-- the dynamically typed values that JSON yields.
mod Exceptions
pub mod Text
pub mod Float
pub mod Range
pub mod Value
pub use Exceptions.*
