-- ===== src/Exceptions.antt =====
-- include/SEDNL/Exception.hpp: the error codes with their texts, and computations that may throw one.
mod Codes
mod Effect
pub mod What
pub use Codes.*
pub use Effect.*
