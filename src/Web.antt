-- ===== src/Web.antt =====
-- web/: the pages of the vendor. Std/Text, Std/Hex and Std/Decimal have the conversions.
pub mod Strings
pub mod Service
pub mod Redeem
pub mod Pages
pub mod Controller
pub mod Router
