-- ===== src/Text.antt =====
-- Go's `strings` and `unicode` functions, as the source uses them, over the native texts. A text is
-- the list of its code points, so it stands for a Go string that is valid UTF-8, as the YAML and
-- JSON decoders produce it. Case mapping covers the ASCII letters and the three other code points
-- that Unicode maps to an ASCII letter; every comparison of the source is with an ASCII literal.
pub mod Chars
pub mod Space
pub mod Search
pub mod Order
pub mod Keys
pub mod Distinct
pub mod Bytes
pub mod Empty
