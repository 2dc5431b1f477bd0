-- ===== src/Text.antt =====
-- What the program uses of Python's `str`: UTF-8, percent-encoding, decimal numerals, and the
-- splitting of a text at a character.
pub mod Utf8
pub mod Quote
pub mod Decimal
pub mod Split
