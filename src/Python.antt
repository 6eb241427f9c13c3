-- ===== src/Python.antt =====
-- What the modules of the program use of Python: the values that JSON decodes to, the regular
-- expressions on texts, decimal integers and `datetime`.
pub mod Value
pub mod Pattern
pub mod Decimal
pub mod Unicode
pub mod Datetime
pub mod Json
