-- ===== src/User.antt =====
-- User programs and the user library: grep.c, wc.c, printf.c and ulib.c. A string is the list of
-- its bytes before the first 0.
pub mod Grep
pub mod Wc
pub mod Print
mod Tests
