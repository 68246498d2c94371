-- ===== src/DArray.antt =====
-- src/darray.c: dynamic arrays. The memory of an array is a function from the offset behind the first
-- element's address to the byte there; the words of the header are the fields of a record.
pub mod Memory
pub mod Ops
pub mod Elements
pub mod Places
pub mod Push
pub mod Pop
pub mod Overrun
mod Tests
