-- ===== src/Page.antt =====
-- include/pageforge/page.hpp and src/page.cpp: the slotted page. A page is its list of 4096 bytes. A loop
-- over the slots is recursion on the number of slots that are left: `SlotId` has 16 bits, as the slot
-- count that bounds the loop, so the loop's counter does not wrap.
-- A subtraction is written with the wrap-around of the source's type.
pub mod Fields
pub mod Checksum
pub mod Invariant
pub mod Records
pub mod Validate
