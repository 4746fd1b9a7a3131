-- ===== src/Tests.antt =====
-- The theorems at concrete inputs.
mod Sorting
mod Linked
mod Rings
mod Treiber
mod Epochs
mod Limbo
mod Allocation
mod Time
mod Trees
