-- ===== src/Core.antt =====
-- libraries/Core: the bitmap, containers, sorting and arithmetic of the kernel's base library.
pub mod SplitBitmap
pub mod FrequencyData
pub mod Vector
pub mod Sort
pub mod Heap
pub mod Math
pub mod StaticStack
pub mod LinkedList
pub mod RingBuffer
pub mod TreiberStack
pub mod EpochDomain
pub mod LimboBags
pub mod IndexedHashTable
pub mod Tree
pub mod RedBlack
