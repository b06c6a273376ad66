-- ===== src/Paging.antt =====
-- sys/paging.c: addresses, the list of free physical pages, and the page tables.
pub mod Address
pub mod FreeList
pub mod Walk
pub mod Early
