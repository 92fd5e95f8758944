-- ===== src/Mm.antt =====
-- Memory management, practica/zeos/mm.c with include/mm.h and include/mm_address.h: the byte map of
-- physical frames (`Frames`) and the page tables (`Paging`).
pub mod Frames
pub mod Paging
