-- ===== src/Write/SaveBitmap/Slots.antt =====
-- The slots that the groups write to are those of the dirty pages in their order
-- (`save_pages_with_bitmap` of bxdb-core/src/append_only.rs).
