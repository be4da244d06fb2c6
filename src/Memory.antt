-- ===== src/Memory.antt =====
-- The memory services: alignment (kernel/src/main.rs) and the region list of the virtual memory
-- manager (kernel/src/memory/vmm/mod.rs).
pub mod Align
pub mod Global
pub mod Pages
pub mod Regions
pub mod Slab
