-- ===== src/Stores.antt =====
-- The three sidecar stores of the daemon: slot names, slot order and managed flags
-- (internal/names/store.go, internal/slotorder/store.go, internal/managed/store.go).
pub mod Persist
pub mod Nested
pub mod Names
pub mod Managed
pub mod SlotOrder
pub mod Reorder
