-- ===== src/Uefi.antt =====
-- src/boot/uefi_order.py: the boot order that the helper in the installed guest writes to the
-- firmware.
pub mod Classify
pub mod Reorder
pub mod Parse
