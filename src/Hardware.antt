-- ===== src/Hardware.antt =====
-- src/hardware.h: hardware threads, GPUs and the node.
pub mod Values
pub mod Hwt
pub mod Gpu
pub mod Node
