-- ===== src/Bpf.antt =====
-- sensor/bpf/audit.bpf.c, the program in the kernel that counts the packets of flows.
pub mod Packet
pub mod Programs
pub mod Kernel
pub mod Tests
