-- ===== src/Xmem.antt =====
-- parts/xmem_nozzle.go: the nozzle that writes mutations to the target's memcached.
pub mod Conflict
pub mod Buffer
pub mod GetMeta
pub mod Sending
pub mod Client
pub mod Resend
