-- ===== src/Net.antt =====
-- src/t_net_adr.c and src/t_net_l.h: network addresses.
pub mod Address
pub mod Equal
pub mod Copies
mod Tests
