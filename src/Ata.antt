-- ===== src/Ata.antt =====
-- The parts of the ATA driver that are apart from its ports: the interrupt record and the preparation of
-- bus-master transfers.
pub mod Irq
pub mod Dma
mod Tests
