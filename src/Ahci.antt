-- ===== src/Ahci.antt =====
-- The parts of the AHCI driver that keep their own state apart from the controller's registers: the
-- interrupt record of a port, the recovery after an error, the table of devices and the layout of the
-- structures in memory.
pub mod Irq
pub mod Recovery
pub mod Layout
pub mod DeviceTable
mod Tests
