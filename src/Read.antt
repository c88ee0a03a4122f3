-- ===== src/Read.antt =====
-- The read stage of the client: sdk_client/stage_client_read.h and stage_client_read.cpp (under
-- src/drivers/seyond_lidar/src/inno_sdk/src). It takes packets from a file or a sensor, puts data
-- packets back in order, and hands them to the deliver stage.
pub mod Misorder
pub mod Receive
pub mod Packets
pub mod Adapt
pub mod Loop
pub mod Udp
pub mod Counters
pub mod Stage
mod Tests
