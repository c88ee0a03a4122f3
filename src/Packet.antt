-- ===== src/Packet.antt =====
-- The data packets of the SDK: src/drivers/seyond_lidar/src/inno_sdk/src/sdk_common, the files
-- inno_lidar_packet.h and inno_lidar_packet_utils.
pub mod Summary
pub mod Sequence
pub mod Frames
pub mod Items
pub mod Check
pub mod Decode
pub mod Faults
pub mod Raw4
pub mod Blocks
mod Tests
