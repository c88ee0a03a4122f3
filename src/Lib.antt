-- ===== src/Lib.antt =====
-- Verification of the LiDAR SDK of this repository, src/drivers/seyond_lidar/src/inno_sdk/src, which
-- the driver node of src/drivers/seyond_lidar links: the client receives data and status packets from a
-- sensor, checks them (sdk_common), and passes them through queues of jobs between threads (utils)
-- to the callbacks of the driver. Paths below are from that directory.
--
-- Parts, and how they interact:
--   CircularBuffer     utils/circular_buffer.h: `CircularBuffer<T, N>`, a ring of values. `Ring` holds
--                      the arithmetic of ring indices that it shares with the job queue.
--   JobQueue           utils/consumer_producer.h and .cpp: `ConsumerProducer::CpQueue`, a ring of jobs
--                      (`add`, `pop`, `peek`).
--   ConsumerProducer   the same files: `ConsumerProducer`, two job queues with their counters, the
--                      producers (`add_job_do_`, `add_job_wait_done`), the workers
--                      (`consumer_thread_func_`, `get_job_`), `flush_and_pause`, `resume` and
--                      `shutdown`.
--                      ConsumerProducer/Machine is the system as steps of its threads: each critical
--                      section under `mutex_` is one step, in any order.
--   MemPool            utils/mem_pool_manager.h and .cpp: `MemPoolManager`, the units of a pool on a
--                      free list, and `MemPool`, which aligns it. The stages of the client take the
--                      buffers of their jobs from such pools.
--   MemAlloc           utils/mem_allocator.h and .cpp: `MemMapMemAllocator`, the ranges of a mapped
--                      region, from which pools may take their memory.
--   Packet             sdk_common/inno_lidar_packet.h and inno_lidar_packet_utils: Items and Check are
--                      the tests of packets that arrive (`check_data_packet`, `check_status_packet`),
--                      Decode their fields in the
--                      bytes of a buffer, Summary and Frames the statistics on what is lost (`InnoSummaryPackage`), Blocks
--                      the sizes of blocks (`get_block_size_and_number_return`), Raw4 the header of
--                      raw packets (inno_lidar_other_packet.h), Faults the fault bits of a status.
--   LogStorm           utils/logstorm_controller.h: `LogStormController`, which thins out log lines
--                      that repeat (`check`, `push`).
--   Read               sdk_client/stage_client_read.h and .cpp: Receive is `recv_full_buffer` of
--                      utils/net_manager.cpp, over any sequence of results of `read`; Packets is
--                      `FileInput::read_packet_` on it, and Loop `FileInput::keep_reading_` on that;
--                      Misorder is the queue that puts packets back in order before the deliver
--                      stage gets them (`add_deliver_packet_after_correct_`); Counters is the test
--                      of the running numbers of packets that come by UDP
--                      (`verify_inno_data_packet_counter`); Stage is the states of the stage, from
--                      `start_reading_` over `stop` to the end of `process_job_`, its critical
--                      sections in any order of its reader and a caller of `stop`; Adapt is the
--                      adaptation of packets of version 1 (sdk_client/inno_lidar_packet_v1_adapt.h)
--                      on bytes, and Udp `UdpInput::read_udp_` on it, with the checks of Packet,
--                      the running numbers of Counters and the queue of Misorder.
--   Deliver            sdk_client/stage_client_deliver.h and .cpp: `StageClientDeliver`, the stage behind
--                      the queue, which calls the client back, and `StageClientDeliver2`, to which it
--                      may leave the callbacks of points. Stage is `process_job_` of both; Convert to
--                      Stream are the frames that they collect, Kept to Leak where the buffers go.
--   Config             utils/config.h and .cpp: `Config`, whose members are set by name, and
--                      `ConfigManager`, which passes the settings on and keeps them for the stages that
--                      are added later. Prelude/Maps are the maps from strings that it shares with
--                      LogStorm.
--
-- The state of a component is a record with the source's fields, an operation a function from the
-- state to the state and its answer, or `none` where `inno_log_panic_if_not` or `inno_log_verify`
-- ends the program. Machine integers are natural numbers with their wrap-around written out where
-- the code can reach it; signed ones are ℤ or bit patterns, as the file says. Arrays are lists.
-- Pointers of a pool are addresses. Times are arguments. The waits of the threads are steps that
-- leave the state as it is; `keep_reading_` runs for a number of rounds after which its stop flag is
-- found cleared, and needs no more than its connection has events and bytes; other loops recurse on
-- their data.
--
-- Parameters: the allocator's `calloc`, the CRC function of utils/utils.cpp, the results of `read`, and
-- in `keep_reading_` which buffers the pool gives, what a fresh one holds and what the checks make of
-- a packet; in `read_udp_` what the calls of the pool give; in the deliver stage what the pool gives, the time, and
-- the points of a packet once it is converted; in Config the reading of a number (`sscanf`) and the
-- order in which an `unordered_map` is visited. The work of a job is the caller's: a job is known by
-- a number.
--
-- Not modelled: opening sockets and files and the reading of pcap files (input and output), the HTTP
-- client of the sensor, the conversion of packets to points (floating
-- point and tables; of it only the room that it needs), thread creation and
-- scheduling, logging, and the ROS nodes of the repository.
pub mod Prelude
pub mod Ring
pub mod CircularBuffer
pub mod JobQueue
pub mod ConsumerProducer
pub mod MemPool
pub mod MemAlloc
pub mod Packet
pub mod LogStorm
pub mod Read
pub mod Deliver
pub mod Config
