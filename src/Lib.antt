-- ===== src/Lib.antt =====
-- OmniReduce: AllReduce for sparse tensors over RDMA. Worker threads send the blocks of a tensor that
-- are not all zero, each with the offset of the next such block; aggregator threads add the blocks of
-- the workers, find the least next offset, and send the sum back with it.
--
-- The parts and their files:
-- - Common: the shared types of omnireduce/common.hpp.
-- - Params: omnireduce_params of omnireduce/params.hpp, its sentinels (Params/InfOffset) and
--   parse_parameters of omnireduce/params.cpp (Params/Parse).
-- - Context: OmniContext of omnireduce/context.cpp, the hand-over between a caller of AllReduce and the
--   worker threads: send_tensor and receive_tensor split a tensor, send_result and receive_result
--   bring it back. Each call under the mutex is one function.
-- - NextBlock: find_next_nonzero_block and dr_find_next_nonzero_block of omnireduce/worker.cpp.
-- - Verbs and Wire: the requests that are posted, as values, and the immediate data of a message.
-- - DrWorker and DrAggregator: dr_worker of omnireduce/worker.cpp and dr_aggregator of
--   omnireduce/aggregator.cpp, the two sides with direct memory, where a message is one block.
-- - Worker and Aggregator: worker and aggregator of the same files, where a message holds several
--   blocks and their next offsets.
-- - Outcome: success, or an exit of the process with its reason.
-- - AllReduce: the versions of AllReduce of omnireduce/context.cpp, as the sequence of their effects,
--   and the block size that they set (AllReduce/Sequence, AllReduce/Adapted).
-- - AggContext: StartMaster of omnireduce/aggcontext.cpp: how an aggregator collects the addresses of a
--   tensor from all workers, takes over its block size, and splits it over its threads.
-- - Socket, ConData, QueuePairs, Connection, Setup: master and aggmaster of omnireduce/omnireduce.cpp
--   with the records of omnireduce/common.hpp: sock_sync_data, the exchange of the records, the pairing
--   of queue pairs and the way to RTS, and the start of the threads. Setup/Cluster, Setup/Servers and
--   Setup/Paired put the sides together.
-- - Buffers: the sizes of the buffers that init of omnireduce/context.cpp and omnireduce/aggcontext.cpp
--   allocates.
-- - Bitmap: compute_bitmap of omnireduce/cuda_utils.cu and its kernel.
-- - Chunks: the copy of a part to host memory in chunks, in worker of omnireduce/worker.cpp, and
--   cuda_sync_post_send_client and cuda_async_post_send_client.
-- - BitmapChunks and CopyBack: how worker lets the device compute the bitmap in chunks, and copies the
--   chunks of an answered part back to the device.
-- - Resources: init of omnireduce/context.cpp and of omnireduce/aggcontext.cpp, with the answers of
--   libibverbs as an argument.
-- - ReadyWait and Lifecycle: the wait of send_address, StartMaster and StopMaster of both contexts, and the
--   sockets that master and aggmaster open.
-- - Context/Protocol: a caller of AllReduce and the worker threads as a step relation on OmniContext.
-- - Base: numbers, words, buffers and lists. Examples: runs on small inputs.
--
-- The functions that handle a completion (DrAggregator.handle, DrWorker.handle, Aggregator.handle,
-- Worker.handle) take the immediate data and the queue pair of the completion and the state of the
-- thread, and return the new state and the requests that were posted, in order; `none` is an exit, or a
-- search that ran out of fuel.
-- Every number is a uint32_t with its wrap-around written out; arrays are functions of the index, and
-- buffers are functions from byte addresses to words of 32 bits.
--
-- Fuel: a search for the next block takes fuel, one for each step; more than the distance from the
-- offset to the end of the part is enough, since every step goes on by a block at least. All other
-- loops are over counts or lists.
--
-- What is taken as given: libibverbs delivers an RDMA write as a write of its words and nothing else
-- (record Nic of DrAggregator/Sum), float addition is an unknown function, the conversions of byte order
-- undo each other (record IsByteOrder of ConData/Fields), and boost, std::stoi and the answers of
-- sockets, verbs and threads (record System of Setup) are arguments.
-- What is left out: the addresses of handles and memory, and the polling of completion queues (with the
-- condition under which StartMaster of omnireduce/aggcontext.cpp polls for addresses); errors of
-- ibv_post_send and ibv_post_recv and failed completions, which the code prints; types in an address
-- record that are none of the enumerators; what the device does when a launch of the bitmap kernel has
-- too many threads or an index of more than 32 bits.
pub mod Base
pub mod Outcome
pub mod Params
pub mod Common
pub mod Context
pub mod Verbs
pub mod Wire
pub mod NextBlock
pub mod DrAggregator
pub mod DrWorker
pub mod Aggregator
pub mod Worker
pub mod AllReduce
pub mod AggContext
pub mod Connection
pub mod Socket
pub mod ConData
pub mod QueuePairs
pub mod Setup
pub mod Buffers
pub mod Bitmap
pub mod Chunks
pub mod Resources
pub mod CopyBack
pub mod BitmapChunks
pub mod ReadyWait
pub mod Lifecycle
pub mod Examples
