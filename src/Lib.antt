-- ===== src/Lib.antt =====
-- A verification library of the image processing engine: a server that receives frames over TCP,
-- runs a chain of image ops on each, on the CPU or by a compiled CUDA kernel, and sends the result
-- back. Paths below are from the repository's root.
--
-- How the parts interact. A reader thread decodes and validates a header (Protocol), claims a slot
-- for the payload (SlotPool), parses the op chain (OpChain) and hands a job to the worker (BoundedQueue).
-- The worker runs the chain on the frame (Image, CpuOps), or looks its kernel up by the key of the
-- chain (KernelKey, KernelCache, Codegen). When a job completes (CpuBackend) its slot is released and
-- the response goes to the connection's writer (Server), which sends it (Socket) to a Client.
--
-- Which file models which part:
--   Protocol        include/imgjit/net/protocol.h, src/net/protocol.cpp: header layouts, packing byte
--                   by byte, validate_request_header, disposition_for
--   Image           include/imgjit/core/image.h, src/core/image.cpp: Image with its stride, the
--                   constructor, from_bytes, at
--   OpChain         include/imgjit/core/op_chain.h, src/core/op_chain.cpp: kOpSpecs, parse_op_chain,
--                   format_param, canonical_string
--   KernelKey       include/imgjit/core/kernel_key.h, src/core/kernel_key.cpp: operator== and
--                   hash_kernel_key
--   SlotPool        include/imgjit/util/slot_pool.h, src/util/slot_pool.cpp: claim, release, close
--   BoundedQueue    include/imgjit/util/bounded_queue.h: push, pop, try_pop, close
--   CpuOps          include/imgjit/backend/cpu/ops.h, src/backend/cpu/ops.cpp: apply_op, apply_chain
--   CpuBackend      include/imgjit/backend/backend.h, src/backend/cpu/cpu_backend.cpp: submit and
--                   poll_completions
--   Codegen         src/backend/cuda/codegen.cpp: plan_stages, the accepted keys, the tile's bytes
--   KernelCache     src/backend/cuda/kernel_cache.cpp: get
--   Socket          src/net/socket.cpp: read_exact, write_exact, drain_exactly
--   CudaBackend     src/backend/cuda/cuda_backend.h and cuda_backend.cpp: the stream slots with their
--                   sweep and the recreation of the context (CudaBackend/Streams), launch, submit,
--                   poll_completions, allocate_slots, prewarm (Operations), and the commands that a
--                   frame puts on its stream (Commands)
--   CudaRaii        src/backend/cuda/cuda_raii.h: DeviceBuffer as the owner of a driver's pointer, and
--                   RegisteredHostBuffer::round_up
--   Server          src/net/server.cpp: Outbox, Connection, the reader's reaction to a header, the
--                   writer's response header
--   Server/Reader   src/net/server.cpp: reader_loop, a turn at a time
--   Server/Worker   src/net/server.cpp: submit, retire, worker_loop and the in-flight table
--   Server/Writer   src/net/server.cpp: writer_loop
--   Server/System   src/net/server.cpp: the readers, the worker and stop on what they share, as a step
--                   relation over Impl's pool, queue, table and connections
--   Server/Lifecycle
--                   include/imgjit/net/server.h, src/net/server.cpp: ServerConfig, start, stop,
--                   acceptor_loop, reap_finished_locked, and what worker_main does until it is ready
--   Client          src/net/client.cpp: send, send_raw, receive
--   ServerTool      tools/imgjit-server.cpp: the command line, up to the server's and the backend's
--                   configuration
--   Prelude         what the parts share: tests on numbers, lists, integers, bits, ASCII texts
--
-- Conventions. A component's functions keep the source's names; a constructor is `init`. A member
-- function under a mutex is one function on the state, and a run of a concurrent object is a sequence
-- of such steps in the order in which the threads take the mutex; a call that would block returns
-- `waiting`. The worker's release of a slot, its push into an outbox and its count of a job, three
-- mutexes in a row, are one step. What throws returns `none` or a constructor of its own. Bytes,
-- 32-bit fields and hashes are natural numbers with the wrap-around written out, a C++ `int` that can
-- be negative is an integer. `float` is a parameter: OpChain/Numerics.antt and CpuOps/FloatOps.antt
-- list the operations that the source uses, and FloatLaws what the parser relies on, for numbers of
-- hundredths up to 4.0.
--
-- System calls, the CUDA driver, the NVRTC compiler, the code generator behind the cache and the
-- writing of a PNG file are parameters: a call of recv or send is answered by the next of a sequence of
-- events, a driver call by a function of its number, a compilation by a function of the key. The
-- theorem on owned pointers assumes that the driver gives none that is in use; the others assume
-- nothing of it. Of a backend behind the server the theorems on its threads assume that it gives no
-- handle that is still in the table, as a handle that is counted up does.
--
-- Fuel. The parser's loop runs on the length of the text and one more, since each round but the last
-- takes a comma off the text, and the drain's loop on the number of bytes, since each round takes one
-- at least. `std::to_string` runs on the number itself and one more. The worker's loop runs on rounds:
-- over the CPU backend one for each queued frame and a last one. `claim_stream` runs on the number of
-- its waits. All other loops are structural.
--
-- What is not modelled: the text of the generated kernels, the registration of host memory and the
-- queries of the device, opening and closing sockets, the reading of image files with stb, the
-- benchmark, and what prints; the hand-over of the backend's statistics when the worker ends; and, as
-- yet, the client's command-line tools. A number on the command line beyond the range of an int, for
-- which atoi is undefined, is taken as it stands.
pub mod Prelude
pub mod Image
pub mod Protocol
pub mod SlotPool
pub mod BoundedQueue
pub mod OpChain
pub mod KernelKey
pub mod CpuOps
pub mod CpuBackend
pub mod Codegen
pub mod CudaBackend
pub mod CudaRaii
pub mod KernelCache
pub mod Socket
pub mod ServerTool
pub mod Server
pub mod Client
