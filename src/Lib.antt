-- ===== src/Lib.antt =====
-- A model of dts-framework: the processing of measurement data, from the raw frame to the report
-- that the web server reads.
--
-- A raw frame of 32 KiB carries a head (data type, cell, carrier or user) and one slice for each of
-- 500 data ids. The data thread hands each frame to `DataFactory::Process`, which finds or makes the
-- block of the measured object in the memory manager, lets every registered extractor copy its
-- slice to its slot in the block, gathers the slices in the report aggregator, and publishes one
-- report. A tick every 100 ms frees the blocks that were not refreshed for three periods. A report
-- goes through the middleware, and, when Kafka is configured, through its topic, to the web server,
-- which parses it into statistics and pushes them to the browsers. A task tells the data thread by
-- a message which data ids it wants; the console and the threads' own messages control the process.
--
-- The files, and the code that they are about:
--   Common             lists, bytes, Boolean tests and maps that the models share
--   Data/Ids           contexts/data/domain/include/data_config.h and data_ids.h
--   Data/Region        one hash region of contexts/data/domain/src/data_mem_manager.cpp; its child
--                      Probe has the probing, Acquire and Laws AcquireBlock and FindBlock, Evict
--                      EvictExpired
--   Data/Mem           the manager of the same file: Layout has Init, Blocks the calls after
--                      it, Slots the writes through the addresses it hands out, Room the blocks
--                      that are left
--   Data/Registry      extractor.h, extractor_registry.cpp and extractors.cpp of
--                      contexts/data/domain; Cells has the extractors of the cell domain
--   Data/Aggregator    report_aggregator.h and .cpp of contexts/data/domain: Frame has Add, Accepted
--                      a run of it, Layout the header, Publish has Flush
--   Data/Factory       data_factory_v2.h and .cpp of contexts/data/domain: New has the constructor,
--                      Slices the slices of a frame and their writes, Running the state between
--                      messages, Cells a frame of a cell
--   Data/TdMap         tdmap_v2.h and .cpp of contexts/data/domain: Index has the tasks of a data id,
--                      Active the data ids of a type
--   Data/Handlers      contexts/data/application/src/data_msg_handler.cpp and the report sink of
--                      bootstrap; Routing has the dispatch, Messages any sequence of messages
--   Pipeline           the way of frames from the data thread to the web server's statistics; Start
--                      has the state that the data thread starts from
--   Web/ReportFrame    webserver/src/report_frame.h: Scanning has its loop; RoundTrip joins it to
--                      the aggregator
--   Web/Stats          webserver/src/stats.h
--   Web/Kafka          webserver/src/kafka_client.cpp: the producer, and Consumer; Handles has the
--                      objects of the library
--   Web/Http           webserver/src/http_sse.cpp: Head and Split have the request's head, Conns the
--                      open connections and the threads that serve them
--   Web/Main           webserver/src/main.cpp: its callbacks, its set-up and its end; Pushes has its
--                      loop
--   Agent              PingPong has agent/src/pingpong.cpp, Reader the loop of dts_agent_api.cpp,
--                      Life what creates and destroys it
--   Infra/Log          infrastructure/src/log.cpp
--   Infra/RotatingSink infrastructure/src/ts_rotating_sink.cpp; Eviction has the loop over old files
--   Infra/MsgTable     infrastructure/include/msg_table.h, by which each thread dispatches its
--                      messages; Routes has what its compile-time checks promise
--   Infra/Timer        infrastructure/src/timer.cpp; Once has what a tick fires and leaves
--   Infra/Thread       infrastructure/include/mailbox.h and src/dts_thread.cpp: the mailbox and the loop
--                      of a thread; Order has the queue, Ticks the timer, Events many rounds
--   Infra/Ctl          infrastructure/src/ctl.cpp: Tokens has Trim and SplitLine, Lines Execute,
--                      Builtins the commands of that file
--   Infra/Console      infrastructure/src/console.cpp: Reader has ReadLine, Jobs the operations on
--                      jobs and queue, Threads and Steps their steps in any order, Places where
--                      a job is, Turns how long it waits, Waits how many wait, Server the
--                      listening socket
--   Task/Manager       contexts/task/domain/src/task_manager.cpp
--   Task/Handlers      contexts/task/application/src/task_msg_handler.cpp; Forward joins it to the
--                      data thread
--   Log                contexts/log/application/src/log_msg_handler.cpp
--   Infra/Session      session names and message ids of infrastructure/include/dts_def.h, and what
--                      the threads publish
--   Boot               bootstrap/src/run.cpp: Paths has the socket path, Commands the commands, Budget
--                      one of them, Run the run and the stop, Events what other threads do
--                      meanwhile, Start the process before and after its start, Life what a run
--                      leaves behind, Signal main
--   Tests              runs at concrete inputs
--
-- State is passed on explicitly. Structs are records with the source's fields; unsigned integers are
-- natural numbers, with `% 2 ^ w` where the source's can wrap. Bytes are numbers, multi-byte fields
-- are little-endian as on the targets of the build. Pointers into a pool are indices of a region and
-- a slot, a null pointer is `none`. Fresh memory, the iteration order of the hash table and the time
-- that a frame took are arguments.
--
-- The loop over log files has as many rounds as files, that over file names the source's 1000.
-- Loops over probes, slots, ids and sub-headers count down the rounds that are left, from the bound
-- that the source's loop has: the capacity of the region, the 500 ids, the 1000 slices of the
-- parser. None of them can run out before the source's loop ends.
--
-- The threads of the console take their steps in any order; a round of the control thread, with the
-- command that it executes, is one step, and so is what a lock protects. A round of a worker thread
-- gets what arrives during it as an argument. A run of the process gets what the other threads do
-- before the stop, after `control_stop` and after the end of the control thread as three lists of
-- events, and has no result where no stop is requested. `DestroyThread` joins the thread: the model
-- takes as many rounds as the queue is long and one more, after which the thread has left its loop.
--
-- Not modelled: log lines and the code that only writes them; how numbers with a fraction are
-- printed (the text is an argument); the text that the vendored scheduler shows; sockets and files as
-- such; the vendored scheduler, middleware, Kafka, logging and JSON libraries; the types of dts_def.h
-- that no implementation file uses; the tests, tools and configuration. What a library or the system
-- returns is an argument of the definitions that call it.
pub mod Common
pub mod Data
pub mod Web
pub mod Pipeline
pub mod Infra
pub mod Task
pub mod Log
pub mod Agent
pub mod Boot
mod Tests
