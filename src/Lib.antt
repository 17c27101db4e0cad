-- ===== src/Lib.antt =====
-- A model of the logging library of src/vertexnova/logging and include/vertexnova/logging, with the
-- theorems that hold of it.
--
-- The program. A macro makes a LogStream, which finds its logger by name in the process-wide list of
-- the LoggerController and calls `log` on it. A SyncLogger passes a record to its sinks under a
-- mutex. An AsyncLogger pushes a task on the LogQueue of its LogDispatcher, whose LogQueueWorker
-- runs the tasks on a thread of its own. A sink formats the record with the LogFormatter and writes
-- a line to the console, in colour, or to a file. Logging is the facade over one LogManager, which
-- makes the loggers and their sinks and keeps them by name.
--
-- The files, with the code under src/vertexnova/logging that each models. Methods keep their names,
-- in snake_case, and a method of a class takes the object and returns the new one.
--   LogLevel          core/log_level.h
--   TimeStamp         core/time_stamp.h; the clock and the calendar are a parameter
--   TextColor         core/text_color.h, core/text_color.cpp
--   LogFormatter      core/log_formatter.h, core/log_formatter.cpp
--   LogSink           core/log_sink.h, core/console_log_sink.*, core/file_log_sink.*
--   SyncLogger        core/sync_logger.h, core/sync_logger.cpp
--   LogQueue          core/log_queue.h, core/log_queue.cpp
--   LogQueueWorker    core/log_queue_worker.h, core/log_queue_worker.cpp
--   LogDispatcher     core/log_dispatcher.h, core/log_dispatcher.cpp
--   AsyncLogger       core/async_logger.h, core/async_logger.cpp
--   Logger            core/logger.h
--   LoggerController  core/logger_controller.h, core/logger_controller.cpp
--   LoggerRegistry    core/logger_registry.h, core/logger_registry.cpp
--   LogStream         core/log_stream.h, core/log_stream.cpp
--   LogManager        log_manager.h, log_manager.cpp
--   Logging           logging.cpp and include/vertexnova/logging/logging.h; Paths and Defaults are
--                     its path functions and its default configuration, Calls any use of the
--                     facade, Macros the macros that log
--   PathUtils         include/vertexnova/logging/utils/path_utils.h
--   MyLibrary         examples/03_spdlog_integration/mylib, from the repository's root: a client
--   Host              what the library asks of its surroundings, and the state of the process
--   Process           the loggers that the manager, the controller and the streams share
--   Common            shared lemmas: lists, texts as lists of bytes, numerals, association lists
--   Examples          runs on concrete data
--
-- The surroundings. Environment, clock and file system are oracles of Host. The clock and the file
-- system answer as functions of the number of questions asked so far, so they may answer anything
-- at any time, exceptions included; two runs under one Host that ask as often read the same times, so
-- AsyncLogger.Untimed compares runs under two clocks. The monad M of Host passes the state of the
-- process: the thread numbers of `getThreadID`, the colour switches, the standard output and the
-- error output.
--
-- Threads. A state of LogQueueWorker has what its threads share, and where each stands: the
-- worker's own, one in `stop`, one in `flush`, and any number that push. Each critical section of
-- the queue's mutex and each access of the flag is one step. A schedule lists the threads whose
-- turns come, in any order. A thread that waits on the condition variable, or in `join` for the
-- worker to return, uses its turn without effect. LogDispatcher and AsyncLogger have their methods
-- as called on one thread, with a round of the worker as a function of its own. AsyncLogger.Crowd
-- has any number of threads that call `log`, each of which flushes where the flush level says so,
-- the worker's thread and `stop`, under any schedule: there a turn is one access of the queue, or
-- one call on the sinks, and the state has the history of these calls, not what they do to the
-- sinks, which have no lock. Where all records are below the flush level the worker alone calls
-- the sinks, and Crowd.InOrder has what that leaves in a file; AsyncLogger.Threads, with Delivery,
-- Actors and Written, is a simpler machine for this case, which Crowd.Simulated compares with the
-- crowd. A synchronous logger holds its mutex for all that a call does with the sinks, so the
-- calls of several threads come one after the other, and so do the calls of the facade.
--
-- Bounds and fuel. The formatter's loop runs on fuel, a round for each byte of the pattern, and each
-- round moves the index on. `to_string` has a round more than the number it prints, so more than the
-- number has digits. All other recursion is structural. `drain` takes 32 tasks at most, as in the
-- source. Numbers drawn for threads are unbounded, where the source has an int; they do not pass the
-- number of calls.
--
-- Not modelled. When a logger's last pointer goes; what the system does with the bytes of several
-- streams on one file; sinks that two threads use at once, which the asynchronous logger allows
-- without a lock; a task that throws. The programs of the other examples, the tests and the
-- projects under deps are left out.
pub mod Common
pub mod LogLevel
pub mod TimeStamp
pub mod Host
pub mod TextColor
pub mod LogFormatter
pub mod LogSink
pub mod SyncLogger
pub mod LogQueue
pub mod LogQueueWorker
pub mod LogDispatcher
pub mod AsyncLogger
pub mod Logger
pub mod LoggerController
pub mod LoggerRegistry
pub mod PathUtils
pub mod Process
pub mod LogManager
pub mod Logging
pub mod LogStream
pub mod MyLibrary
pub mod Examples
