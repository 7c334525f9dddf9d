-- ===== src/Lib.antt =====
-- libfilewatch: a library that watches paths and calls the client for each event below them.
--
-- A `FileWatcher` (src/FileWatcher.cpp) holds the watches, the filter, the table of the debounce
-- and the timers. It registers paths with a `PlatformWatcher`, whose event loop calls it back: for
-- each file system event, `processEvent` asks the filter, then the debounce, then hands the event
-- to the callbacks of the watches that it falls under; before and after waiting, the loop asks for
-- the next timeout and runs the expired timers. On Linux the platform watcher is the
-- `InotifyWatcher` (src/core/InotifyWatcher.cpp), which maps watch descriptors to paths and roots,
-- adds directories below a recursive root, and pairs the two halves of a rename.
--
-- The files, and the code that each one models:
--   Path        the handling of slashes: `normalizePath`, `isPathUnderWatch`; a path is the list of
--               its bytes
--   Event       include/filewatch/Event.h, src/Event.cpp
--   Filter      `FileWatcher::Filter`: its setters and `passes` (src/FileWatcher.cpp)
--   Debounce    `cleanupDebounceMap`, `applyDebounce`
--   Timer       include/filewatch/Timer.h; `addTimer`, `removeTimer`, `getNextTimeoutMs`,
--               `processExpiredTimers`
--   Encoding    src/utils/EncodingUtils.cpp
--   PathUtils   src/utils/PathUtils.cpp: POSIX; OnWindows has the build for Windows
--   Errc        the error codes and their messages
--   Watcher     `FileWatcher::Impl`: `addWatch`, `removeWatch`, `addWatchWithRegex`, `start`, `stop`,
--               `setFilter`, `processEvent`, `dispatchEvent`
--   Inotify     `InotifyWatcher`: `addWatch`, `removeWatch`, `addDirectoryWatch`,
--               `addRecursiveWatches`; below it Events has `processEvent` and
--               `emitCreateEventsForExistingEntries`, Loop has `watchLoop`, `start`, `stop`
--   Wait        how long a loop waits, from the time-out provider
--   Fanotify    `FanotifyWatcher` (src/core/FanotifyWatcher.cpp)
--   EventLoop   `watchLoop` of the four platform watchers: the loop that they share, over the
--               interfaces `EventLoop`, what a platform does in a round, which OnInotify, OnFanotify,
--               OnWindows and OnMac fill, and `Host`, what owns the platform watcher and is called
--               back
--   Backend     the file watcher over its platform watchers (src/core/PlatformWatcher.h), the choice
--               between those on Linux (src/core/PlatformWatcherFactory.cpp); Hosting has the file
--               watcher as the host of an event loop
--   Snapshot    `diffDirectorySnapshot` of the macOS watcher (src/core/MacOSWatcher.cpp)
--   Known       its table of known paths: `isPathPrefixOf`, `rememberPath`, `forgetPath`
--   FsEvents    the watcher's half for whole trees: `processFSEvents`, `rememberExistingPathTree`
--   Kqueue      its half for single directories and files: the items and their descriptors; Handle
--               has `handleKevent` and the queue of events for the main thread
--   Mac         `MacOSWatcher` over both halves: `addWatch`, `removeWatch`, `start`, `stop`
--   Windows     `WindowsWatcher` (src/core/WindowsWatcher.cpp): the watches and their items; below it
--               Notify has `processNotifications`, Loop what the event loop does with a packet
--   Client      the class `FileWatcher`, whose methods hand on to `Impl` (src/FileWatcher.cpp,
--               include/filewatch/FileWatcher.h)
--   Example     examples/example.cpp: `parseArgs`, `parseEvents`; Printed has what it writes, Session
--               `main`
-- The child modules of each hold the proofs. Base has the lists, the maps and the tests that all of
-- them use; Tests has concrete inputs.
--
-- A state is a record of the members, an operation a function from state to state, and a call that
-- may throw answers an `Outcome`. A block under a mutex is one step. Maps are association lists:
-- the order of an unordered map is the order of the list. The standard library's regular
-- expressions, the system calls, the kernel's inotify, the platform watcher and what a client's
-- callback does are parameters.
--
-- Numbers are natural numbers. Times are the nanoseconds of the steady clock and stay far below the
-- 64 bits that hold them; intervals of timers are not negative. A descriptor of -1 is `none`.
-- `addRecursiveWatches`, `emitCreateEventsForExistingEntries` and `rememberExistingPathTree` recurse
-- on fuel, which bounds the depth of the tree: with more fuel than the tree is deep, all of it is
-- walked. The loop that strips slashes has the length of the path as fuel, and the loops over buffers
-- of events have the length of the buffer, which is enough since each round takes a byte at least.
--
-- An event loop runs over a list of rounds, each with what the system answers to the wait and what
-- other threads do meanwhile; the list may end before the loop does. A loop has no result where the
-- code reads behind a buffer, looks at an item that is gone, or never ends.
--
-- Not modelled: the threads themselves (what other threads do is a step while the loop waits or
-- between two steps), a client's callback that calls the file watcher, the build files and the
-- tests.
mod Base
pub mod Path
pub mod Event
pub mod Filter
pub mod Debounce
pub mod Timer
pub mod Encoding
pub mod PathUtils
pub mod Errc
pub mod Watcher
pub mod Wait
pub mod Fanotify
pub mod EventLoop
pub mod Backend
pub mod Client
pub mod Example
pub mod Windows
pub mod Inotify
pub mod Snapshot
pub mod Known
pub mod FsEvents
pub mod Kqueue
pub mod Mac
mod Tests
