-- ===== src/Lib.antt =====
-- The restaurant simulation of src/: processes that share memory and a set of semaphores.
--
-- A run has a generator (src/probSemSharedMemRestaurant.c), which sets up the shared state and starts
-- the other processes: the receptionist, the waiter, the chef and `nGroups` groups. A group asks the
-- receptionist for a table, orders with the waiter, eats, and pays at the receptionist. The waiter
-- passes orders to the chef and brings the meals. They meet in `FULL_STAT`, whose states the mutex
-- guards, in two places for a request (to the receptionist, to the waiter), each with two semaphores, and at
-- semaphores for a group or a table. Every change of a state is written to the log.
--
-- Parts and files:
--   Base, and its children: numbers, Boolean tests, lists, texts, C's `int`, and arrays as functions.
--   Shared: src/probConst.h and src/probDataStruct.h, the constants and `FULL_STAT`.
--   Sync: src/sharedDataSync.h, the ids of the semaphores; Sync/Layout and Sync/Naming.
--   Prog: the language of the programs, an action at a time (`down`, `up`, `fetch`, `store`, `save`,
--     `nap`, and the ends `hang`, `fault`, `tired`), and `run`, a process alone up to its end or to a
--     semaphore that is 0. `semDownOrExit` and `semUpOrExit` are `down` and `up`; Debug/Calls has the
--     two with their records of events and their exits.
--   Slots: the two places for a request, as the groups, the chef, the receptionist and the waiter use
--     them.
--   Receptionist: src/semSharedMemReceptionist.c, a function for each operation of the source. The
--     record that the file lays over `groupRecord` is `Record`, with an index past the memory that is
--     there as `fault`. Desk is what the receptionist promises; Tables, Waitlist, Arrivals, Holds,
--     Service, Start and Serviced lead to Refines.
--   Waiter: src/semSharedMemWaiter.c; Queue, Calls and Returns are about `waitForClientOrChef`.
--   Kitchen: the waiter and the chef with each other, an order in Kitchen and a meal in Kitchen/Meals.
--   Chef, Group: src/semSharedMemChef.c and src/semSharedMemGroup.c; Group/Reception is about a group
--     and the receptionist.
--   Generator: the state and the semaphores that `main` of src/probSemSharedMemRestaurant.c sets up;
--     Generator/Ending is its loop that waits for the processes, and Generator/Run the whole of `main`
--     with its exits, as what it creates and removes.
--   Numerals: `strtol` with base 0 and `%d`, as the sources call them; Numerals/Reads is about numbers
--     that the program has printed itself.
--   Config: how `main` of src/probSemSharedMemRestaurant.c reads config.txt; Config/RoundTrip is about the
--     file as it is meant.
--   Startup: the arguments of the processes and what each does with them before its life cycle, in the
--     `main`s of src/semSharedMemGroup.c and its like; Startup/Arguments brings the two together.
--   System: the programs side by side. `Step` lets any process make its next action, and `Reach` is any
--     number of steps. Resource says what a program does with the semaphores of a resource, Rules and
--     its children show it of each program, Owned carries it through the steps, and Safety states what
--     follows. Ends counts the actions that a program can make, and Ends/Budget those of a run.
--     Fuel counts the requests to the waiter that are still to be made and to be taken.
--     Messages is about what the processes tell each other, with what each of them knows of it, and
--     Messages/Truth states what follows. Schedule runs a given interleaving.
--   Semaphore, SharedMemory: src/semaphore.c and src/sharedMemory.c, with the system's calls as
--     parameters; Semaphore/SystemV is about a system that does what the manual of `semop` says.
--   Logging: src/logging.c, the text of the log; Logging/Columns is about its columns.
--   Debug: src/semDebug.h and src/semDebug_sharedDataSync.h. Debug/Events is the ring of events of a
--     process, Debug/Calls the operations on semaphores that write it, Debug/Diagnostics what the deadlock
--     report collects, and Debug/Report its text in bytes, as UTF-8: the details of a process in Report,
--     the tables in Report/Summary, the whole in Report/Whole. Debug/Labels has the names of the stages.
--   Tests: the theorems at concrete inputs.
--
-- Numbers: an `int` that can be -1 is `ℤ`, of which `negsuc n` is -(n + 1); other counters are natural
-- numbers, with the wrap-around written out where the source's type has one (the `char`s of `Record`,
-- the 32 bits of `status`, the `unsigned short` of `sem_num`). An access to an array goes through `at`,
-- which is `fault` out of the bounds.
--
-- Fuel: the loops of the four `main`s run a given number of rounds, as in the source. The waiter's inner
-- loop has no bound in the source: it ends with the first request that it can pass on. It gets `fuel`
-- rounds, a parameter of `program`, and its end without a request is `tired`. What is stated of the
-- programs side by side is stated of any fuel, or of any that is more than `2 * n`, with no bound that
-- depends on it: each request that the waiter takes pays for the next round (System/Ends/Earned), and
-- there are `2 * n` requests in a run (System/Fuel). The digits of a number `n` get `n + 1` rounds, one
-- more than there are digits.
--
-- Calls outside src/: a `fork` that returns 0 makes the run that of the child, which becomes another
-- program by `execl` (`replaced`) or is the timer. A number that `%d` reads is stored as the GNU C
-- library does it, cut to 64 bits and then to the 32 low ones; the C standard leaves one outside the
-- range of `int` undefined.
--
-- Not modelled: the random times of the groups and of the chef (`late` says whether a time is positive),
-- `kill`, what a child goes on with in `Generator/Run` after a successful `execl`, what `main` goes on
-- with when config.txt lacks a number, opening and closing the log file, the output of
-- SEMDEBUG_WRITE_TO_STDERR, and the awk and shell scripts of run/. Actions of different processes
-- interleave one at a time: an assignment to shared memory is seen by all processes at once.
pub mod Base
pub mod Shared
pub mod Sync
pub mod Logging
pub mod Prog
pub mod Semaphore
pub mod SharedMemory
pub mod Slots
pub mod Receptionist
pub mod Chef
pub mod Waiter
pub mod Group
pub mod Generator
pub mod System
pub mod Kitchen
pub mod Numerals
pub mod Config
pub mod Startup
pub mod Debug
pub mod Tests
