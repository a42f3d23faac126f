-- ===== src/Lib.antt =====
-- refmon: a Linux kernel module that protects the files and directories of a registry against
-- being written, removed or created in.
--
-- The parts and how they interact. The module keeps one global instance (model/instance.h): a
-- state, the hash of a password, the registry and two locks. Four system calls
-- (syscalls/syscalls-handlers.c) change it, each under the instance lock and behind the checks of
-- syscalls/safety.c. Five kretprobes (probing/probing-handlers.c) look up the file of each open,
-- removal and making of a directory in the registry, with the helpers of misc/fsutils.c; the
-- handler at the return makes a refused call fail and queues a log record (io/logio.c). Setting
-- the state switches the probes (probing/probing.c). The deferred work hashes the program's file and
-- appends a line to the log, a file in a file system of its own (io/refmonfs), which a tool lays out
-- on a device. /proc files (io/procio.c) tell the state, the registry and the numbers of the system
-- calls to the command line tool (user/).
--
-- The files. Each names the code it is about at its top; a function of the source is the
-- definition of the same name, without its leading underscore and, for MACROS, in lower case.
--   Prelude      the names of the library that all files use; tests, lists, signed integers and
--                the errno values (negative results are elements of ℤ)
--   CStr         C strings as lists of byte codes without their NUL, and MATCH_STRING
--   Kernel       the kernel that the module calls: memory, paths and inodes, crypto, kprobes
--   Model        model/state.c, model/instance.c, model/registry.h
--   FsUtils      misc/fsutils.c; Subpath, Search and Resolve hold its theorems
--   Misc         misc/misc.c: hashing; FileHash holds hashgen_filecont, Hex and Hash theorems
--   Safety       syscalls/safety.c; Decision and Password hold its theorems
--   LogIo        io/logio.c: log_handler; Defer holds the deferred work that writes the log
--   Probing      probing/probing.c; Switch holds the theorem of probing_update
--   World        the global state and the monad of the operations on it
--   AddFile      _add_file of syscalls/syscalls-handlers.c
--   Handlers     the handlers of syscalls/syscalls-handlers.c
--   Removal      how an entry leaves the registry
--   Syscalls     the system calls of syscalls/syscalls.c and what they do as a whole
--   Hooks        probing/probing-handlers.c
--   Startup      refmon.c, init_syscalls and flush_syscalls, init_probes and flush_probes, and
--                init_procfiles: how the module comes up and goes down
--   RefmonFs     io/refmonfs/file.c and dir.c: reading and appending to the log file, listing its
--                directory; Mkfs holds singlefilemakefs.c (its main is makefs), Mount
--                singlefilefs.c and the lookup of file.c, Whole the reading of the whole file
--   ProcIo       io/procio.c: what the /proc files print (_read_proc)
--   Readers      the loop of search_entry of misc/fsutils.c, as the probes run it: turn by turn, with
--                system calls between the turns; the kernel's list is an interface (KernelList)
--   Locking      system calls on many processors: Pieces takes each call apart into what it does
--                between SPIN_INSTANCE_LOCK and SPIN_INSTANCE_UNLOCK, Steps and Progress say what
--                every interleaving comes to
--   User         user/user.c and user/user-utils.c: the command line tool; EndToEnd, SetAndShow
--                and AddAndShow follow it into the module and back
--   Monitor      what the system calls promise, without lists, locks and allocations; View and
--                Refinement relate it to the registry, Simulation to the system calls, Access to the
--                probes
--   System       the calls and handlers as steps of one system, with its invariant; Audit follows
--                a refused call to its line in the log
--   Examples     the theorems at concrete inputs
--
-- What freed memory holds when it is read is a parameter too (read_freed): the path of a dentry is
-- read from a buffer that has been freed, and each result that needs it intact says so. So is the
-- value that the write to the log returns without having set it.
--
-- The conventions. Code of the kernel is a parameter: records of functions (Kernel), with what is
-- relied on as named hypotheses (Kernel.Documented). Calls that can fail from one moment to the
-- next (kmalloc, the crypto calls) are numbered, and the parameter says for each number whether the
-- call succeeds; every theorem that does not assume otherwise holds whichever of them fail. The
-- file system is a parameter that stays fixed while one operation runs, and may differ from one
-- operation to the next. `none` as the outcome of an operation is a fault: a NULL or error pointer
-- is read, a buffer is overrun, or a lock is waited for that is never released. Loops of the source
-- run over finite lists and are structural recursion, but for the loop over a file's content (feed
-- in Misc.FileHash), which has fuel for each byte of the file and one more turn; it is proved that
-- this is enough. Inode numbers, registers and file offsets are natural numbers with the source's
-- 64-bit constants and wrap-around written out (REFMON_NO_INO_NO is 2 ^ 64 - 1).
--
-- What is not modelled: log messages and the texts of the tool's messages; memory that is never
-- freed; interrupts that come while a lock is held; the tests; lib/scth, a copy of
-- another project's library, whose search for free entries of the system call table is a parameter.
-- The entry handlers of the probes and the /proc file of the state read the instance without its
-- lock. The modules Hooks and ProcIo have them read it at one moment; what comes between the turns of
-- a handler's search is in Readers.
pub mod Prelude
pub mod CStr
pub mod Kernel
pub mod Model
pub mod FsUtils
pub mod Misc
pub mod Safety
pub mod LogIo
pub mod Probing
pub mod World
pub mod AddFile
pub mod Handlers
pub mod Removal
pub mod Syscalls
pub mod Hooks
pub mod System
pub mod Monitor
pub mod Readers
pub mod Locking
pub mod Startup
pub mod ProcIo
pub mod User
pub mod RefmonFs
pub mod Examples
