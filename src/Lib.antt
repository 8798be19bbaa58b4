-- ===== src/Lib.antt =====
-- A model of the debugger library of this repository, lib/src, and what is proved of it.
--
-- The program drives a debuggee under Mac OS X: MDBDebugger owns the breakpoints and one
-- MDBProcess, the process owns the threads, and both work on the debuggee through Mach calls,
-- waitpid and ptrace. Breakpoints are trap bytes written into the debuggee's memory, which
-- MDBDebugger::read hides again.
--
-- Prelude holds the names that all modules share. Mach is the interface of the operating system:
-- a record of its calls on an abstract world, which every definition takes as a parameter;
-- Mach.Laws states the documented behaviour that the theorems assume, through the bytes of the
-- debuggee and the suspend counts of its threads and task. Tests.Toy is an operating system that
-- meets the laws.
--
-- MbList models lib/src/MBList.h: MbList.Inv says which list of values an array list stands for,
-- MbList.Refine and MbList.Search relate the operations to that list. The other components use
-- lists of values in place of MBList. Allocation is taken to succeed.
--
-- Debugger is the state (lib/src/MDBDebugger.h, MDBProcess.h, MDBThread.h, MDBBreakpoint.h) and
-- the memory access of lib/src/MDBDebugger.cpp. A list of pointers to objects that only the list
-- holds is the list of the objects, and a pointer to one of them is its place. There is one
-- debugged task, so the calls do not name it.
--
-- Breakpoint models lib/src/MDBBreakpoint.cpp and the breakpoints of MDBDebugger.cpp. View is the
-- memory without the traps, Enable and Traps say what enabling and disabling do to it, Read that
-- the debugger reads it, Restore what a pair of calls restores and what the code does not check,
-- Flags which breakpoints a call touches, Find how breakpoints are made, found and deleted.
--
-- Process models the suspending and resuming of lib/src/MDBProcess.cpp; Resume, Suspend and
-- Together hold the theorems. Loops that wait for the system take fuel, and none is the answer of
-- a loop that has not ended; machResumeTask needs more fuel than the task's suspend count.
--
-- Threads models the thread list: findThread, gatherThreads, machUpdateThread and
-- machCommitThread, with WRAP_MACH, the loop around an aborted call, on fuel for the longest run
-- of aborted calls.
--
-- Control models what MDBDebugger.cpp does around the waits: internalWait, enableSingleStep,
-- step, checkForBreakpointsAndStep, checkForBreakpointsAndStepBack and resume. Control.Frame is
-- what these calls leave alone, Control.Wait says when a wait ends, Control.Step what a step does
-- to the breakpoints, Control.Back what the step back does to the threads, Control.Off what a
-- thread at a breakpoint does to it before the debuggee is resumed, Control.Resume what resume
-- does where no thread is at one. Over models stepOver and the calls on the debugger's own list
-- of threads, which are older copies of those of MDBProcess.cpp. The fuel bounds the rounds of a
-- wait, the runs of aborted calls and the suspend count of the task, and none is also the answer
-- where an assertion fails.
--
-- Disassembler is the interface of udis86. Code models lib/src/MDBCode.cpp: Code.Region the
-- regions, Code.Load and Code.Settle the loading of symbols, Code.Scan and Code.Cover the scan of
-- a procedure; the fuel of both is the depth of the recursion. Code.Decode models disassemble and
-- fromProcedure, whose loop takes at most one round for each byte. What MDBMachFile::parse finds
-- in a file is an argument of the loading. The loop of a scan takes one round more than its
-- buffer has bytes.
--
-- Launch models how a process is started: acquireTaskportRight of lib/src/MDBShared.cpp, and the
-- constructor, createProcess and killProcess of MDBDebugger.cpp. The calls that fork, trace, wait
-- for and take the child are the record System. Launch.Created is about what is left of a
-- debugger with a process, Launch.Runs about runs of createProcess, Launch.Origin about where a
-- process comes from. The fuel bounds the calls of waitpid and the loops of what is called.
--
-- Attach models the rest of lib/src/MDBProcess.cpp: findAddress, the hook on the dynamic linker
-- (Attach.Hooks), and what the two log calls print (Attach.Dylinker). The memory map of the task
-- is the record MemoryMap; Attach.Search has its laws and a search of the list of regions for
-- findAddress, Attach.Listing does the same for logMemoryState, and Attach.Hooked is about the
-- hook. The loops take one round for each region and one more. What the code keeps in variables
-- that it has not set is an argument.
--
-- Visit models forallThreads of MDBDebugger.cpp with its delegates; Visit.World is about visits
-- that go through all threads, Visit.Noncurrent about suspending and resuming all threads but
-- one.
--
-- Session is the debugger as its clients see it: the calls of lib/src/MDBDebugger.h as steps on
-- its state, with the system going on by itself between them. Session.Post has the rules for
-- calls that may still be running, Session.Keeps, Session.Calls and Session.Resume go through the
-- calls, and Session.History through sequences of them. The calls that only change what the
-- system knows of the debuggee, such as killProcess and forallThreads, are covered by the steps
-- of the system.
--
-- Console models lib/src/test/MDBConsole.cpp: the commands, the loop that reads and runs them on
-- a debugger that createProcess has set up, and the completions. Console.Generators has the
-- completion generators, Console.Lines says which lines the loop gets to, Console.Complete about
-- what readline gets from the generators, Console.Sound about what a run leaves. The lines that
-- readline gives are an argument, and the buffer that it allocates for an empty line has room for
-- the closing zero only. The loop ends with its lines, so it needs no fuel of its own.
--
-- Stack models lib/src/MDBStack.cpp; its loop stops by itself behind 65 frames, so it needs no
-- fuel.
--
-- MachReader models lib/src/MDBMachReader.cpp over the bytes of a file; what mach-o/fat.h,
-- loader.h and nlist.h declare is an argument, and none is the answer where the code reads
-- outside of its buffer. MachReader.Fat is about the choice of an image, MachReader.Table about
-- the load commands, MachReader.Symbols about what parse reads.
--
-- MdbLog models lib/src/MDBLog.cpp: what is traced, the colours, and the divider lines, which
-- MdbLog.Divider is about. MdbLog.Trace follows a text through the buffers of traceLn, with the
-- helpers of lib/src/MDBShared.cpp, and MdbLog.Print is about that. A divider line takes its text
-- to fit its buffer. Report models the lines of the logState calls; Report.States is about them.
--
-- HostThread models MBThread of lib/src/MBShared.cpp, with the threads of the host as steps;
-- HostThread.Joined is about them.
--
-- MbString models the functions of MBString in lib/src/MBShared.cpp: MbString.Trim and
-- MbString.Tokens say what they compute.
--
-- Not modelled: the test driver lib/src/test/MDBDebuggerTest.cpp; readline and its settings; the
-- formatting of the C library; the allocation of the profiling port, and machUpdateTask and
-- machSample, which only report. Tests holds the runs at concrete inputs.
pub mod Prelude
pub mod MbList
pub mod Mach
pub mod Debugger
pub mod Attach
pub mod Breakpoint
pub mod Process
pub mod Threads
pub mod Disassembler
pub mod Code
pub mod Control
pub mod Over
pub mod Launch
pub mod Visit
pub mod Stack
pub mod MbString
pub mod HostThread
pub mod MachReader
pub mod MdbLog
pub mod Report
pub mod Session
pub mod Console
pub mod Tests
