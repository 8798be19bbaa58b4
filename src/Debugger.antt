-- ===== src/Debugger.antt =====
-- The state of the debugger: lib/src/MDBDebugger.h, MDBProcess.h, MDBThread.h and MDBBreakpoint.h,
-- beside the world of the operating system. A list of pointers to objects that only this list holds
-- is the list of the objects, and a pointer into it is an index.
mod State
mod Memory
pub use State.*
unfoldable pub use Memory.*
