-- ===== src/Tests.antt =====
-- Runs at concrete inputs, over a small operating system that meets the laws.
mod Toy
mod Lists
mod Breakpoints
mod Processes
mod Sessions
mod Attaches
mod Launches
mod Visits
mod Consoles
mod Resumes
mod Hosts
mod Logs
mod Listings
mod Controls
mod Codes
mod Stacks
mod Strings
mod Files
