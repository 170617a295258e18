-- ===== src/Closure.antt =====
-- Project_1/Stuff: the transitive closure of a directed graph, by threads and by processes.
pub mod BitArray
pub mod Walks
pub mod Grid
pub mod ReadFile
pub mod Threads
pub mod Processes
pub mod Blocks
pub mod Layout
pub mod Output
pub mod IntFile
pub mod Bag
pub mod Flip
pub mod Programs
