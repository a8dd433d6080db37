-- ===== src/Py.antt =====
-- Python's values and the parts of its run time that the program uses.
mod Data
mod Access
mod Raise
mod Double
pub use Data.*
pub use Access.*
pub use Raise.*
pub use Double.*
