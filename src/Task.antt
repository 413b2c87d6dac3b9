-- ===== src/Task.antt =====
-- A task and what it is made of: pfunc/attribute.hpp, event.hpp, group.hpp, exception.hpp and task.hpp.
pub mod Attribute
pub mod Event
pub mod Group
pub mod Exception
pub mod Object
