-- ===== src/Service.antt =====
-- addon/urmet-gateway/urmet_gateway/usecases: the facade over the SDK and what it owns.
--
-- A coroutine runs on the loop up to an await; while it waits, the loop runs other callbacks and
-- coroutines, and the port answers. So a coroutine is a course of Threads, which goes on after each
-- await in whatever state the loop is in then, and how each awaited call comes out, errors included,
-- is an argument. The coroutines of one await also stand as functions of what the loop made of the
-- service meanwhile; Loop/Alone has the two agree. A stretch between two awaits takes one instant
-- `now` for all the clock readings in it.
pub mod World
pub mod Legs
pub mod Commands
pub mod Callbacks
pub mod Loop
pub mod Publication
pub mod Dialogs
pub mod Opening
pub mod Sides
mod Examples
