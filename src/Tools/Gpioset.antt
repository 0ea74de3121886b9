-- ===== src/Tools/Gpioset.antt =====
-- tools/gpioset.c: the values of the command line, the toggling of lines, the commands of the
-- interactive mode and the requests.
pub mod Values
pub mod Words
pub mod Toggle
pub mod Interact
pub mod Request
pub mod Main
pub mod Options
mod Tests
