-- ===== src/Tools.antt =====
-- The command-line tools under tools/: the code they share, and each tool. A
-- string is the list of its bytes before the NUL. Memory is taken to suffice, since the tools die
-- where it does not.
pub mod Strings
pub mod Numbers
pub mod Exit
pub mod Options
pub mod Banner
pub mod Printing
pub mod Resolver
pub mod Gpioset
pub mod Gpiomon
pub mod Gpionotify
pub mod Gpioget
pub mod Gpioinfo
pub mod Gpiodetect
