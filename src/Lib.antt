-- ===== src/Lib.antt =====
-- libgpiod: the C library between a program and the kernel's GPIO character device, version 2, and
-- the command-line tools built on it.
--
-- A program describes lines by settings, puts settings for offsets into a line config, and asks a
-- chip for these lines. The library packs the config into one request structure of the kernel, in
-- which lines are bits of 64-bit masks and at most ten attributes are shared by groups of lines. The
-- request object then reads and writes line values, reconfigures the lines and reads edge events.
--
-- The parts, each with the C file that it follows and the names of the functions in its comments:
--   Mask                 lib/internal.c, the gpiod_line_mask functions on 64-bit words
--   Enums, Uapi          the enumerations of include/gpiod.h; the structures and constants of
--                        lib/uapi/gpio.h that the library fills in or reads
--   LineSettings         lib/line-settings.c: set_direction is gpiod_line_settings_set_direction, etc.
--   LineConfig           lib/line-config.c: the config, its nodes, and the calls on it
--   LineConfig.Flags     make_kernel_flags and settings_equal
--   LineConfig.ToUapi    gpiod_line_config_to_uapi with its four steps; ToUapi.Effective is the
--                        kernel's reading of the result, as lib/uapi/gpio.h documents it
--   LineRequest          lib/line-request.c: values, reconfiguration; LineRequest.Events waits and reads
--   EdgeEvent            lib/edge-event.c: the event buffer and the read from a descriptor
--   InfoEvent, LineInfo, ChipInfo, RequestConfig
--                        lib/info-event.c, lib/line-info.c, lib/chip-info.c, lib/request-config.c
--   Chip                 lib/chip.c, and gpiod_poll_fd of lib/internal.c
--   Device               gpiod_check_gpiochip_device, gpiod_is_gpiochip_device (lib/misc.c)
--   Tools.Strings, Tools.Numbers, Tools.Options
--                        strings of C without their NUL; parse_uint, parse_period and sleep_us, and
--                        the options that name an enumeration
--   Tools.Resolver       the line resolver of tools/tools-common.c: Chips finds the chip devices,
--                        Lookup is resolve_lines, Validate is validate_resolution
--   Tools.Printing       the print functions of tools/tools-common.c, as the bytes they print
--   Tools.Gpioset        tools/gpioset.c: Values and Words parse and print, Toggle is toggle_sequence,
--                        Interact the interactive mode, Options is parse_config, Request and Main
--                        the requests of main
--   Tools.Gpiomon        tools/gpiomon.c: settings, the text of an event, the event loop and main
--   Tools.Gpionotify, Tools.Gpioget, Tools.Gpioinfo, Tools.Gpiodetect
--                        tools/gpionotify.c, tools/gpioget.c, tools/gpioinfo.c, tools/gpiodetect.c;
--                        each Options is the parse_config of the file's program
--   Tools.Banner         print_banner of the three tools that have one
--   Tools.Exit           a step of a tool that goes on or ends the program with a message
--   Kernel, Fakes        the parameter that stands for ioctl, open, close, read, ppoll and nanosleep,
--                        and a concrete one for the tests
--   Prelude              the library names the parts share, Boolean tests on numbers, results with an
--                        errno, lists, binary digits and C strings
--
-- How C is read. An object is a record, a pointer that may be NULL an Option, a failing call a
-- Result with its errno. A call that changes an object returns the changed object. A count and the
-- array it delimits are one list; what the code does past its end is written out. Every allocation
-- is a Boolean argument, so that each out-of-memory branch is a branch of the model. An argument
-- of an enumeration type may be any integer, which the constructor `other` stands for. The kernel
-- and the file system are parameters: a kernel's state goes into each call and comes out of it,
-- and a theorem that needs the kernel to behave says so among its hypotheses. The loops of the
-- library and of the resolver are recursion on the list they walk or on the number of lines left,
-- so they use no fuel; so are those of the parsers, but for the digits of a printed number n, for
-- which n + 1 rounds are enough. The toggling of gpioset and the event loops of gpiomon and
-- gpionotify may run forever: they are given after any number of rounds. In the tools memory is
-- taken to suffice, since they end where it does not. Words wrap where C's do: the count of
-- configured lines and the product of a period with its unit at 2 ^ 64, the debounce period, the
-- event buffer size and the byte counts of the two reads at 2 ^ 32.
--
-- Not modelled: the free functions, which have no effect but to release memory (the release of a
-- request and the closing of a chip, which close a descriptor, are modelled, and so is what a
-- config reset frees); gpiod_api_version, a constant of the build; assert, which stops a program
-- that passes NULL where it must not. Of the tools: getopt_long itself (parse_config takes the
-- list of its answers), help texts and the texts of error messages, readline with its
-- history, and the calendar functions of the C library (a parameter). The language bindings, the
-- examples and the tests.
pub mod Prelude
pub mod Mask
pub mod Enums
pub mod Uapi
pub mod LineSettings
pub mod LineConfig
pub mod Kernel
pub mod Fakes
pub mod LineRequest
pub mod EdgeEvent
pub mod LineInfo
pub mod RequestConfig
pub mod ChipInfo
pub mod InfoEvent
pub mod Chip
pub mod Device
pub mod Tools
