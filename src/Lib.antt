-- ===== src/Lib.antt =====
-- The host library for a Nugget security chip: libnos_transport calls an application of the chip by
-- datagrams, libnos_datagram brings the datagrams to the chip, libnos has the C++ clients over these and
-- the generator of typed clients, and nugget/include has the words and messages that both sides share.
--
-- Files and the code they model:
--   Crc16         libnos_transport/crc16.c: crc16_table, crc16_update, crc16. Division, Linear, Update
--                 and Detect prove what the checksum is and which damage it shows.
--   Application   nugget/include/application.h: AppId has the ids, Command the command words, AppStatus
--                 the status codes, Status the two messages and their packed little-endian bytes.
--                 Events is nugget/include/citadel_events.h, Nugget is nugget/include/app_nugget.h,
--                 Interfaces has the constants of avb.h, app_transport_test.h and keymaster.h.
--   Device        libnos_datagram/include/nos/device.h: the operations that the transport calls on a
--                 device, and what it takes from the C library; both are parameters.
--   Citadel       libnos_datagram/citadel.c: System has the system calls, which are parameters, and the
--                 static buffers; Datagram is read_datagram and write_datagram, Control is
--                 nos_device_open, close_device, default_device, reset and wait_for_interrupt. Threads
--                 has the calls of the two datagram operations as single steps of threads that share
--                 the driver. Chip has the driver over a kernel that carries datagrams to a chip.
--   SignedHeader  nugget/include/signed_header.h: the header of a firmware image. Print is its print,
--                 as the list of its calls of printf.
--   FlashLayout   nugget/include/flash_layout.h: where the flash holds the images.
--   Transport     libnos_transport/transport.c, a module per function: Retry is nos_device_read and
--                 nos_device_write, Status is get_status and clear_status, Ready is make_ready, Send
--                 is send_command, Poll is poll_until_done, Receive is receive_reply and Call is
--                 nos_call_application. Frame is what no step of a call changes. Chip is the other end
--                 of the protocol as nugget/include/application.h describes it, an app behind a device,
--                 with what each function does against it. Script is a device for tests, and Precomputed
--                 sums the statuses of the constants STATUS_CRC_FOR_IDLE and so on. Laws and the like
--                 hold the theorems of the module above them, Examples and Runs the tests.
--   Client        libnos: Nugget is NuggetClient.cpp, with Lifetime for sequences of its calls and Calls for
--                 one call; Debuggable is NuggetClientDebuggable.cpp, App is include/nos/AppClient.h and
--                 StatusName is debug.cpp. Host is what a client takes from libnos_datagram, and
--                 Citadel/Host shows that the driver gives it. Vector is what is used of std::vector.
--   Generator     libnos/generator/main.cpp: Descriptor has the records that it reads, Text the functions of
--                 strutil.h, which are parameters, Names the packages and qualified names, Clients what is
--                 printed to the three kinds of files, with the texts in Clients/Templates, and Generate
--                 the plugin's Generate. Method is the method that is printed for a service, as it runs,
--                 and Method/OnChip runs it down to an app on the chip.
--   Base          shared helpers: tests, lists, integers, calls on a state, bitwise operations.
--
-- How the model corresponds to the code:
--   A function of the code is a function of the state of all that is outside, `W`, which the device's
--   operations and the system's change. A pointer that may be null is an Option, and a buffer is the
--   list of its bytes; what is written through a pointer is returned. A result code is a number, and
--   a C int is a ℤ. A variable of 16 bits is reduced modulo 2 ^ 16 where it is assigned. The loop over
--   the datagrams of a request or a reply is recursion on the accessibility of the bytes left, and a
--   loop over retries is recursion on their number. The poll loop ends by the clock only, so it runs
--   on fuel: more looks than there are nanoseconds in its 60 seconds are enough on a monotonic clock
--   that every reading moves on.
--   The driver's static buffers and the memory behind them are functions from offsets to bytes, so a
--   write out of bounds is a change that the model shows. Threads take the steps of their datagrams in
--   any order; that a lock which has been got was free is what is assumed of POSIX mutexes.
--   The host is little-endian, as the code assumes where it sums integers in place. Logging, and the
--   poll count that is only logged, are left out. Time in seconds does not overflow.
--   A C++ vector is its elements and its capacity; one that has to grow gets the room that is asked for. A
--   client is its fields, and the sequences of its calls are a step relation. Where the generator would be
--   undefined, on an empty vector, the model gives none. A print of the generator is the map of variables
--   and the text; the library that puts them together and writes the file is not modelled.
--
-- Not modelled: the firmware, of which Chip states only what its host is told, for an app of
--   version 1 of the protocol that checks every request's checksum, whose chip is awake and whose
--   datagrams arrive undamaged; the driver's kernel side, the C library, the C++
--   library's allocator and the protocol buffer library, which are parameters or left out; the
--   generator's main; the protocol buffers, tests and build files.
pub mod Base
pub mod Crc16
pub mod Application
pub mod Device
pub mod Citadel
pub mod FlashLayout
pub mod SignedHeader
pub mod Transport
pub mod Client
pub mod Generator
