-- ===== src/Lib.antt =====
-- A SCHC worker with an OSCORE proxy: packets from a TUN device are checked, protected, compressed
-- and sent over a constrained link, and packets from the link go the other way.
--
-- The parts, and the files that model them:
--   * libs/net/src/udp.c, the header helpers: Udp.antt. A packet pointer is the list of the bytes
--     from it to the end of its object, and every load and store may fail; fields are 16-bit
--     numbers in network order, and sums wrap as the C types do.
--   * platforms/linux/src/platform.c, the table of watched descriptors and the poll of the low
--     power mode: Platform/FdTable.antt. The table is the array as it is, with what earlier
--     entries have left behind its first free slot.
--   * applications/schc_worker_linux/src/uoscore_integration.c, the proxy's two conversions and its
--     error codes (include/oscore_proxy.h): Oscore.antt. The OSCORE library is a parameter: a
--     function from the callback, the packet and the room to an error and the bytes written.
--   * applications/schc_worker_linux/src/schc_al.c, the adaptation layer between the TUN device and
--     the network layer: SchcAl.antt for the way down, its start and its end, and
--     SchcAl/ForwardUp.antt for the way up. The static variables are the record `Al`, with the
--     bits of `event` one by one; what `create_tun`, `read`, `write`, `net_sendto` and the shell
--     commands answer is given in records of answers; what the outside sees is a list of effects.
--   * applications/schc_worker_linux/src/main.c, the event loop: Worker.antt. A turn of the loop
--     has as input what the SDK calls back, packets from the network included, what the system
--     answers, and the poll's result. `main`
--     around the loop, with L2_STACK_ahoi_posix_host, is Worker/Main.antt, and the timers that the
--     SDK starts and stops are Worker/SdkTimers.antt, over the timers of the platform.
--   * applications/schc_worker_linux/src/uoscore_integration.c, the storage of the sequence number
--     and the text of its key: Nvm.antt. The file is a list of characters; what the code uses of
--     <stdio.h> and <string.h> is written out in Nvm/Stdio.antt.
--   * libs/schc_frag_apis, the fragmentation profiles of the three builds: Frag.antt.
--   * libs/commons/src/net_helper.c, a packet for the demonstration and its checksum: NetHelper.antt.
--   * l2/ahoi_posix_host/src/fullsdkl2a.c, the lower layer on the acoustic modem: L2a.antt. The
--     SDK's callbacks are a parameter that gives what the SDK sends from inside each of them.
--   * libs/ascon_integration/src/ascon_hmac.c and ascon_integration.c, the HMAC and the HKDF of the
--     OSCORE library's crypto interface: Ascon.antt, and its AEAD in Ascon/Aead.antt, over the
--     functions of the ASCON library.
--   * libs/schc_comp_apis/oscore_basic/src/outerrules.c and innerrules.c, and the rules of
--     templates/lpwan_scenario_coap_template.c: Rules.antt. The tables are the data that the code
--     hands to the SDK; the addresses and the CoAP codes of the SDK's headers are arguments.
--     Rules/Schc.antt describes what RFC 8724 does with such a rule.
--   * platforms/linux/src/platform.c, the timers: Platform/Timer.antt. The kernel's timer stands
--     beside the program's, and what timer_settime arms it with is a parameter. The clocks, the
--     random source and the timers that are deleted at the exit are Platform/Clock.antt.
--   * platforms/linux/src/base64.c: Base64.antt. What malloc gives is a parameter.
--   * libs/schc_commons/src/schc_helper.c: SchcHelper.antt, with L2_STACK_udp. A heap block is the
--     list of its bytes; what the SDK answers is a record, what it is told a list of calls.
--   * libs/schc_comp_apis/oscore_basic/src/fullsdkextapi.c and the callbacks with REGULAR_COMP of
--     uoscore_integration.c: InnerSchc.antt, over the SDK's compressor for the plaintext.
-- The adaptation layer calls the header helpers, the proxy and the table; the event loop calls the
-- adaptation layer and the platform, whose poll calls the adaptation layer back.
--
-- A result `none` is an access outside of an array or buffer; no theorem assumes that there is
-- none unless it says so. `read` is repeated while it is interrupted, which is finitely often.
-- The checksum's carries are folded by recursion on the falling sum, so it needs no fuel.
-- The loop of `main` has fuel for so many tests of its flag: one more than the turns before the
-- first signal is enough. The loop of `nvm_read_ssn` has fuel for one line more than the file has
-- characters, which is enough since `fgets` takes one of them at least. A number of 64 bits is
-- printed with fuel for 20 digits.
-- The loop of `hkdf_expand` has fuel for 256 rounds, one more than its 8-bit counter can count
-- before it comes back to 0; for up to 254 blocks and for 256 its result is proved, so the fuel is
-- enough there. For 255 blocks the loop of the code does not end as it should.
--
-- Not modelled: whether what the OSCORE library writes is encrypted (it answers `ok` also for a
-- message that it leaves as it is); logging; the SDK, the OSCORE and ASCON libraries and the
-- modem's driver, which are not in the repository; the formatted time and the printing of the
-- platform; the callbacks with PATTERN_COMP in uoscore_integration.c, whose tables are not in
-- the repository; the creation of the TUN device, which is one ioctl; the accessors of the
-- template, which hand their calls on to the SDK's template library; the demonstration programs;
-- the variants of `main` with L2_STACK_udp and L2_STACK_udp6, which call other setters of the
-- SDK.
pub mod NetHelper
pub mod Frag
pub mod Nvm
pub mod Common
pub mod Samples
pub mod Udp
pub mod Platform
pub mod Oscore
pub mod SchcAl
pub mod Worker
pub mod L2a
pub mod Ascon
pub mod Base64
pub mod SchcHelper
pub mod InnerSchc
pub mod Rules
