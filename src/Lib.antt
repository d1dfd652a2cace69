-- ===== src/Lib.antt =====
-- A model of tcp-client, a command-line client for TCP servers and payShield HSMs, and proofs about it.
--
-- The program reads its command line (src/cli_args.c), connects a socket (src/socket_client.c), and
-- then runs in one of two modes: one payload and its answer (src/mode_oneshot.c), or a prompt
-- (src/mode_interactive.c) whose line editor is src/linenoise.c. Payloads are written as HEX or with
-- escapes (src/hex_utils.c), and answers may be decoded as HSM responses (src/hsm_decoder.c).
--
-- Which file models which part:
--   Base        lists, bits and tests shared by all: names, no code of the program.
--   Hex         src/hex_utils.c, function for function. A C string is the list of its bytes before the
--               NUL; the return codes -1 and -2 are `err invalid` and `err overflow`; the capacity of a
--               buffer is an argument, `none` for a NULL pointer.
--   Linenoise   src/linenoise.c. State is linenoiseState with the file-level variables; each key and each
--               escape sequence of linenoiseEditFeed is a function in Keys or Feed. The line buffer is the
--               array itself: an access outside it, a missing NUL or an int that overflows is `none`, so
--               that `some` is also memory safety. What is printed is a list of outputs.
--               Line is the line with a cursor that the editor refines. Cooked is linenoise() where raw
--               mode cannot be set, with a fault for a NULL prompt. Heap has the blocks that are allocated and freed, apart from what
--               they hold, and there an allocation may fail.
--   Socket      src/socket_client.c and the error tests of src/compat.c. What the kernel answers is a list
--               with one entry a round, or one record an address; a call whose list ends blocks for ever.
--   Hsm         src/hsm_decoder.c: hsm_parse_response and the tables of codes, and in Analysis and Report
--               hsm_format_analysis, where a write outside one of its arrays is `none`.
--   Cli         src/cli_args.c, and main's choice of the mode. The options that getopt_long
--               returns are a list, and the other arguments another one. Usage has the texts of the
--               help and of the version.
--   Oneshot     src/mode_oneshot.c: the bytes that are sent for a payload, and the POSIX loop as a function of
--               the answers of poll(), recv(), read(), send() and write(), one record a round. Stdout is
--               write_all_fd, where write() takes all once its answers end. Windows is the loop that
--               Windows compiles, with its clock.
--   Interactive src/mode_interactive.c. Pipe is run_interactive_pipe_mode, Terminal is
--               run_interactive_tty_mode over the editor of Linenoise, and Handler the two handlers that
--               it calls. Both loops are functions of the answers of poll(), read() and the socket, one
--               record a round; an access outside an array is a fault, and a loop whose answers end
--               blocks for ever. Windows has the two loops that Windows compiles.
--   Console     src/signal_handler.c and the raw mode of src/linenoise.c for POSIX: a State is what the
--               terminal is set to, with the variables of the two files and the handlers of atexit().
--               Windows is raw mode with the console modes of Windows.
--   Main        src/main.c: what the program meets is a World, and what it leaves is an exit code with the
--               sockets that were opened and closed, the calls of platform_cleanup() and what
--               main prints. It composes Cli, Socket, Oneshot and Interactive.
--
-- The loops recurse on their input: the text, the list of answers, or the options, so no fuel is used;
-- fgets_chunks recurses on the bytes of the file. emit_digits, which writes a number in decimal, runs on
-- fuel, and number_of-decimal proves that the fuel is enough.
--
-- Not modelled: getopt_long; the diagnostics; failing allocation outside of Linenoise.Heap; on POSIX, the
-- time that passes; what platform_init, set_socket_nonblocking and get_time_ms_hires do, which
-- are calls of the system.
mod Base
pub mod Hex
pub mod Linenoise
pub mod Socket
pub mod Hsm
pub mod Cli
pub mod Oneshot
pub mod Interactive
pub mod Console
pub mod Main
