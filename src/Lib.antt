-- ===== src/Lib.antt =====
-- A model of a POP3 server in C, and what holds of it.
--
-- The program is one process. A distributor thread (src/server_utils.c) accepts clients and gives
-- each a thread with a `struct Connection`; a client's line goes to `parse_input`
-- (src/parser/pop3_parserADT.c), which runs the automaton of
-- src/parser/parser_automaton/pop3_parser_automaton.c over it, looks the command up in a table, and
-- calls its action. An action answers through the connection's write buffer (src/buffer.c,
-- `send_data` of src/server_utils.c, `sock_blocking_write` of src/netutils.c), works on the list of
-- mails of the connection, and on the mail directories (src/pop3_functions.c). The threads share the
-- configuration, the statistics and the users' semaphores (src/global_config.c). One more thread
-- answers requests over UDP that read and change the configuration (src/parser/config_parserADT.c).
--
-- - Prelude, Chars, CString, Numbers: Boolean tests and lists over the native numbers, the
--   character classes of src/parser/parser_automaton/parser_automaton.h, strings up to their NUL,
--   and the decimal numbers of `snprintf` and `atoi`.
-- - Buffer: src/buffer.c. Memory is a list of cells and a pointer an index into it. A failed
--   assertion is `none`, and so is a mark on a mail outside of its array. Buffer/Contents and
--   Buffer/Queue read it as a queue of bytes.
-- - Text, Parser: src/parser/parserADT.c, the text functions and the engine that runs an automaton.
--   An automaton is a record of rows of transitions; a function pointer is a function.
-- - Socket: `sock_blocking_write` and `send_n_data`. What `send` answers and what `errno` then
--   holds is the parameter `Kernel`; `IsHonest` and `IsReading` say what is relied on.
-- - Global: the structs of src/global_config.h.
-- - Pop3/Automaton: the tables, actions and getters of the POP3 automaton. Pop3/Automaton/Grammar
--   has its language.
-- - Pop3/State: the structs of src/server_utils.h and the state of one client's thread. A step of
--   the code is a function of type `M D A`, from a state to a result and a new state. The rest of
--   the operating system (files, directories, semaphores that another thread posts, memory) is the
--   parameter `Env`, over a disk of any type `D`. Pop3/State/Send says what a reply changes.
-- - Pop3/Files: src/pop3_functions.c. Pop3/Files/Loading: which mails a directory gives.
-- - Pop3/Login, Pop3/Actions, Pop3/Retr, Pop3/Quit: the actions of src/parser/pop3_parserADT.c, one
--   function for each C function of that name. Pop3/Mail: the byte stuffing of a mail.
-- - Pop3/Commands: the table of commands, `get_command` and `parse_input`. Pop3/Commands/Lines goes
--   from the bytes of a line to the reply on the wire, Pop3/Commands/Refusals has the lines that
--   are refused before any action, Pop3/Commands/Retrieval that of a RETR. Pop3/Actions/Reactions
--   and Pop3/Actions/Marks describe replies and marks without the code's own helpers, and
--   Pop3/Retr/Body the bytes of a mail.
-- - Pop3/Session: `pop3_handle_connection` of src/server_utils.c, over the list of what `recv`
--   answers. Pop3/Session/Framing and Pop3/Session/Turns compare it with a relation of commands
--   that run.
-- - Step: code that works on a state, as a function to a result and a new state. Step/Post and
--   Step/Keeps say what such a step makes true and what it keeps, whatever it meets.
-- - Config/Automaton: the tables, actions and getters of
--   src/parser/parser_automaton/config_parser_automaton.c. Config/Automaton/Descent reads the same
--   lines by descent, Config/Automaton/RoundTrip writes them.
-- - Config/State: `struct ConfigServer` and `send_data_udp`. What `sendto` and `calloc` answer is
--   the parameter `Udp`. Config/Texts and Config/Commands: src/parser/config_parserADT.c, one
--   function for each C function of that name; Config/Commands/Outcome says what a request is to
--   do, without the network, with the table of the protocol written out; Config/Commands/Lookup
--   compares it with the table of the code.
-- - Config/Requests: `config_parse_input` and the loop `handle_configuration_requests`, over the
--   list of what `recvfrom` answers.
-- - Args: src/args.c, over the list of what `getopt_long` answers.
--
-- Fuel. `write_loop` has one round more than there are bytes in the buffer, and each round sends one
-- byte at least. `stuff_file` has as many rounds as the file has bytes, and each takes one at least.
-- `digits` has the twenty digits that a `size_t` can have. `drain` has as many rounds as the buffer
-- has cells, and each command takes two of them at least.
--
-- Not modelled: the log (src/logger.c), which no other part reads; sockets and threads at the
-- start (src/main.c); the distributor (src/server_utils.c). In the POP3 part strings have any
-- length: the fixed sizes of `username`, of the paths of 700 characters and of the configured
-- names are not bounded by it. The uninitialised fields of a new `struct Connection` are not
-- modelled: a connection has some values in them. While a thread waits for a semaphore the other
-- threads change the shared state in any way that `Env` says; at all other points a thread runs
-- alone, and so does the configuration thread. A NUL that `send_data_udp` writes behind a full
-- write buffer is not stored.
pub mod Prelude
pub mod Chars
pub mod CString
pub mod Step
pub mod Buffer
pub mod Text
pub mod Parser
pub mod Socket
pub mod Numbers
pub mod Global
pub mod Pop3
pub mod Config
pub mod Args
