-- ===== src/Lib.antt =====
-- lua-t: byte buffers, binary formats, records, arrays, an event loop, encoders, an HTTP parser,
-- network addresses and test suites for Lua, written in C.
--
-- The program's parts and the files that model them (paths from the root of the repository):
--
-- Csv (src/t_csv_l.c, src/t_csv_l.h). Csv.antt has the record parser: `State` is `enum t_csv_ste`,
-- `Row` is `struct t_csv_row`, `pushfield` is `t_csv_pushfield`, `parse` with `step_in` is
-- `t_csv_parse` and `parse_line` is `lt_csv_ParseLine`. A read outside the line is `none`. What is
-- stored in the result table is a list of numbered fields. Csv/Split.antt has the iterator
-- `t_csv_split`. `luaL_gsub` belongs to the Lua library: it is a parameter, and where a theorem needs
-- it, `ReplacesAll` in Csv/Render.antt says what the Lua manual says of it.
--
-- Buffer (src/t_buf.c, src/t_buf_l.c, src/t_buf_seg.c, src/t_buf.h). Buffers and segments are Lua
-- userdata that several handles may name, so they stand in a store: `Store`, `Handle`. Buffer.antt has
-- `t_buf_tolstring` and `t_buf_checklstring`; Buffer/Segments.antt has `t_buf_seg_set`,
-- `lt_buf_seg__Call`, `lt_buf_seg_shift` and `lt_buf_seg_next`, Buffer/Segments/Fields.antt the
-- metamethods `__index` and `__newindex` of a segment; Buffer/Access.antt has the methods of
-- src/t_buf_l.c. `Result` tells a Lua error, with the number of the argument, from a fault: a
-- `memcpy` or a read outside the object. Prelude/Word.antt has the integers of C: `lua_Integer` and
-- `size_t` have 64 bits and `int` 32, a `char` is signed, and a conversion keeps the bit pattern.
--
-- Loop (src/t_ael_l.c, src/t_ael_tsk.c, src/t_ael_dnd.c, src/p_ael_sel.c). Loop/Tasks.antt has the list
-- of timed tasks as the C code has it, nodes that link to each other: `insert`, `remove`, `adjust`,
-- `execute` and `process` are the functions `t_ael_tsk_…`. The functions of the tasks are a parameter.
-- Walks and rounds have fuel; the theorems show that fuel for the length of the list is enough.
-- Loop/Run.antt has `lt_ael_addtask`, `lt_ael_canceltask` and `lt_ael_run`, with the platform's poll as
-- a parameter. Loop/Handles.antt has the descriptors that are observed: `lt_ael_addhandle`,
-- `lt_ael_removehandle`, and the implementation with `select`; Loop/Clean.antt has `lt_ael_clean`, and
-- Loop/Epoll.antt the implementation with `epoll` (src/p_ael_epl.c), with `epoll_ctl` as a parameter.
--
-- Encode (src/t_enc_rc4.c, src/t_enc_b64.c, src/t_enc_crc.c). Encode/Rc4.antt, Encode/Base64.antt and
-- Encode/Crc.antt have the tables, loops and methods of the three encoders. The counter of
-- `t_enc_rc4_crypt` has 8 bits and its loop has fuel; those of the loops in src/t_enc_b64.c have 32 bits, and
-- a text for which one of them begins again at zero is a fault.
--
-- Http (src/t_htp_req.c). Http.antt has `t_htp_req_parseMethod`, `eat_lws` and
-- `t_htp_req_parseHttpVersion`, Http/Url.antt `t_htp_req_parseUrl` with the part of Lua's stack that it
-- uses, Http/Headers.antt `t_htp_req_handleHeader` and `t_htp_req_parseHeaders`, where a pointer is the
-- text from there on, and Http/Request.antt `lt_htp_req_parse`.
--
-- Tst (src/t_tst_l.c, src/t_tst_cse.c). Tst.antt has suites and cases as records of their fields; what a
-- function of the user does (whether it calls `done`, what it raises) is data there, and what
-- `luaL_where` and `luaL_traceback` say is a parameter. Tst/Cases.antt has the operations of a case, with
-- `t_tst_cse_traceback`; Tst/Counts.antt `lt_tst__newindex` and `t_tst_getMetrics`; Tst/Sync.antt
-- `t_tst_cse_runSync`, `t_tst_done` and `lt_tst__call`; Tst/Async.antt `t_tst_cse_runAsync` with the part
-- of Lua's stack that it uses; Tst/Report.antt the texts of suites and cases. What is printed is a list of
-- lines in the suite. An error that ends a call leaves no suite in the model.
--
-- Numarray (src/t_nry_l.c). Numarray.antt has the arrays of integers: the constructor, reading and
-- writing of elements, the iteration that `pairs` does, `lt_nry_reverse` and `lt_nry__eq`. The `for`
-- loop of Lua has fuel for its rounds.
--
-- Pack (src/t_pck_l.c, src/t_pck__format.c, src/t_pck__readwrite.c, src/t_pck_l.h). Pack.antt has the
-- atomic packers and `t_pck_copyBytes` on a little-endian machine; Pack/Integers.antt has
-- `t_pck_getIntValue` and `t_pck_setIntValue`, Pack/Atoms.antt `t_pck_read` and `t_pck_write`,
-- Pack/Trees.antt `t_pck_getSize`, `t_pck__callread` and `lt_pck_idx__call`, and Pack/Format.antt
-- `t_pck_parseFmt` and `t_pck_getPacker`; Pack/Methods.antt has `lt_pck_GetSize`, `lt_pck__len`,
-- `lt_pck_SetDefaultEndian` and `t_pck_readArguments`. What packers refer to in the registry of Lua is
-- a tree: the elements of sequences and structs are what `t_pck_idx_getPackFromFieldOnStack` finds.
-- That function, `t_pck_idx_getOffset`, `t_pck_seq_create` and `t_pck_str_create` are declared, but the
-- repository has none of them: the offset and the making of sequences are parameters. So are floating
-- point and the conversions of the Lua library (`Lua` in Pack/Atoms/Values.antt). The loop over a
-- format has fuel for its letters and one more round.
--
-- Net (src/t_net_adr.c, src/t_net_l.h). Net/Address.antt has the addresses: `Adr` is the memory of a
-- `sockaddr_storage` on Linux, cut at the fields of the families, which lie over each other. The
-- functions that turn addresses into texts and back are parameters, `Platform`, and `Standard` in
-- Net/Copies.antt says what their manual says of them.
--
-- Prelude.antt and its children pass on the library's names and hold the lemmas on lists, numbers and
-- bits that the parts share. Each part has a module Tests with runs and examples.
--
-- Where the code takes more than it checks for: the first count of `lt_csv_ParseLine` is one from 0 on that fits
-- an `int`; a loop with `select` has its `fdMax` and `fd_set` set; the stack of Lua has room for the packers of a
-- format; the source file of a test can be opened.
--
-- Not modelled: the cache and the printing of packers, the search of the stack for the running test
-- case, the comparison of values in tests, sockets (src/t_net_sck*.c, src/p_net*.c), web sockets and the
-- registration of Lua functions. Sockets are wrappers around system calls, and the functions of web
-- sockets are stubs; the rest has logic of its own that this development does not reach.
pub mod Prelude
pub mod Csv
pub mod Buffer
pub mod Loop
pub mod Encode
pub mod Http
pub mod Numarray
pub mod Pack
pub mod Tst
pub mod Net
