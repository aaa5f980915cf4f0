-- ===== src/Lib.antt =====
-- GNU CSSC is a set of programs that keep the versions of a text in one history file, an s-file. Its
-- body is a weave: control lines ^AI n, ^AD n and ^AE n open and close blocks of text that the delta
-- with number n inserted or deleted. This library models the core of the programs.
--
-- Parts, and the files of the repository that they model:
--   SeqState      src/seqstate.h, src/seqstate.cc: the class `seq_state`. `start`, `end` and
--                 `decide_disposition` follow the open blocks, `include_line` says whether the current
--                 line belongs to the wanted version. SeqState/Blocks describes the open blocks without
--                 the loop of the code, and who owns a line.
--   Prepare       src/sf-get.cc and src/sf-get3.cc: `prepare_seqstate`, which marks in a `seq_state`
--                 the deltas that a version takes. Prepare/History describes them by ancestry.
--   Retrieve      `sccs_file::get` of src/get.cc: makes and prepares a state and has the body read.
--   Select        src/sf-get2.cc: which SID a request stands for, and which one a new delta gets.
--   Pfile         src/pfile.h, src/pfile.cc, src/pf-add.cc and src/pf-del.cc: the edit locks; Pfile/File is
--                 the p-file with the lines of src/linebuf.cc, read and written.
--   Rmdel         src/sf-rmdel.cc: a delta taken out of a history file.
--   Cdc           src/sf-cdc.cc: changed MRs and comments of a delta.
--   Sfile         src/parser.cc, src/sf-write.cc and src/cap.cc: an entry of the delta table (Sfile.antt)
--                 and the header of a history file (Sfile/Header), read and written; the flags of
--                 src/sccsfile.h and their lines (Sfile/Flags). A field that a line does not have, which
--                 the program reads unset, is a stop of its own, `unset_arg`.
--   SidList       src/sid_list.h and src/sl-merge.h: lists of ranges of SIDs. Sid/Line describes the SIDs that
--                 the operators put in order: those of the trunk, and those of one branch.
--   Body          the readers of the body. Body/Line is src/base-reader.h and src/base-reader.cc, and
--                 the switch on control lines in src/body-scanner.cc; Body/Get is
--                 `sccs_file_body_scanner::get`, which drives a `seq_state`; Body/Remove is
--                 `sccs_file_body_scanner::remove`; Body/Delta is its `delta`, which weaves in the lines of a
--                 diff; Body/Delta/Weave describes the new body around the old one, Body/Delta/Scan what becomes of
--                 each of its lines, and Body/Delta/Retrieved reads the new body with `get`; Body/Keywords is src/sf-chkid.cc.
--   Diff          src/diff-state.h and src/diff-state.cc: the reader of the output of `diff`, which writes
--                 the control lines of a new delta.
--   Sid           src/sid.h and src/sid.cc: numbers of versions, read, printed, compared, counted up.
--   Release       src/release.h, src/release.cc, src/relvbr.h, src/relvbr.cc, src/rel_list.cc and
--                 src/rl-merge.cc: release numbers, triples, and sets of releases.
--   DeltaTable    src/delta.h, src/delta-table.h, src/delta-table.cc, src/dtbl-prepend.cc and
--                 src/delta-iterator.cc: the list of deltas with its index.
--   Dates         src/sccsdate.h and src/sccsdate.cc: dates, read (Dates/Read), printed (Dates/Print) and
--                 compared.
--   Split         src/l-split.cc: MRs, comments and lines of a file as lists of texts.
--   Encoding      src/encoding.cc: binary files as lines of text.
--   Common        numbers, lists, integers and decimal text that the parts share.
--   Examples      runs of the definitions, and each theorem with hypotheses at a concrete input.
--
-- Representation. A character is its code, a line the list of its codes without the newline, a body
-- the list of its lines. A `short` is an integer that wraps around at 16 bits, a `seq_no` a natural
-- number that wraps around at 2 ^ 16. Where the program quits with a message the model returns
-- `fail`, `failed` or `quit`; where it uses an index out of range, the theorems suppose the index
-- in range. What the model takes as a parameter: the functions that `get` is given for writing a
-- line, of which that for keywords says whether it found one, the printed SID of a delta, the name
-- of the user, the present date, and the tests for membership in the SID lists of a command line
-- and for a cutoff date.
--
-- Fuel. The constructor of `seq_state` needs `last` + 2 rounds, and does not end for the greatest
-- last number. The loops of Prepare and Retrieve need two more rounds than the highest number, and
-- the loops of Select one more than there are SIDs in use, those of Body/Delta one more than `diff`
-- gives lines, and that over the entries of a header one more than the file has lines; the theorems
-- say that so much is enough.
--
-- Not modelled: the files themselves (opening, seeking, write errors of the standard library other than
-- those of the functions that `get` is given), the checksum of an s-file, the assertions of
-- `sccs_file::write`, `range_list::remove`, the clock, reports and command lines.
pub mod Common
pub mod SeqState
pub mod Body
pub mod Prepare
pub mod Retrieve
pub mod Diff
pub mod Pfile
pub mod Select
pub mod Sid
pub mod SidList
pub mod Sfile
pub mod Rmdel
pub mod Cdc
pub mod Release
pub mod Split
pub mod Dates
pub mod Encoding
pub mod DeltaTable
pub mod Examples
