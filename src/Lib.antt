-- ===== src/Lib.antt =====
-- asterism astools: a host library that runs tools for a language model under a policy. A manifest
-- says which paths, variables and rights a tool requests, the host grants some of them, and the
-- arguments of each call are checked before the tool starts.
--
-- The parts, and the files of the repository that they are read from:
-- - Path: src/path.c in its POSIX build (path_squeeze, strip_last, astools_path_canonical,
--   astools_path_under), os_path_join of src/os_common.c, os_realpath and os_path_is_abs of
--   src/os_proc_posix.c. Path/Segments is the abstract view, a path as the list of its components.
-- - Policy: src/policy.c. Policy has astools_policy_effective, Policy/Preflight has walk_type and
--   astools_policy_preflight. The policy uses the canonical paths and the containment test of Path.
-- - Utf8: src/utf8.c, against the encoding of RFC 3629 in Utf8/Spec.
-- - Base64: the encoder and the decoder of src/util.c. Base64/Reference decodes group by group.
-- - Duration: src/duration.c.
-- - Semver: src/semver.c. Uri: the two conversions of src/lsp_uri.c, which test their text with Utf8.
-- - Callline: the parser of src/callline.c, which finds the first call in a model's output.
--   Callline/Shape says what a call in a line looks like.
-- - Selection: src/selection.c, which lists one version of each tool; it compares them with Semver.
--   Selection/Pins says which tools may be listed.
-- - Slots: astools_slot_acquire and astools_slot_release of src/execution_queue.c, with the threads
--   as explicit steps in any order; a waiting thread wakes at any time.
-- - Json: src/json.c. Json has the values and the copy, Json/Parser jx_parse, Json/Writer jx_write.
--   Json/Runs has the runs of the parser as relations, with no rounds to run out of.
--   The test of a UTF-8 sequence is that of Utf8.
-- - Time: src/time.c, the calendar in Time and RFC 3339 in Time/Rfc3339, over the integers of Int.
-- - Frame: src/process_frame.c with astools_pp_write_frame of src/process_io.c, the frames that carry
--   JSON texts to and from a process.
-- - Tasks: the asynchronous tasks of src/execution_queue.c, as steps like those of Slots.
-- - Regex: std/regex.c, the regular expressions of the standard tools. Regex has re_add and
--   astd_regex_search, Regex/Tree emit_node, Regex/Parser, Regex/Atom and Regex/Grammar the
--   parser and astd_regex_compile. Regex/Runs says where a thread can be, Regex/Language
--   what a tree matches, Regex/Literal how a text is written as a pattern.
-- - Buffer and Text: the growable buffer and the small text functions of src/util.c.
-- - Sha256: src/sha256.c. Sha256/Streaming has the byte by byte reading that the loop implements.
-- - Prelude: the names, tests, lists, errors and characters that all of them share. Examples runs
--   the theorems on concrete inputs.
--
-- A C string is the list of its bytes up to the NUL, and a pointer into it the list from there on.
-- A result code with an output is `Result`, a Boolean one with an output is `Option`. What a
-- function writes into its argument it returns. Machine integers that can wrap are written with
-- their wrap-around; those that cannot are guarded in the source, and the guards are kept.
--
-- Loops that do not run along a list have fuel. The walk of astools_path_canonical has as many
-- rounds as the path has bytes, the loop of a duration as many as the text has bytes, and
-- astools_sha256_update as many as the input has bytes, since each round takes a byte at least.
-- The padding of SHA-256 has 64 rounds, which is a whole block. The doubling of a buffer has 64
-- rounds for 64 bits. The comparison of versions has a round for each byte of the first one's
-- pre-release, the decoder of a URI one for each byte, the scan of an output one for each byte and
-- one more. The parser of JSON has two rounds for each byte, which a value and what stands around it
-- take at least, and its loop over a string one for each byte; an integer is printed with at most 19
-- digits, a length with at most 20. The header of a frame is looked for in 8192 bytes, as in the source.
-- The closure of a regular expression has two rounds for each instruction and two more, since only a
-- state that was not marked pushes, and then two at most. The parser of patterns has five calls for
-- each byte and five more, since each atom takes a byte.
--
-- Parameters stand for what is not in the repository: `realpath` of the C library, the existence
-- test of os_stat, the lookup in an object of the xCDN library, `qsort`, `strtod`, and
-- `snprintf` for a double, which is the number of its 64 bits. The file system does
-- not change during a call.
--
-- Not modelled: the Windows branches, failure of malloc (but for what realpath answers), messages
-- and the log, the wrap of the counter of generations of a regular expression, processes, sandboxes,
-- the loaders of manifests and configuration, the xCDN parser, and the tools themselves.
pub mod Base64
pub mod Buffer
pub mod Callline
pub mod Duration
pub mod Examples
pub mod Frame
pub mod Int
pub mod Json
pub mod Path
pub mod Policy
pub mod Prelude
pub mod Regex
pub mod Selection
pub mod Semver
pub mod Sha256
pub mod Slots
pub mod Tasks
pub mod Text
pub mod Time
pub mod Uri
pub mod Utf8
