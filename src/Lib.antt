-- ===== src/Lib.antt =====
-- ced is a C++ editor in which several sites edit one text together. Its core is a replicated string:
-- every character, attribute and annotation has an ID that its creator's site made, and the sites
-- exchange commands under these IDs. Around it stand persistent maps, an editor with a cursor, a
-- one-line editor, and the themes that color what is shown.
--
-- The parts, their source and their files:
-- - avl.h, AVL<K, V> and AVL<K, void>: Avl. Avl/Tree and Avl/Set have the nodes and the private
--   functions, Avl/Map and Avl/Set/Keys the classes, whose value is a tree with its validity, as the
--   private constructor ensures. Avl/Assoc is the specification, sorted association lists;
--   Avl/Entries, Avl/Balance and Avl/Set/Lift have the proofs. Keys are numbers, as IDs are.
-- - annotated_string.h, union ID and class Site: Ids, with Ids/Fresh. An atomic fetch_add is the
--   site before and after it.
-- - proto/annotation.proto: Proto. Strings are lists of bytes, and enums their numbers.
-- - annotated_string.h and annotated_string.cc, class AnnotatedString: Text has the state and
--   IntegrateInsert, IntegrateInsertChar and IntegrateDelChar; Text/Marks the attributes and
--   annotations; Text/Integrate the dispatch; Text/Iterate the iterators, OrderIDs and Render;
--   Text/Commands the functions that make commands; Text/Messages AsProto and FromProto. Text/Doc and
--   its children say which document a store of linked characters holds (IsStore, IsText) and what
--   the commands do to it, on Links, the lemmas on linked lists; Text/Keep, Text/Bury and Text/Spin
--   have the marks, the deleted IDs and the insertion that does not end; Text/Doc/LineOf,
--   Text/Doc/Order, Text/Doc/Climb and Text/Doc/Ordered are about OrderIDs, Text/Doc/Reload and
--   Text/Doc/Received about FromProto. Text/Scan is the walk with which the collaborators take out a
--   text, Text/Doc/Walk and Text/Doc/Converge are about it.
-- - editor.h and editor.cc, class Editor: Editor has the keys' edits, with Editor/Typing and
--   Editor/Copying; Editor/Session has MakeResponse, PublishCursor and UpdateState, a side buffer
--   being its content, and Editor/View has PrepareRender.
-- - annotated_string.h and annotated_string.cc, class AnnotationEditor: Text/Annotator, with the
--   serialization of a message as a parameter; Text/ValToId, Text/Republish and Text/Forget are
--   about two edits in a row, and Text/Attributes has the walks over attributes and annotations, whose
--   callbacks are given as the list of their arguments.
-- - buffer.h and buffer.cc, class Buffer: Buffer has the critical sections, Buffer/Exclusion and
--   Buffer/Progress the steps of several threads through UpdateState, Buffer/Listeners the calls
--   PushChanges and SinkResponse as they run alone, with the listeners that they tell, Buffer/Loops the
--   rounds of the threads' loops, Buffer/Builder the constructor, and Buffer/Shutdown the destructor.
-- - the collaborators and content_latch.h: Collab, with a file for each: Latch, Regex, Fixit, Format,
--   Files (io_collaborator.cc and referenced_file_collaborator.cc), Godbolt, Libclang, with Unsaved
--   and Cursors, and Terminal; Registry says which of them a buffer gets.
--   RE2, clang-format, libclang, objdump, curses and the file system are parameters.
-- - project.h and project.cc: Project; config.h and config.cc: Project/Config; compilation_database.cc
--   and clang_config.cc: Project/Compile and Project/Clang; server.cc: Project/Server, with
--   Project/Launch and Project/Sandbox; client.cc: Project/Client, with Project/Waiting; the aspects of
--   ced_project.cc, bazel_project.cc and clang_project.cc: Project/Aspects. Paths,
--   YAML, JSON and gRPC are parameters or their messages.
-- - selector.h and selector.cc: Selector, with Selector/Embed.
-- - theme.h and theme.cc, class Theme: Theme, with Theme/Merge, Theme/Cache and Theme/Override, and
--   Theme/Load; plist.h and plist.cc: Theme/Plist, with Theme/Print; terminal_color.cc: Theme/Palette.
-- - asm_parser.h and asm_parser.cc: AsmParser, with RE2, the split and cppfilt as
--   parameters, and AsmParser/Lines.
-- - line_editor.h, class LineEditor: LineEditor, with LineEditor/Cursor.
-- - wrap_syscall.cc, read.cc, run.cc and cppfilt.cc: System/Syscall and System/Run, with System/Pipes and
--   System/Run/Child; fswatch.cc: System/Watch, with System/Watch/Balance; application.cc:
--   System/Modes; temp_file.h: System/TempFile; curses_client.cc: System/Screen. What the system
--   answers to each call is given.
-- Base has the shared helpers, Outcome the results, and Examples the theorems at concrete inputs.
--
-- Results and fuel: a read through a null pointer, a failed assert and an exception are `fault`. A
-- walk over the characters is recursion on fuel, and `out_of_fuel` says that it was not enough. One
-- more than the characters of the document in front of the place, or in the range, is enough for an
-- insertion, a mark and Render; the theorems have that bound as their hypothesis and state `ok`.
-- The outer loop of an insertion has its own count of rounds.
--
-- Not modelled: the widths of int and long where nothing depends on them (heights, rows), pointer
-- identity (SameIdentity, and SameContentIdentity and SameTotalIdentity, which are parameters where
-- they are used), and LookupBelow, which nothing calls and which does not compile for the keys in use;
-- and the log, curses and layout, Buffer's times and the waits for idleness, main, and the loading of
-- libclang, which are glue around gRPC, curses and libclang.
pub mod Base
pub mod System
pub mod Avl
pub mod Ids
pub mod Outcome
pub mod Proto
pub mod Text
pub mod Selector
pub mod LineEditor
pub mod Theme
pub mod Editor
pub mod Buffer
pub mod Collab
pub mod Project
pub mod AsmParser
pub mod Links
pub mod Examples
