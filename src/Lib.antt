-- ===== src/Lib.antt =====
-- Docs++, a distributed file system: one Name Server, Storage Servers and clients.
--
-- A client registers with the Name Server and sends it commands, one line each. The Name Server
-- keeps the metadata: files with their owners and access lists, users, and Storage Servers. It
-- answers some commands itself, sends others on to the Storage Server that holds the file, and
-- redirects reads, writes and streams, which the client then makes at the Storage Server. A Storage
-- Server edits files by sentences and words and keeps one backup for each file.
--
-- Which module models what (paths from the root of the repository):
--
--   Base       what the code uses of C: how a run ends (a value, undefined behaviour, or waiting for
--              ever), strings with the sizes of their buffers, strtok, atoi, strstr; and lemmas.
--   Table      src/name_server/hash_table.h. `HashTable` is a function from indices to chains.
--   Cache      src/name_server/CRWD.c: the LRU cache. Nodes stand in a heap by address, so that every
--              assignment to a pointer of detach_node, attach_node, lru_get and lru_put is one step.
--     Ideal      the specification: a list of names and files in order of use
--     Order, Detach, Attach, Keys, Shape, Uses, Recall, Refine
--                when linked nodes stand for such a list, and how the operations keep that
--   Server     src/name_server/types.h: the structs, and the state of the Name Server, `NameServer`. A
--              `FileMetadata *` is an address in `files`; a freed struct is absent there.
--     Find       find_file, check_permission, find_user
--     Reply      src/error_codes.h and the texts of replies
--     Exchange   connect_and_send_to_ss
--     Save, Restore   save_metadata, load_metadata
--     Access, Folder, Create, Redirect, Delete, Version, Meta, Script, Requests, Annotate
--                the handlers of src/name_server/CRWD.c
--     Listing    handle_info, and handle_list_users and handle_view of src/name_server/name_server.c
--     Register   register_user, register_storage_server
--     Sound      when the list of files, the table and the cache agree and nothing dangles; one module
--                for each kind of handler
--     Example    a server for the examples
--   Session    handle_connection of src/name_server/name_server.c: what a connection's first line and
--              its later lines do
--     Keeps, Reach   the states that a Name Server can reach
--   Log        src/logger.h: the line that log_message prints
--   Client     src/client/user_client.c: what a line that the user types becomes
--     Main       the start of main and the rounds of its loop
--     Reply      handle_ns_command
--     Direct     src/client/client_SS_helper_functions.c
--     Verbs, Commands, Follow, Whole, Marker
--                lemmas on what passes between the client and the servers
--   Storage    src/storage_server/storage_server.c
--     Fs         the calls of the file system, on paths
--     Sentence   get_safe_path, get_nth_sentence, and how commit_changes rewrites a sentence
--     Commit     commit_changes, ensure_directory_exists, copy_file
--     Serve      handle_ss_connection, one function for each command
--       Race       two threads between whose calls of strtok the position is shared
--     Register   register_with_name_server
--   System     the client, the Name Server and a Storage Server together: registering, reading,
--              deleting, checkpoints and reverts
--
-- A handler is a function from the state to a run: its reply and the new state, a fault (a NULL, wild
-- or freed pointer is followed, or a buffer is overrun), or blocked in recv. Critical sections are
-- atomic; where a handler releases data_mutex and takes it again, what other threads do in between is
-- the parameter `others` of `World`. The other parameters of `World` are the time, what malloc finds
-- in new memory, whether malloc succeeds where the code asks, the peers at the other end of
-- connections, and the shell.
--
-- Fuel: the loops over tokens and lines run on the length of their text, and each round takes a byte
-- at least, so that the fuel does not run out before the text. The other loops follow their lists.
--
-- Not modelled: sockets, threads and the loops that accept connections (what the calls return is a
-- parameter); the calls of the logger, which change no state; malloc's failure where the code does not
-- ask; that the threads of a server share the position of strtok, but in Storage/Serve/Race: everywhere
-- else the tokens of a command are taken without another thread in between. A path is not resolved:
-- `.`, `..` and links in the file system are plain names. Strings and the contents of files have no NUL,
-- and an annotation that malloc left uninitialised is some string. Only what one recv takes of a
-- message is looked at: 1023 bytes at the Name Server.
mod Base
pub mod Table
pub mod Cache
pub mod Server
pub mod Session
pub mod Log
pub mod Client
pub mod Storage
pub mod System
