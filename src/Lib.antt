-- ===== src/Lib.antt =====
-- NcFTP: the lists, the control connection and the command line of an FTP client
--
-- The program is a library, libncftp, that speaks the File Transfer Protocol, and an
-- interactive client, ncftp, that reads command lines and calls the library. A line of
-- the user is split into arguments (ncftp/shell.c, MakeArgv); the command that it names
-- sends lines over the control connection and reads replies from it (libncftp/rcmd.c,
-- FTPCmd, RCmd), and what a server answers is kept in lists of lines
-- (libncftp/linelist.c). A URL names a user, a host and a file for all of that
-- (libncftp/u_decodeurl.c); the paths in it, and those of the user, are joined to the
-- current directory and compressed (libncftp/u_pathcat.c). Sites that are visited are kept in
-- a file of bookmarks, one line for each (ncftp/bookmark.c), with their passwords in base 64.
--
-- Files:
--   Base          helpers: bytes as native numbers, C strings, lists, integers
--   Links         doubly linked lists on a heap: cells, headers, linking at the end,
--                 unlinking and disposal, for any contents of a node
--   LineList      libncftp/linelist.c, FTPLineList: InitLineList, DisposeLineListContents,
--                 RemoveLine, AddLine and CopyLineList
--   Reply         libncftp/rcmd.c, GetResponse, with FTPShutdownHost of
--                 libncftp/u_shutdownci.c; Reply/Wire is the format of replies
--   Command       libncftp/rcmd.c, FTPSendCommandStr, FTPSendCommand, the life of a
--                 Response, FTPCmd and RCmd
--   Remote        a session with a server that is a state and answers lines, and FTPCmd and RCmd in
--                 it; Remote/Dirs libncftp/c_chdir.c, c_getcwd.c and the loop of c_chdir3.c,
--                 Remote/Files c_type.c, c_size.c, c_modtime.c, c_rename.c and c_umask.c;
--                 Remote/Serving and Remote/Consulting are what a server that always answers
--                 is to them, Remote/Tree one that has a tree of directories
--   Stream        libncftp/rcmd.c, BufferGets, and the loop of FTPListToMemory2
--                 (libncftp/io_listmem.c) that reads a listing with it
--   Facts         libncftp/unls.c, UnMlsT; Facts/Time UnMDTMDate of libncftp/u_unmdtm.c and
--                 GetUTCOffset2 of libncftp/u_getutc.c, Facts/Nodes
--                 PathContainsIntermediateDotDotSubDir of libncftp/rglob.c, Facts/Entries UnMlsD
--   Ls            libncftp/unls.c, LsMonthNameToNum and, in Ls/Dos and Ls/Unix, UnDosLine and
--                 UnLslRLine; the other children are the proofs
--   Shell         ncftp/shell.c, MakeArgv
--   FileInfo      libncftp/linelist.c, FTPFileInfoList: the list operations; FileInfo/Vector its
--                 vector, FileInfo/Order SortFileInfoList, FileInfo/Names ComputeRNames and
--                 ComputeLNames with Dynscat of Strn/Dynscat.c; the other children are the proofs
--   Url           libncftp/u_decodeurl.c, URLCopyToken, and Url/Decode FTPDecodeURL, with
--                 strtokc of Strn/strtokc.c
--   Path          libncftp/u_pathcat.c, CompressPath, and Path/Cat PathCat and DPathCat;
--                 Path/Climbing is the meaning of a path, the other children are the proofs
--   Base64        ncftp/util.c, ToBase64 and FromBase64
--   Bookmark      ncftp/bookmark.c, ParseHostLine, BmEscapeTok and WriteBmLine;
--                 Bookmark/File FGets of libncftp/u_slash.c and OpenBookmarkFile,
--                 Bookmark/Lookup GetBookmark (Bookmark/Best says what a match is), Bookmark/Saving PutBookmark, Bookmark/Table
--                 LoadBookmarkTable and SaveBookmarkTable, Bookmark/ToUrl BookmarkToURL,
--                 Bookmark/Naming DefaultBookmarkName
--
-- A byte is a native number and a string the list of its bytes before the NUL. A heap is a
-- function from pointers to cells that may be missing; reading or writing a missing cell
-- ends the run in an error, so a theorem that gives a result also says that no pointer was
-- stale. Malloc is a parameter that may refuse. SReadline, which is part of the sio library,
-- is a parameter: its results, one per call, are the input of GetResponse, each with whether
-- AddLine will have memory for the line; a result fits the 512 bytes of the function's array
-- with its NUL. SWrite is a parameter too: it writes a line whole, in part or not at all. The
-- time-outs of the control connection are a function from the number of the attempt.
--
-- The loops of the source are structural recursion on the input or on the list of cells, and
-- where the code walks through a heap the walk has fuel: the count of nodes of the list,
-- which the theorems show is enough. CompressPath's loops have one round for each character
-- of the path and one more; a run that is out of rounds is the outcome `endless`, and the
-- theorems show when that comes about. The lines of a file have a round for each byte.
--
-- A server, in Remote, is a state and a function that answers each line it is sent; time-outs and
-- failing writes are in the model, and the theorems are about servers that always answer.
--
-- The scan of a URL's escapes and that of the size in a listing (sscanf with %lld, which reads
-- digits whose number is below 2 ^ 63), strcoll, qsort, mktime and gmtime are parameters, and read() is
-- the list of what it returns, one element per call; the other formats of numbers are written
-- out in Base/Formats. Of the qsort that sorts bookmarks it is supposed that the result is a
-- permutation in the order of the comparison (Bookmark/Sorting); Bookmark/Insertion is one. Not modelled: sockets and the opening of data connections, FTPMkdir with the
-- full-path mode of FTPChdir3, the deletion of files, the loop of UnLslR over the lines of a
-- listing, failing writes of the bookmark file, the terminal, the printing of messages (a note
-- of the model records that one was written), and the batch daemon.
pub mod Base
pub mod Base64
pub mod Bookmark
pub mod Command
pub mod Facts
pub mod FileInfo
pub mod LineList
pub mod Links
pub mod Ls
pub mod Path
pub mod Remote
pub mod Reply
pub mod Shell
pub mod Stream
pub mod Url
