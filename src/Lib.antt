-- ===== src/Lib.antt =====
-- go-winio gives Go programs what Windows offers beyond the standard library: extended attributes,
-- backup streams, named pipes, GUIDs, reparse points, event tracing and the image format WIM. This
-- library models the parts of it that compute on data, and the files, pipes and sockets whose
-- goroutines meet:
--
--   Ea       ea.go: extended attributes as FILE_FULL_EA_INFORMATION buffers
--   Guid     pkg/guid/guid.go: GUIDs as arrays and as texts, versions and variants
--   Lzx      wim/lzx/lzx.go: the decompressor of the chunks of a WIM
--   Wim      wim/decompress.go: the table of the chunks of a compressed resource; wim/wim.go: the header
--            of a file, its offset table, and the directories of its images
--   Backup   backup.go: BackupStreamReader and BackupStreamWriter
--   Reparse  reparse.go: symbolic links and mount points as REPARSE_DATA_BUFFER
--   Tar      backuptar/strconv.go, and of backuptar/tar.go a header's basic information and copySparse
--   Etw      pkg/etw/eventdescriptor.go, eventmetadata.go, eventdata.go, the options of
--            fieldopt.go and eventopt.go, and WriteEvent of provider.go
--   WString  internal/stringbuffer/wstring.go: buffers of UTF-16 units
--   File     file.go: overlapped files, their closing, the results of their reads, their deadlines
--   Pipe     pipe.go: message pipes as streams, and the listener with its callers
--   Hvsock   hvsock.go: addresses, reading and writing, dialling, listening and accepting
--   Threads  sums over the goroutines of a state
--   Utf16    the UTF-16 coding of the names in Backup and Reparse
--   Io       what these files call of Go's package io
--   Base     shared names, the outcome of a call, slices, words, and lemmas on lists
--
-- The parts meet in few places. The ends of Pipe and the connections of Hvsock stand on the results
-- of File, and an address of Hvsock holds two GUIDs of Guid. Wim opens a decompressor of Lzx for
-- each chunk, and reads the resources of a file through its own decompressor, which Wim.Resource
-- takes as an argument; what an image needs of it is the record IsSeekable. WriteEvent of Etw runs
-- the options of an event, which write to its metadata and its data. The sparse blocks that Tar
-- copies are read by Backup. The attributes that Ea decodes and the reparse points of Reparse
-- travel in tar headers too, but these loops of backuptar are not modelled; nor are the system
-- calls that fill the buffers of WString.
--
-- A definition has the name of the Go function in this library's spelling, and the comment above it
-- says so where the names differ. A method takes the receiver first and returns its new state last.
-- An error value is `err`, and a run-time panic is `panic`: a slice expression that is out of range,
-- a nil pointer or an index behind an array. The decompressor keeps its error in its state, as the
-- source does, and its methods return as the source's do. Bytes and words are natural numbers with
-- their wrap-around written out; a signed word is its bit pattern. A slice is a list, and the window
-- of the decompressor and the arrays of a tree are functions with their length beside them. A reader
-- is the chunks that its calls of Read return and the error behind them (Io.antt); the readers of
-- Wim and Backup are the bytes that they have left, and how many of them a Read of Backup is served
-- and with which error are its arguments.
--
-- Loops. The decoder of extended attributes goes on for at most one round a byte of its buffer,
-- readTree for one round a code length, and readCompressedBlock for one round a byte of its block;
-- each round uses up at least one. The loop of writeTags has four rounds, for 28 bits in groups of
-- seven, and decodeE8 one round a byte. The loop over the blocks in Read takes its number of rounds
-- as an argument, and no theorem bounds it.
--
-- Goroutines. The life of a file and a listener's are step relations on a state with a program
-- counter for each goroutine, of any number. What is done under `wgLock` is one step, and so are a
-- send on a channel with its reception, and a system call with the kernel's part in it. The kernel
-- may complete any operation at any time, a cancelled one late or never; the liveness theorems give
-- one order of steps in which it does what they need. The loop of Write on a socket has one round a
-- byte, and that of Dial one round a retry. A copy of a backup stream has a round for each byte
-- that is left and one for EOF, and copySparse one for each byte of its input. The loops over a
-- directory and over the offset table of a WIM have one round for each byte that is left and one
-- for the end; an entry takes up more than a hundred bytes.
--
-- Parameters. What the kernel does with a message pipe, a socket and the count of open handles is
-- an argument, with the documented behaviour that a theorem needs as a record of laws. The file
-- times of golang.org/x/sys/windows and the standard library's SHA-1, its parser of XML, its source
-- of random bytes and its UTF-16 decoders are arguments of the definitions that call them; the
-- encoder of UTF-16 is written out.
--
-- Not modelled: the making of pipe handles and the dialling of pipes, the shutdown of a socket,
-- virtual disks, the times of a WIM file and the texts of its errors, the registration of event
-- providers, and the loops of backuptar over the streams of a file; system calls and generated
-- code, which hold no logic of this repository; the tool mkwinsyscall.
pub mod Base
pub mod Io
pub mod Ea
pub mod Guid
pub mod Lzx
pub mod Etw
pub mod WString
pub mod Wim
pub mod Backup
pub mod Utf16
pub mod Reparse
pub mod Threads
pub mod File
pub mod Pipe
pub mod Hvsock
pub mod Tar
