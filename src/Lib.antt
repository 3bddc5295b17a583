-- ===== src/Lib.antt =====
-- A network disk: users register over short TCP connections and upload files in parts over RPC;
-- the server keeps one copy of each file, under its MD5 sign, and a link to it for each user.
--
-- The program and the files here:
--
-- * code/src/file_sys.cpp (class FileSys): FileSys. The methods mkdir, exist_dir, exist_file,
--   ls_dir, write, delete_file and link are those of the class. FileSys/Writing and FileSys/Rounds
--   are about the loop of Write.
-- * code/src/public.cpp (ShellOut, Md5Sum) and code/include/public.h (MSG_TYPE): Shell.
--   Shell/Output is about what the fixed buffer does to the output of a command.
-- * code/src/mmsql.cpp (class Mmysql): Mysql.
-- * code/src/long_connect/upload_rpc.cpp (class UploadRpc): Upload, with `do_upload` for Do.
--   The long body of Do is cut at its early returns: after_mkdir, speed_upload, admit_part,
--   store_part, rewrite_part, write_part, verify_part, check_arrival and publish follow one
--   another as the statements do. count_sign is the second half of linkToUsr. Upload/Messages
--   has the messages of code/proto/NetDisk.proto and the storage's flags. Upload/Race cuts
--   linkToUsr at its system calls, for two handlers at a time, Upload/Publish the end of Do,
--   from the test of the parts on, and Upload/Handler the whole of Do. There each open, write and
--   close of a part is a step; the three calls that make the temporary directories are one step,
--   and so are the calls of a listing and those of a command. Upload/Handler/Overtaken is about
--   two requests at a time for the last two parts of a file. Upload/Store has the parts that a
--   machine keeps of one file as the abstract state of an upload, and what is asked of the calls
--   that change it; Upload/Store/Repeat and Upload/Store/Replace are about a part that is there
--   already, Upload/Store/Refuse is about a new part with a wrong sign.
-- * code/src/long_connect/long_connection.cpp (class NetDiskServiceImpl): Service, with `send`.
--   Service/Uploads and Service/Again are about the requests for all parts of a file,
--   Service/Users about two users who send one file, Service/Refused about a file of which a part
--   was sent with a wrong sign.
-- * code/src/short_connect/short_connection.cpp (class ShortConnectionServer): Acceptor. The main
--   thread accepts a client and writes its descriptor into the pipe of a worker. Acceptor/Reach
--   has the states that this and the reads of the workers lead to; Transit, Fifo and Drain are
--   about them.
-- * code/src/short_connect/mpthread.cpp (class Mpthread): Worker, and read_pipe of Acceptor.
-- * Startup has what comes before the event loops: ShortConnectionServer::Run, the constructor of
--   Mpthread and LongConnectionServer::Run of the same files, over the record `Sockets`.
--   Startup/Entry is code/cmd/serverMain.cpp and code/include/logger.h: both servers in one
--   process.
-- * code/src/short_connect/control.cpp (class Control): Control. code/src/short_connect/view.cpp
--   and register_view.cpp (classes View and RegisterView): Register. Register/Race cuts a
--   registration at its system calls, for two workers at a time.
-- * code/src/long_connect/brpc_client.cpp (class BrpcClient): Client/Upload. Client/Upload/Files
--   is about a request from `DoRequest` on.
-- * code/cmd/clientMain.cpp (the menu): Client/Menu, with `main` in Client/Menu/Loop.
--   Client/Menu/Registration is about a registration from the client's request to the server's
--   answer, Client/Menu/Reports about the answers that the client gives its user.
-- * code/include/gflag_def.h (the flags): Flags, with the storage's flags in Upload/Messages and
--   the server's in Startup/Entry. The flags of the database, of the channel and of the long
--   server's idle time are fields of the machine, since the command line sets them before anything
--   else runs.
-- * Base has the names that all modules share, Tests the runs and the theorems at concrete data.
--
-- State and errors. A method of the program is a function from the state of the machine to `none`
-- or to its result and the new state. `none` is undefined behaviour, an exception that nobody
-- catches, or the end of the process. The machine is a parameter, the record `Host`: POSIX calls,
-- the MySQL client library, and what memory holds before it is written. A read past the end of a
-- buffer is `none`: of the array of `ShellOut`, the 512 bytes of `recvClientMsg`, or the two-byte
-- block of the client. What the unset array of `ShellOut` holds is left open, but where a theorem
-- asks for a NUL at its end (`Acts` in Upload/Store); whether it begins with one decides the answer
-- after a silent `mv`, and a theorem that depends on it says so (`Leftover`, `StartsEmpty` there).
-- `FileSys::Write` cuts the length to 32 bits; a negative one sends nothing, since the call refuses
-- such a count. `Json` is the JSON library, `Station` and `Terminal` what the client calls besides.
-- What a theorem needs of them is a record of hypotheses beside it, such as `IsAppending` or
-- `KeepsSigns`, and Tests has machines that meet them. Strings are lists of bytes, with `c_str`
-- wherever the program hands a string to a C function; return codes are integers.
--
-- Threads. Two threads that share the machine are two step functions and a schedule, a list that
-- says whose turn it is (Base/Interleave); a step lies between two points where the code can be
-- left. In Upload a handler runs alone, and the mutex of UploadRpc has no part in it: in
-- Upload/Race, Upload/Publish and Upload/Handler what it covers is one step. The SELECT and the
-- reading of its row, which it does not cover, are two steps of `link_step`. The handlers share one
-- connection, and what a query between the two does to it is not documented, so `link_turn` takes
-- both as one turn, and Upload/Race/Counts is about the schedules of such turns. In Service/Users a
-- step is a whole request.
--
-- Fuel. The loop of Write has as many rounds as the string has bytes, and each round takes 4096
-- off them. The loop of ShellOut has one round more than the output has bytes. `to_string n` has n
-- + 1 rounds, each of which divides by ten. In each case the theorems of the loop, or of the
-- digits, show that the fuel is enough. The endless loop of the client is `main_rounds`, which
-- runs as many rounds of it as it is given.
--
-- Not modelled: the log statements; the event loops, which only call libraries; the MD5 class
-- of code/src/md5.cpp, which is another project's; the code that protoc generates; the demos,
-- which are trials of single library calls and of brpc's own example. The results of the
-- server's calls of `send`, `write` and `close` are dropped as in the program.
pub mod Base
pub mod Host
pub mod FileSys
pub mod Flags
pub mod Shell
pub mod Mysql
pub mod Upload
pub mod Service
pub mod Json
pub mod Register
pub mod Control
pub mod Worker
pub mod Startup
pub mod Acceptor
pub mod Client
mod Tests
