-- ===== src/Lib.antt =====
-- A model of aistream, a cluster for video analysis, and proofs about it. A master keeps the
-- cameras ("objects"), their tasks and the slaves, and hands objects to slaves over HTTP; a slave
-- runs the tasks, each of which is a graph of elements spread over threads that exchange packets.
--
-- Base.antt         numbers, texts, lists and Booleans that all files share
-- Platform.antt     what comes from outside the repository's own code: cJSON, C floats, files, and
--                   the answers of HTTP peers, as fields of a record; CjsonLaws says what is relied on
-- Share.antt        src/share.cpp: the accessors of JSON texts (GetStrValFromJson is
--                   get_str_val_from_json, and so on); a null pointer is none
-- Master.antt       src/master.cpp and include/master.h, in files for the state (State), the requests to
--                   slaves (Http), the slave table (Slaves), the objects (Objects) and the request
--                   handlers (Rest, and Status for those that only read); each C++ function has a
--                   function of its name in small letters.
--                   The other files have proofs
-- Pipeline.antt     src/pipeline.cpp: the algorithms that a slave supports; Pipeline/Threads.antt has
--                   AttachToThread and AssignToThreads
-- Slave.antt        src/obj.cpp and src/task.cpp: objects, tasks and their watch; Slave/Rest.antt has
--                   the request handlers of src/rest_slave.cpp
-- Packets.antt      src/task.cpp: GetInput and the output queues of ThreadFunc; Packets/Threads.antt has
--                   the loop of ThreadFunc for all threads of a task, a turn at a time
-- Clean.antt        src/share.cpp: DelOldFile, which removes old images, on a tree of entries
-- Color.antt        plugins/common/common.cpp: the conversion of a YUV pixel; Color/Image.antt has the loops
--                   over the image
-- Tracker.antt      plugins/tracker/tracker.cpp: which tracks are captured; Tracker/Runs.antt has a stream
-- Rabbitmq.antt     plugins/official/output/rabbitmq.cpp: the connection and the sending of messages
-- Osd.antt          plugins/official/osd/osd.cpp: the bytes that rectangles and names are drawn with
-- Preview.antt      plugins/official/preview/preview.cpp: DelOldTsFile and the queue of packets;
--                   Preview/Objects.antt has the table of streams
-- Httpfile.antt     plugins/official/httpfile/httpfile.cpp: the requests that carry a file
-- Sample.antt       a small platform on which the definitions run
-- Tests.antt        the theorems at concrete inputs
--
-- The master's slaves are shared by pointer; slave_at is the memory that holds them and an address
-- is a number. Its objects are held in one table and point to their slave. The requests that it
-- sends and its database calls are kept in its state in their order, and an answer may depend on
-- all requests before it. A thread is modelled by the rounds of its loop, a request by its handler,
-- and a run is a list of those, each as a whole; Packets/Threads.antt alone looks inside.
--
-- The JSON readers copy a name to 256 bytes; texts are the bytes before the terminator. Integers are
-- read from cJSON and compared, never added, but for counters that count up from 0. The loops over
-- JSON arrays recur on the array's size. AttachToThread has no bound in the source and takes fuel in
-- the model: one unit for each connection that it follows on the way to an element, so a rank that
-- goes down along each connection bounds it.
--
-- The plugins are modelled each on its own, with the packet queues as their common ground. Arrays of
-- pixels are functions, and a pointer into an array is its offset; the loops count down the rounds
-- that C counts up. A call of the AMQP library may fail as a function of all calls before it says.
-- Bytes are numbers; where a theorem needs them below 256 it says so. malloc is a function of all
-- calls before it, and a write through a null pointer or behind a block, or a loop that does not
-- end, is an outcome of its own. A search in a request's body that no zero ends goes on behind the
-- buffer in the program and ends with it here.
--
-- Not modelled: the mutexes of the master; libevent, the database client, the decoding and inference plugins, the tokenizers,
-- ByteTrack and cJSON, which are third-party code or calls of it; the data query of the master;
-- the configuration file; file system calls that fail; the start of a task's elements; the
-- encoder and the fonts of the OSD plugin; ffmpeg's part in the preview; ConvertRGBToYUV420p, whose
-- tables are computed in floating point.
pub mod Base
pub mod Clean
pub mod Color
pub mod Httpfile
pub mod Master
pub mod Osd
pub mod Packets
pub mod Pipeline
pub mod Platform
pub mod Preview
pub mod Rabbitmq
pub mod Sample
pub mod Share
pub mod Slave
pub mod Tests
pub mod Tracker
