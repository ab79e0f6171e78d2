-- ===== src/Lib.antt =====
-- The C++ library otl: helpers for programs that decode video, detect objects in it, attach the
-- results to the stream and push it on. A `StreamDemuxer` reads a stream in a thread of its own and
-- calls a `StreamDecoder`, which hands out pictures with their packets and the SEI messages. A
-- decoder thread puts work into a `BlockingQueue`, the threads of a `WorkerPool` take it out in
-- batches (an `InferencePipe` is three such pools in a row), a `Detection` is written into a
-- `ByteBuffer`, its bytes travel as SEI messages inside the video stream (as text they are coded in
-- base64), a `StreamEncoder` makes packets of pictures, a `TimestampSmoother` repairs their stamps,
-- and the stream pusher, `FfmpegOutputer`, sends them from its `internal::BlockingQueue`. Timers run
-- on a `TimerQueue`. The logger writes from a thread of its own, and telnet clients set it.
--
-- Which file models what, with the names of the source in snake_case:
--   Common        tests, lists over the native numbers, slices of lists, signed integers
--   Buffer        otl_baseclass.h and otl_baseclass.cpp, ByteBuffer: the record has its block and three
--                 offsets, an operation takes the buffer and returns it; Buffer/Words and Buffer/Typed
--                 are the byte order and the overloads of push_back, pop and pop_front
--   Detection     otl_baseclass.h, Detection: toByteBuffer and fromByteBuffer
--   Sei           stream_sei.cpp: sizes, writers and readers for H.264 and H.265, for start codes
--                 (Annex B) and length prefixes (AVCC)
--   ThreadQueue   otl_thread_queue.h, BlockingQueue: push, pop_front, drop and stop, a handler for each
--                 stretch under the mutex, a wait ending the stretch; ThreadQueue/Threads lets any
--                 number of threads take turns, ThreadQueue/Worker is the loop of a WorkerPool thread,
--                 ThreadQueue/Deadline the time until which a pop waits
--   InternalQueue otl_thread_queue.h, internal::BlockingQueue; InternalQueue/History runs its calls
--   Timer         otl_timer.cpp, TimerQueueImpl: createTimer, deleteTimer and a round of runLoop;
--                 Timer/Steps lets its threads take turns
--   Smoother      timestamp_smoother.h, TimestampSmoother
--   Base64        otl_string.cpp, base64Enc and base64Dec
--   Strings       otl_string.cpp, splitString, startWith, the parts of a path, replaceHomeDirectory
--   Log           otl_log.cpp and otl_log.h: LogPrintf, the queue, the worker and the settings; Log/Level
--                 the names of the levels, Log/Delivery the threads that log while the worker writes,
--                 Log/Lines and Log/Command a telnet client's lines and commands, Log/Args the options
--                 of the command line
--   Demuxer       stream_demuxer.cpp, StreamDemuxer: doInitialize, doService, doDown, openStream and
--                 closeStream; Demuxer/Trace lets the reading thread and others take turns
--   Decoder       stream_decode.cpp, StreamDecoder: the callbacks of the demuxer, the packet list,
--                 isKeyFrame; Decoder/Opening the choice of the stream
--   Encoder       stream_encoder.cpp, FfmpegStreamEncoder: resolveCodec, init and both functions encode;
--                 Encoder/History runs their calls
--   HwDecoder     stream_decode_hw.cpp: isKeyFrame, decodeFrame and get_hw_format of the decoder for
--                 devices
--   StatTool      otl_timer.cpp, StatToolImpl; StatTool/Speed compares its ring with a list
--   Outputer      stream_pusher.h, FfmpegOutputer, over the models InternalQueue and Smoother;
--                 Outputer/Trace lets the output thread and others take turns
--   Pipeline      otl_pipeline.h, InferencePipe, with WorkerPool of otl_thread_queue.h, over the model
--                 ThreadQueue: one step for each pop and each push of a thread, in any order;
--                 Pipeline/Settles is what the threads come to by themselves
-- Files named Tests evaluate the definitions and apply the theorems at concrete inputs.
--
-- What FFmpeg answers is an argument of the steps (`Answers`, `Sent`, `Received`, `Setup`,
-- `Library`), and so are what the detector does (`Delegate`) and whether a wait is over. A case of
-- the demuxer's or the pusher's thread is one step: what another thread writes in the middle of a
-- case is taken to come before it or behind it. The timer's test of `isValid` and the callback behind it
-- are two steps.
--
-- Memory is a parameter (`Heap`: what malloc gives out), as is the weighted mean that the smoother
-- computes in double (`Blend`). Machine integers wrap where the source's do, written `% 2 ^ w`; the
-- sums of stamps in the smoother, the identifiers of timers and the sizes of containers are taken
-- to stay in range. A read outside a packet or a text is a fault of the model (`fault` in Sei, `none`
-- in Base64 and Decoder), not a value. A ByteBuffer whose offsets are in order reads inside its block;
-- on one whose `size()` has become negative `pop_front` would read behind the block, and the model then
-- gives the bytes that are there.
--
-- Fuel: the doubling loop of check_buffer gets 65 rounds, since a capacity that starts above 0
-- passes 2^64 before; the loop over length prefixes gets the packet's length and two, since a round
-- passes at least the four bytes of a prefix; base64Dec gets the text's length and one, since a
-- round takes at least a character; a worker's loop on a stopped queue gets the number of elements
-- and one, since a round takes an element or ends the loop. splitString gets the length of the text
-- and of the pattern and one, since a round passes at least a character; the loop that empties the
-- pusher's queue gets the number of packets; isKeyFrame of the hardware decoder gets the packet's
-- length and one, since a round passes at least a start code or a length. The other loops are
-- recursions on their data.
--
-- Not modelled: the sockets, files and formatting of the logger and the wording of its answers; the
-- stopwatch and formatString; the statistics of the pipeline; the rest of
-- the hardware decoder, which is stream_decode.cpp again and calls of FFmpeg for devices and
-- filters; getFps of the encoder; packets whose `data` is a null pointer, which the
-- decoder and the readers of SEI refuse; stamps in the demuxer, and counters that could overflow in the
-- decoder;
-- optimized_timer.cpp, which has the class of otl_timer.cpp again; the creation and joining of
-- threads apart from where a close waits for one; and warnings and log lines everywhere.
pub mod Common
pub mod Buffer
pub mod Detection
pub mod Sei
pub mod ThreadQueue
pub mod InternalQueue
pub mod Timer
pub mod Smoother
pub mod Base64
pub mod Strings
pub mod Log
pub mod Demuxer
pub mod Decoder
pub mod Encoder
pub mod HwDecoder
pub mod Outputer
pub mod Pipeline
pub mod StatTool
