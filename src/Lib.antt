-- ===== src/Lib.antt =====
-- Verification of MiSTerCast, which captures a Windows desktop or window and streams it to a
-- MiSTer over UDP.
--
-- The library under Library/MiSTerCastLib has an exported interface (MiSTerCastLib.cpp,
-- MiSTerCastLib.h), a capture worker (VideoCapture.h, AudioCapture.h), and a stream worker that
-- packs and sends the frames (renderer_nogpu.h) with the Groovy client. The interface's calls
-- set the options and the modeline and start the workers; the capture worker scales a crop of
-- the screen into one of three buffers, and the stream worker packs the published one.
--
-- Modeline: the modelines and ValidateModelineFor of renderer_nogpu.h.
--   Modeline/Classify: what each verdict of the validation means.
-- Frame: nogpu_pack_frame of renderer_nogpu.h, on the client's frame buffer as a map of addresses.
--   Frame/Rows: the loops over one row; Frame/Pack: a whole frame; Frame/Fields: the two fields.
-- Crop: the crop rectangle of TickVideoCapture, VideoCapture.h; Crop/Inside: where it lies.
-- Buffers: the triple buffer of VideoCapture.h, as steps of the two threads.
--   Buffers/Calm, Buffers/Race: which interleavings keep them apart.
-- AudioPackets: RecordAudioPacket of AudioCapture.h; AudioPackets/Counts: what its counters say.
-- AudioTimeline: reset, push, advance and rebaseToNow of AudioTimeline in AudioTimeline.h.
--   AudioTimeline/View: the timeline as a map of samples; Reset, Store, Push, Drops, Release, Advance:
--   its operations; Reads: the floats that push reads; Telemetry: its counters.
--   Render: render; Heard, Played: what it plays; Bounds: what holds in every state.
-- ReceiverClock: ReceiverAudioClock of AudioTimeline.h; ReceiverClock/Due: what it asks for.
-- AudioCapture: TickAudioCapture and StartAudioCapture of AudioCapture.h, over these three.
--   AudioCapture/Demand, Bounds: what a tick asks for and hands over; Discards: what becomes of a
--   packet's frames; Kept: the timeline up to the render; Report: ReportAudioCapture;
--   Report/Blind, Runs: what it leaves.
-- AudioDevice: InitAudioCapture, StartAudioCapture, StopAudioCapture, CleanupAudioCapture of
--   AudioCapture.h on the device; AudioDevice/Accounts: what they hold; Reads: the bytes of a packet.
--   AudioDevice/Worker: what the stream worker does with it; Serves, Losses, Returns: that this is
--   in order.
-- VideoCapture: InitializeVideoCapture, CleanupVideoCapture and TickVideoCapture of VideoCapture.h.
--   Device, Start: the pointers and references; Picture: the copy into the bitmaps;
--   Grab: the texture of a new frame; Tick: a whole tick.
--   Device/Accounts, Start/Accounts, Picture/Rows, Picture/Publish, Tick/Keeps, Source, Shows: what
--   they keep; Drawing, Drawing/Lands: where the crop is drawn;
--   Tick/Runs, Restarts, Delivers, Recovers, Stalls: the worker's loop;
--   Wake, Wake/Kept: its wait for a frame.
-- Pipeline/Wire: a tick of the capture worker and a blit of the stream worker together.
-- FrameTimes: nogpu_register_frametime of renderer_nogpu.h.
--   FrameTimes/Window, Ring: its ring against the history of the times.
-- Renderer: the state of renderer_nogpu; Renderer/Switching: nogpu_init, nogpu_switch_video_mode;
--   Renderer/Draw: draw.
--   Renderer/Invariant, Preserve: what a draw keeps; Sends, Switch, Frames: what it sends.
-- CastWorker: cast_screen of MiSTerCastLib.cpp, as the sequence of its calls.
--   CastWorker/Protocol: what the audio device allows.
-- Session: the state behind the exports of MiSTerCastLib.cpp; Session/Globals: its first values and
--   the workers; Session/Calls: the exports as functions.
--   Session/Invariant, Preserve, Runs: what every call keeps; Stream, Crash, Ticks: single calls.
-- Prelude: shared types, words of C++, doubles as far as they are compared, bits, lists and faults.
--
-- Machine words are natural numbers with the wrap-around written out (Prelude/Words), size_t has
-- 64 bits. A fault of the memory, a call through a null pointer or a call of std::terminate is
-- the `none` of an Option. Every loop is structural recursion on its count, so there is no fuel.
--
-- The doubles of the audio are not computed: what they decide is an argument of the timeline's
-- operations, and the receiver's clock has their operations as an interface.
--
-- Not modelled: the vendored Groovy client with its codec (groovymister, nlc_codec, rio.h) and
-- LZ4, of which the size of the frame buffer is used and whose answers are arguments of a draw;
-- what Direct3D and WASAPI do behind their answers; the text of the log lines, and crash dumps;
-- the front end in C#.
pub mod Prelude
pub mod Modeline
pub mod Frame
pub mod Crop
pub mod Buffers
pub mod FrameTimes
pub mod Renderer
pub mod AudioPackets
pub mod AudioTimeline
pub mod ReceiverClock
pub mod AudioCapture
pub mod CastWorker
pub mod AudioDevice
pub mod VideoCapture
pub mod Session
pub mod Pipeline
