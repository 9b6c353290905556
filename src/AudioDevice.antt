-- ===== src/AudioDevice.antt =====
-- The globals of AudioCapture.h that hold the audio device, `InitAudioCapture`, `StartAudioCapture`,
-- `StopAudioCapture` and `CleanupAudioCapture`. A pointer is a Boolean, true if it is not null. Of a
-- log line only an exception is modelled.
pub mod Accounts
pub mod Reads
pub mod Worker
mod Tests
use mi_ster_cast.Prelude.{
  bit, ℕ, ◌+◌, ◌-◌, ◌*◌, Bool, true, false, not, ◌&&◌, ◌||◌, Option, none, some, ◌==◌, leb,
  if◌then◌else◌,
}
use mi_ster_cast.Prelude.Steps.{◌then_run◌, use_of, attempt}
use mi_ster_cast.AudioCapture.{Tick}

-- `WAVEFORMATEX`; `is_float_subtype` is the test of the `SubFormat` of an extensible format.
pub record Format : Type 0 where
  pub tag : ℕ
  pub rate : ℕ
  pub channels : ℕ
  pub bits : ℕ
  pub block_align : ℕ
  pub extra_bytes : ℕ
  pub is_float_subtype : Bool

-- The block of a format, if there is one.
abbrev pub blocks : Option Format → ℕ
blocks none = 0
blocks (some f) = 1

-- The globals, and what the system keeps for them: `refs` is the number of references to COM objects
-- that the code has been given and has not released, `allocated` that of the blocks of
-- `CoTaskMemAlloc`, `joined` that of the calls of `CoInitialize` of a thread without their
-- `CoUninitialize`, and `running` tells whether the client captures.
pub record Client : Type 0 where
  pub enumerator : Bool
  pub device : Bool
  pub client : Bool
  pub capture_client : Bool
  pub format : Option Format
  pub format_usable : Bool
  pub sample_rate : ℕ
  pub com_thread : ℕ
  pub buffer : Bool
  pub refs : ℕ
  pub allocated : ℕ
  pub joined : ℕ → ℕ
  pub running : Bool

abbrev pub ClientOp : Type 0
ClientOp = Client → Option (Bool × Client)

-- What the system answers to `InitAudioCapture`, call by call; `id`, `properties` and `name`, the
-- string of the friendly name, are those of `LogAudioEndpoint`. The log lines of the endpoint and of
-- the format may throw. Any other log line is at the end of a failed call, or followed by a call that
-- may fail: its exception leaves the globals as that call's failure does.
pub record InitAnswers : Type 0 where
  pub join : Bool
  pub enumerator : Bool
  pub endpoint : Bool
  pub id : Bool
  pub properties : Bool
  pub name : Bool
  pub endpoint_log_throws : Bool
  pub activate : Bool
  pub format : Option Format
  pub format_log_throws : Bool
  pub initialize : Bool
  pub buffer_size : Bool
  pub service : Bool

-- `floatFormat`, with `WAVE_FORMAT_IEEE_FLOAT` and `WAVE_FORMAT_EXTENSIBLE`
abbrev pub is_float : Format → Bool
is_float f = if f.tag == 65534 && leb 22 f.extra_bytes then f.is_float_subtype else f.tag == 3

-- The format that the timeline can read.
abbrev pub is_usable : Format → Bool
is_usable f = is_float f && f.bits == 32 && leb 1 f.channels && f.block_align == f.channels * 4

-- A change of the counts of a thread.
abbrev pub at_thread : ℕ → (ℕ → ℕ) → (ℕ → ℕ) → ℕ → ℕ
at_thread thread change joined t = if t == thread then change (joined t) else joined t

-- The result of a call that was made.
abbrev pub answer : Bool → Client → Option (Bool × Client)
answer ok c = some (ok, c)

-- `CoInitialize`
pub join_com : ℕ → Bool → ClientOp
join_com thread ok c =
    if ok
    then some
        (true, record c { joined = at_thread thread (λ n. n + 1) c.joined; com_thread = thread })
    else some (false, c)

-- The blocks that `LogAudioEndpoint` is given: the id, and the name of the property store.
abbrev pub endpoint_blocks : InitAnswers → ℕ
endpoint_blocks a = bit a.id + bit (a.properties && a.name)

-- `LogAudioEndpoint`: the name, the id and the property store are released again, unless the log
-- line throws.
pub log_audio_endpoint : InitAnswers → ClientOp
log_audio_endpoint a =
    use_of (λ c. c.device)
    then_run (λ c. answer true (record c {
      allocated = c.allocated + endpoint_blocks a;
      refs = c.refs + bit a.properties;
    }))
    then_run answer (not a.endpoint_log_throws)
    then_run (λ c. answer true (record c {
      allocated = c.allocated - endpoint_blocks a;
      refs = c.refs - bit a.properties;
    }))

-- `GetMixFormat` and what the code reads of the format; the format is tested after its log line.
pub take_format : Bool → Option Format → ClientOp
take_format log_throws none c = some (false, record c { format = none })
take_format true (some f) c =
    some (false, record c { format = some f; allocated = c.allocated + 1; sample_rate = f.rate })
take_format false (some f) c = some (
  true,
  record c {
    format = some f;
    allocated = c.allocated + 1;
    sample_rate = f.rate;
    format_usable = is_usable f;
  },
)

-- `InitAudioCapture`. A call that fails nulls the pointer it was to fill.
pub init_audio_capture : ℕ → InitAnswers → ClientOp
unfolding join_com log_audio_endpoint take_format
init_audio_capture thread a =
    join_com thread a.join
    then_run (λ c.
        answer a.enumerator
          (record c { enumerator = a.enumerator; refs = c.refs + bit a.enumerator }))
    then_run use_of (λ c. c.enumerator)
    then_run (λ c.
        answer a.endpoint (record c { device = a.endpoint; refs = c.refs + bit a.endpoint }))
    then_run log_audio_endpoint a
    then_run use_of (λ c. c.device)
    then_run (λ c.
        answer a.activate (record c { client = a.activate; refs = c.refs + bit a.activate }))
    then_run use_of (λ c. c.client)
    then_run take_format a.format_log_throws a.format
    then_run attempt a.initialize (λ c. c)
    then_run attempt a.buffer_size (λ c. c)
    then_run (λ c.
        answer a.service (record c { capture_client = a.service; refs = c.refs + bit a.service }))

-- What the client answers to `Reset` and `Start`.
pub record ClientAnswers : Type 0 where
  pub reset : Bool
  pub start : Bool

-- `StartAudioCapture` on the device.
pub start_audio_capture : ClientAnswers → ClientOp
start_audio_capture a c =
    if c.client && c.format_usable
    then (attempt a.reset (λ c. c) then_run attempt a.start (λ c. record c { running = true })) c
    else some (false, c)

-- `StopAudioCapture`
pub stop_audio_capture : Bool → ClientOp
stop_audio_capture ok =
    use_of (λ c. c.client) then_run attempt ok (λ c. record c { running = false })

-- What a tick finds of the device. Without a capture client it uses a null pointer.
pub with_client : {D : Type 0} → Client → Tick D → Option (Tick D)
with_client c k =
    if c.capture_client
    then some (record k {
      has_buffer = c.buffer;
      format_usable = c.format_usable;
      sample_rate = c.sample_rate;
      channels = elim c.format [ none ↦ 2 | some f ↦ f.channels ];
    })
    else none

-- `CleanupAudioCapture`; a client that is released does not run any more.
pub cleanup_audio_capture : ℕ → Client → Client
cleanup_audio_capture thread c = record c {
  format = none;
  allocated = c.allocated - blocks c.format;
  capture_client = false;
  client = false;
  enumerator = false;
  device = false;
  refs = c.refs - (bit c.capture_client + bit c.client + bit c.enumerator + bit c.device);
  running = if c.client then false else c.running;
  buffer = false;
  format_usable = false;
  joined = if c.com_thread == thread then at_thread thread (λ n. n - 1) c.joined else c.joined;
  com_thread = 0;
}
