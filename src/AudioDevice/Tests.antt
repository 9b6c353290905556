-- ===== src/AudioDevice/Tests.antt =====
-- A worker whose second draw throws, on a device with a usable format.
use mi_ster_cast.Prelude.{
  ℕ, ◌≡◌, refl, true, false, none, some, [], ◌∷◌, arith, ltb, ◌==◌, if◌then◌else◌,
}
use mi_ster_cast.Prelude.Int.{ℤ, pos}
use mi_ster_cast.CastWorker.{Outcome, Worker, cast_screen}
use mi_ster_cast.AudioDevice.{
  Format, Client, InitAnswers, join_com, log_audio_endpoint, take_format, init_audio_capture,
  is_usable, with_client,
}
use mi_ster_cast.AudioCapture.{Tick, take_packet}
use mi_ster_cast.AudioCapture.Samples.{running, packet, round}
use mi_ster_cast.AudioDevice.Reads.{init-reads_within}
use mi_ster_cast.AudioDevice.Accounts.{Before, lose, Returned}
use mi_ster_cast.AudioDevice.Worker.{Answers, perform_all}
use mi_ster_cast.AudioDevice.Worker.Returns.{IsAllReturned, cast_screen-IsAllReturned}

abbrev stereo : Format
stereo = record {
  tag = 65534;
  rate = 48000;
  channels = 2;
  bits = 32;
  block_align = 8;
  extra_bytes = 22;
  is_float_subtype = true;
}

abbrev answers : InitAnswers
answers = record {
  join = true;
  enumerator = true;
  endpoint = true;
  id = true;
  properties = true;
  name = true;
  endpoint_log_throws = false;
  activate = true;
  format = some stereo;
  format_log_throws = false;
  initialize = true;
  buffer_size = true;
  service = true;
}

abbrev worker_answers : Answers
worker_answers = record {
  thread = 7;
  init = answers;
  start = record { reset = true; start = true };
  stop = true;
  registers = λ left. true;
  ticks = λ left. true;
}

abbrev none_before : Before
none_before = record { refs = 0; allocated = 0; joined = λ t. 0 }

abbrev closed_client : Client
closed_client = record {
  enumerator = false;
  device = false;
  client = false;
  capture_client = false;
  format = none;
  format_usable = false;
  sample_rate = 0;
  com_thread = 0;
  buffer = false;
  refs = 0;
  allocated = 0;
  joined = λ t. 0;
  running = false;
}

abbrev closed_client-Returned : Returned none_before closed_client
closed_client-Returned = record {
  enumerator = refl;
  device = refl;
  client = refl;
  capture_client = refl;
  format = refl;
  running = refl;
  refs = refl;
  allocated = refl;
  com_thread = refl;
  joined = λ t. refl;
}

abbrev worker : Worker
worker = record {
  source_audio = true;
  stopped_before_audio = false;
  stopped_before_renderer = false;
  init_outcome = Outcome.answered true;
  start_outcome = Outcome.answered true;
  renderer_throws = false;
  draws = false ∷ true ∷ [];
}

-- Its initialization throws.
abbrev thrown : Worker
thrown = record worker { init_outcome = Outcome.threw; start_outcome = Outcome.answered false }

-- The globals with a registered buffer.
abbrev registered : Client
registered = record closed_client { buffer = true }

abbrev open_client : Client
open_client = record registered {
  enumerator = true;
  device = true;
  client = true;
  capture_client = true;
  format = some stereo;
  format_usable = true;
  sample_rate = 48000;
  com_thread = 7;
  refs = 4;
  allocated = 1;
  joined = λ t. if t == 7 then 1 else 0;
}

abbrev init_opens : init_audio_capture 7 answers registered ≡ some (true, open_client)
unfolding init_audio_capture join_com log_audio_endpoint take_format
init_opens = refl

-- What the tick finds of the device.
abbrev observed : Tick Unit
observed = record round {
  has_buffer = true;
  format_usable = true;
  sample_rate = 48000;
  channels = 2;
}

abbrev observed_lem : with_client open_client round ≡ some observed
unfolding with_client
observed_lem = refl

-- Sixteen bits are not usable.
integers_refused : is_usable (record stereo { bits = 16 }) ≡ false
integers_refused = refl

-- The log line of the endpoint throws: the id, the name and the property store are lost.
abbrev losing : InitAnswers
losing = record answers { endpoint_log_throws = true }

loss_runs : lose losing none_before ≡ record { refs = 1; allocated = 2; joined = λ t. 0 }
loss_runs = refl

cast_screen-IsAllReturned_example :
    IsAllReturned
      (lose losing none_before)
      (perform_all (record worker_answers { init = losing }) (cast_screen thrown) closed_client)
cast_screen-IsAllReturned_example =
    cast_screen-IsAllReturned (record worker_answers { init = losing }) (ground arith) none_before
      thrown (λ e. cc) closed_client closed_client-Returned refl

-- Three frames of eight bytes are six floats.
abbrev short : ℕ → ℤ
short j = if ltb j 6 then pos j else pos 0

init-reads_within_example :
    take_packet observed (packet.0, some (λ j. pos j)) running
    ≡ take_packet observed (packet.0, some short) running
init-reads_within_example =
    init-reads_within 7 answers registered refl true open_client init_opens stereo refl round
      observed observed_lem packet.0 running (λ j. pos j) short (λ j low. ground arith)
