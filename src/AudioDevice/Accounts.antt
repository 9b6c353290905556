-- ===== src/AudioDevice/Accounts.antt =====
-- What the audio device holds, and that `CleanupAudioCapture` gives all of it back.
use mi_ster_cast.Prelude.{
  bit, ℕ, ◌+◌, ◌-◌, ◌≡◌, ◌≢◌, ◌⊎◌, refl, ap, ◌∙◌, Bool, true, false, not, ◌&&◌, none, some, arith,
  ◌==◌, if◌then◌else◌,
}
use mi_ster_cast.Prelude.Steps.{Ends}
use mi_ster_cast.AudioDevice.{
  blocks, Client, InitAnswers, endpoint_blocks, is_usable, join_com, log_audio_endpoint,
  take_format, init_audio_capture, cleanup_audio_capture,
}

-- What the system had given before the worker.
pub record Before : Type 0 where
  pub refs : ℕ
  pub allocated : ℕ
  pub joined : ℕ → ℕ

abbrev pub held : Client → ℕ
held c = bit c.enumerator + bit c.device + bit c.client + bit c.capture_client

-- All that the system has given since is in the globals; COM is joined by this thread or by none.
pub record Owned (thread : ℕ) (b : Before) (c : Client) : Type 0 where
  pub refs : c.refs ≡ b.refs + held c
  pub allocated : c.allocated ≡ b.allocated + blocks c.format
  pub joiner : (c.com_thread ≡ thread) ⊎ (c.com_thread ≡ 0)
  pub joined :
      (t : ℕ) → c.joined t ≡ b.joined t + (if c.com_thread == 0 then 0 else bit (t == thread))
  pub client : c.running ≡ true → c.client ≡ true

-- Nothing is held, and all that the system gave is given back.
pub record Returned (b : Before) (c : Client) : Type 0 where
  pub enumerator : c.enumerator ≡ false
  pub device : c.device ≡ false
  pub client : c.client ≡ false
  pub capture_client : c.capture_client ≡ false
  pub format : c.format ≡ none
  pub running : c.running ≡ false
  pub refs : c.refs ≡ b.refs
  pub allocated : c.allocated ≡ b.allocated
  pub com_thread : c.com_thread ≡ 0
  pub joined : (t : ℕ) → c.joined t ≡ b.joined t

module _ (thread : ℕ) (real : thread ≢ 0) (b : Before) where
  pub cleanup-Returned :
      (c : Client) → Owned thread b c → Returned b (cleanup_audio_capture thread c)
  unfolding cleanup_audio_capture
  cleanup-Returned c o = record {
    enumerator = refl;
    device = refl;
    client = refl;
    capture_client = refl;
    format = refl;
    running = ground (arith, o.client);
    refs = ground (arith, o.refs);
    allocated = ap (λ n. n - blocks c.format) o.allocated ∙ ground arith;
    com_thread = refl;
    joined = λ t. ground (arith, real, o.joiner, o.joined t);
  }

-- The log line of the endpoint is reached and throws.
abbrev pub loses_endpoint : InitAnswers → Bool
loses_endpoint a = a.join && a.enumerator && a.endpoint && a.endpoint_log_throws

-- What stays with the system when that line throws: the property store, the id and the name.
abbrev pub lose : InitAnswers → Before → Before
lose a b = record {
  refs = b.refs + (if loses_endpoint a then bit a.properties else 0);
  allocated = b.allocated + (if loses_endpoint a then endpoint_blocks a else 0);
  joined = b.joined;
}

-- The calls of `InitAudioCapture` all succeed, and no log line throws.
abbrev pub opens : InitAnswers → Bool
opens a =
    a.join
    && a.enumerator
    && a.endpoint
    && not a.endpoint_log_throws
    && a.activate
    && elim a.format [ none ↦ false | some f ↦ true ]
    && not a.format_log_throws
    && a.initialize
    && a.buffer_size
    && a.service

abbrev pub has_usable_format : InitAnswers → Bool
has_usable_format a = elim a.format [ none ↦ false | some f ↦ is_usable f ]

-- What `InitAudioCapture` leaves, with the answer `ok`.
pub record Opened (thread : ℕ) (b : Before) (a : InitAnswers) (before : Client) (ok : Bool)
    (c : Client) : Type 0 where
  pub owned : Owned thread (lose a b) c
  pub answer : ok ≡ opens a
  pub capture_client : ok ≡ true → c.capture_client ≡ true
  pub client : ok ≡ true → c.client ≡ true
  pub format_usable : ok ≡ true → c.format_usable ≡ has_usable_format a
  pub buffer : c.buffer ≡ before.buffer

module _ (thread : ℕ) (real : thread ≢ 0) (b : Before) where
  pub init-Opened :
      (a : InitAnswers) (c : Client)
      → Returned b c
      → Ends (Opened thread b a c) (init_audio_capture thread a c)
  unfolding init_audio_capture join_com log_audio_endpoint take_format
  init-Opened a c r = ground (arith, r, real) steps 10000000
