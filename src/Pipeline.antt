-- ===== src/Pipeline.antt =====
-- The two workers together: what the capture worker publishes in `TickVideoCapture` of VideoCapture.h
-- is what the stream worker packs in `nogpu_pack_frame` of renderer_nogpu.h.
pub mod Wire
mod Tests
