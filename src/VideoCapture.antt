-- ===== src/VideoCapture.antt =====
-- The capture side of VideoCapture.h: what `InitializeVideoCapture` builds, `CleanupVideoCapture`
-- gives back and `TickVideoCapture` works with. The calls of Direct3D, Direct2D, DXGI and WinRT are
-- not modelled: what they answer is an argument.
pub mod Device
pub mod Start
pub mod Picture
pub mod Drawing
pub mod Grab
pub mod Tick
pub mod Wake
pub mod Samples
mod Tests
