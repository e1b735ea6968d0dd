-- ===== src/Stream.antt =====
-- Samples between the ports, the buckets and the mini-buffers, server/dia/auprocess.c. A frame, the
-- samples of all tracks at one time, is one number, and sizes are counts of frames: the source's
-- counts of bytes are `bytesPerSample` times these.
pub mod Rate
pub mod Laws
pub mod Rates
pub mod Picks
pub mod Port
pub mod Mask
pub mod Queue
pub mod Read
pub mod Frames
pub mod Write
pub mod Bucket
pub mod Buckets
mod Tests
use nas.Prelude.{ℕ, List}

-- What a run of a rate converter gives: the frames written, `currentSample` after it, and the
-- number of frames read.
pub record Run : Type 0 where
  pub out : List ℕ
  pub current : ℕ
  pub used : ℕ

-- A rate converter, at a `nextSample`: how many frames are wanted, `currentSample`, and the frames
-- that are available.
abbrev pub Rate : Type 0
Rate = ℕ → ℕ → List ℕ → Run
