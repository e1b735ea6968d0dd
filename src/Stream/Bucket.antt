-- ===== src/Stream/Bucket.antt =====
-- Reading and writing buckets, readBucket and writeBucket of server/dia/auprocess.c.
use nas.Prelude.{ℕ, ◌+◌, ◌-◌, min, Bool, false, List, length, take, ltb, ◌==◌, if◌then◌else◌}
use nas.Stream.{Rate}
use nas.Stream.Port.{Request, nothing, stop_eof, window, put}

-- An element on a bucket: the component's array, the element's own pointer, whether samples are
-- counted and how many are left, and the parameters of the raw element.
pub record BucketElement : Type 0 where
  pub frames : List ℕ
  pub at : ℕ
  pub count_samples : Bool
  pub num_left : ℕ
  pub parms_changed : Bool
  pub offset : ℕ
  pub num_samples : ℕ

abbrev pub with_parms : BucketElement → BucketElement
with_parms e =
    if e.parms_changed
    then record e {
      at = e.offset;
      num_left = if e.count_samples then e.num_samples else e.num_left;
      parms_changed = false;
    }
    else e

-- How many frames can be read.
abbrev pub available : BucketElement → ℕ
available e =
    let inside = length e.frames - e.at in if e.count_samples then min inside e.num_left else inside

pub record BucketReading : Type 0 where
  pub element : BucketElement
  pub current : ℕ
  pub minibuf : List ℕ
  pub request : Request

-- `num_left` is looked at only where samples are counted; where they are not, the source's
-- difference may wrap.
unfoldable pub read_bucket : Rate → ℕ → ℕ → BucketElement → BucketReading
read_bucket rate size current el =
    let e = with_parms el in
    let run = rate size current (window e.frames e.at (available e)) in
    record {
      element = record e { at = e.at + run.used; num_left = e.num_left - run.used };
      current = run.current;
      minibuf = run.out;
      request = if e.at + run.used == length e.frames then stop_eof else nothing;
    }

unfoldable pub write_bucket : Rate → ℕ → List ℕ → BucketElement → BucketElement × ℕ × Request
write_bucket rate current s el =
    let e = with_parms el in
    let size = if e.count_samples then min (length s) e.num_left else length s in
    let run = rate (length e.frames - e.at) current (take size s) in
    (
      record e {
        frames = put e.frames e.at run.out;
        at = e.at + length run.out;
        num_left = e.num_left - length run.out;
      },
      run.current,
      if ltb (length e.frames - e.at) (length s) then stop_eof else nothing,
    )
