-- ===== src/Stream/Buckets.antt =====
-- A bucket of server/dia/auprocess.c is read and written frame after frame.
use nas.Prelude.{
  take, min, leb, leb→le, sym, ap, ◌∙◌, ◌⊎◌, ◌==◌, if◌then◌else◌, ℕ, ◌+◌, ◌-◌, ◌^◌, ◌≤◌, ◌<◌, ◌≡◌,
  refl, inl, inr, true, false, List, [], length, drop, ltb, get_or, Bool-cases, arith,
}
use nas.Stream.{Run, Rate}
use nas.Stream.Rate.{rate_convert, rate_null}
use nas.Stream.Laws.{IsRate, length-drop, rate_convert-below, resample-nil}
use nas.Stream.Rates.{over-short}
use nas.Stream.Picks.{length-take, take-all}
use nas.Stream.Port.{Request, nothing, stop_eof, window, put}
use nas.Stream.Queue.{drop-take, drop-drop}
use nas.Stream.Frames.{get_or-put_out, get_or-put_in}
use nas.Stream.Bucket.{BucketElement, available, read_bucket, write_bucket}

-- The frames that the element has still to give: those from its pointer on, and of counted samples
-- as many as are left.
abbrev pub rest : BucketElement → List ℕ
rest e = elim e.count_samples [
  | true ↦ take e.num_left (drop e.at e.frames)
  | false ↦ drop e.at e.frames
]

take-min : (a k : ℕ) (s : List ℕ) → length s ≤ a → take (min a k) s ≡ take k s
take-min a k s le = elim (Bool-cases (leb a k)) [
  | inl q ↦
      ap (λ n. take n s) (omega (arith, leb→le a k q))
      ∙ take-all a s le
      ∙ sym (take-all k s (omega (arith, le, leb→le a k q)))
  | inr q ↦ ap (λ n. take n s) (ground (arith, q))
]

-- What can be read is the rest.
window-available : (e : BucketElement) → window e.frames e.at (available e) ≡ rest e
window-available e = elim (Bool-cases e.count_samples) [
  | inl q ↦ ground (
    arith,
    q,
    take-min (length e.frames - e.at) e.num_left (drop e.at e.frames)
        (omega (arith, length-drop e.at e.frames)),
  )
  | inr q ↦ ground (
    arith,
    q,
    take-all (length e.frames - e.at) (drop e.at e.frames)
        (omega (arith, length-drop e.at e.frames)),
  )
]

-- The same of the frames that `available` tells of.
read_bucket-window :
    (rate : Rate) (size current : ℕ) (e : BucketElement)
    → IsRate rate
    → e.parms_changed ≡ false
    → e.at ≤ length e.frames
    → let run = rate size current (window e.frames e.at (available e)) in
      let r = read_bucket rate size current e in
      (r.minibuf ≡ run.out)
      × (window r.element.frames r.element.at (available r.element)
          ≡ drop run.used (window e.frames e.at (available e)))
      × (r.element.at ≤ length e.frames)
      × (r.request ≡ (if r.element.at == length e.frames then stop_eof else nothing))
unfolding read_bucket
read_bucket-window rate size current e law same inside =
    let run : Run = rate size current (window e.frames e.at (available e)) in
    ground (
      arith,
      same,
      law.within size current (window e.frames e.at (available e)),
      length-take (available e) (drop e.at e.frames),
      length-drop e.at e.frames,
      drop-take run.used (available e) (drop e.at e.frames),
      drop-drop run.used e.at e.frames,
    )

eof_cases :
    (at n : ℕ) (request : Request)
    → at ≤ n
    → request ≡ (if at == n then stop_eof else nothing)
    → ((at ≡ n) × (request ≡ stop_eof)) ⊎ ((at < n) × (request ≡ nothing))
eof_cases at n request le h = elim (Bool-cases (at == n)) [
  | inl q ↦ inl (ground (arith, q), ground (arith, h, q))
  | inr q ↦ inr (ground (arith, le, q), ground (arith, h, q))
]

-- readBucket with unchanged parameters, with a rate converter that can be taken up and the pointer
-- not behind the array, gives what the rate converter makes of the frames that the element has still
-- to give, those from its pointer on and of counted samples no more than are left; what it has read
-- is off the front of them; and either the pointer is at the end of the array and the element is to
-- stop, or it is before the end and the element goes on.
pub read_bucket_lem :
    (rate : Rate) (size current : ℕ) (e : BucketElement)
    → IsRate rate
    → e.parms_changed ≡ false
    → e.at ≤ length e.frames
    → let run = rate size current (rest e) in
      let r = read_bucket rate size current e in
      (r.minibuf ≡ run.out)
      × (rest r.element ≡ drop run.used (rest e))
      × (((r.element.at ≡ length e.frames) × (r.request ≡ stop_eof))
          ⊎ ((r.element.at < length e.frames) × (r.request ≡ nothing)))
read_bucket_lem rate size current e law same inside =
    let r = read_bucket rate size current e in
    let (out, left, le, asks) = read_bucket-window rate size current e law same inside in
    let w = window-available e in
    (
      out ∙ ap (λ t. (rate size current t).out) w,
      sym (window-available r.element) ∙ left ∙ ap (λ t. drop (rate size current t).used t) w,
      eof_cases r.element.at (length e.frames) r.request le asks,
    )

write_bucket-all :
    (current : ℕ) (s : List ℕ) (e : BucketElement)
    → e.parms_changed ≡ false
    → e.count_samples ≡ false
    → e.at + length s ≤ length e.frames
    → write_bucket rate_null current s e ≡ (
      record e {
        frames = put e.frames e.at s;
        at = e.at + length s;
        num_left = e.num_left - length s;
      },
      current,
      nothing,
    )
unfolding write_bucket rate_null
write_bucket-all current s e same free fits =
    ground (arith, same, free, take-all (length s) s (omega arith))

-- writeBucket with unchanged parameters, without counting and without rate conversion, where the
-- frames fit: they stand in the array from the pointer on, the others stay, the pointer stands
-- behind them, and the element goes on.
pub write_bucket_lem :
    (current : ℕ) (s : List ℕ) (e : BucketElement)
    → e.parms_changed ≡ false
    → e.count_samples ≡ false
    → e.at + length s ≤ length e.frames
    → let (e', current', request) = write_bucket rate_null current s e in
      ((i : ℕ) → i < length s → get_or e'.frames (e.at + i) 0 ≡ get_or s i 0)
      × ((j : ℕ) → j < e.at → get_or e'.frames j 0 ≡ get_or e.frames j 0)
      × ((j : ℕ) → e.at + length s ≤ j → get_or e'.frames j 0 ≡ get_or e.frames j 0)
      × (e'.at ≡ e.at + length s)
      × (request ≡ nothing)
write_bucket_lem current s e same free fits =
    let w = write_bucket-all current s e same free fits in
    rw w (
      (λ i lt. get_or-put_in e.frames e.at s i lt fits),
      (λ j lt. get_or-put_out e.frames e.at s j (inl lt)),
      (λ j le. get_or-put_out e.frames e.at s j (inr le)),
      refl,
      refl,
    )

rate_convert-nil :
    (n want c : ℕ) → ((rate_convert n want c []).out ≡ []) × ((rate_convert n want c []).used ≡ 0)
rate_convert-nil n want c = elim (Bool-cases (ltb c (2 ^ 16))) [
  | inl e ↦ ground (arith, rate_convert-below n want c [] (ground arith), resample-nil n want c)
  | inr e ↦ ground (arith, over-short n want c [] (ground arith))
]

-- readBucket of counted samples of which none is left, before the end of the array: it gives no
-- frames, and the element is not told to stop.
pub read_bucket-counted_out :
    (n size current : ℕ) (e : BucketElement)
    → e.parms_changed ≡ false
    → e.count_samples ≡ true
    → e.num_left ≡ 0
    → e.at < length e.frames
    → let r = read_bucket (rate_convert n) size current e in
      (r.minibuf ≡ []) × (r.request ≡ nothing)
unfolding read_bucket
read_bucket-counted_out n size current e same counts out inside =
    ground (arith, same, counts, out, rate_convert-nil n size current)
