-- ===== src/Sample/Loops.antt =====
-- What the in-place loops of server/dia/auprocess.c do, byte by byte: the order in which they run
-- keeps each sample until it is read.
use nas.Prelude.{
  ℕ, zero, suc, ◌+◌, ◌*◌, ◌≤◌, ◌<◌, ◌≡◌, refl, ◌≢◌, ◌∙◌, ap, Bool, some, if◌then◌else◌, get_or, set,
  length, length-set, get_elem?-eq-get_or, get_or-set_self, get_or-set_ne, arith,
}
use native.Mathlib.Decide.{ℕ_discrete}
use nas.Prelude.{◌==◌, ==-eq, ==-ne}
use nas.Sample.{Buffer, load8, store8, join16, first_byte, second_byte, expand, compress}

abbrev pub byte : Buffer → ℕ → ℕ
byte m i = get_or m i 0

-- The 16-bit sample at index `i`.
abbrev pub word : Bool → Buffer → ℕ → ℕ
word big m i = join16 big (byte m (2 * i)) (byte m (2 * i + 1))

pub load8-byte : (m : Buffer) (i : ℕ) → i < length m → load8 m i ≡ some (byte m i)
load8-byte m i h = get_elem?-eq-get_or m i 0 h

pub store8-set : (m : Buffer) (i v : ℕ) → i < length m → store8 m i v ≡ some (set m i v)
store8-set m i v h = ground arith

-- A byte after a write.
pub byte-set :
    (m : Buffer) (i v j : ℕ) → i < length m → byte (set m i v) j ≡ (if i == j then v else byte m j)
byte-set m i v j h = elim (ℕ_discrete i j) [
  | yes e ↦ rw (==-eq e, ← e) (get_or-set_self m i v 0 h)
  | no ne ↦ rw (==-ne ne) (get_or-set_ne m i j v 0 ne)
]

-- The first `count` 8-bit samples have become the first `count` 16-bit ones.
pub record Expanded (big : Bool) (f : ℕ → ℕ) (count : ℕ) (m out : Buffer) : Type 0 where
  pub size : length out ≡ length m
  pub firsts : (i : ℕ) → i < count → byte out (2 * i) ≡ first_byte big (f (byte m i))
  pub seconds : (i : ℕ) → i < count → byte out (2 * i + 1) ≡ second_byte big (f (byte m i))
  pub rest : (j : ℕ) → 2 * count ≤ j → byte out j ≡ byte m j

module _ (big : Bool) (f : ℕ → ℕ) where
  -- The buffer after one sample is written at index `i`.
  abbrev put16 : Buffer → ℕ → ℕ → Buffer
  put16 m i v = set (set m (2 * i) (first_byte big v)) (2 * i + 1) (second_byte big v)

  byte-put16 :
      (m : Buffer) (i v j : ℕ)
      → 2 * i + 1 < length m
      → byte (put16 m i v) j ≡ (
          if 2 * i + 1 == j
          then second_byte big v
          else if 2 * i == j
          then first_byte big v
          else byte m j)
  byte-put16 m i v j h =
      rw
        (
          byte-set (set m (2 * i) (first_byte big v)) (2 * i + 1) (second_byte big v) j
              (rw (length-set m (2 * i) (first_byte big v)) h),
          byte-set m (2 * i) (first_byte big v) j (omega arith),
        )
        refl

  expand-suc :
      (i : ℕ) (m : Buffer)
      → 2 * i + 1 < length m
      → expand big f (suc i) m ≡ expand big f i (put16 m i (f (byte m i)))
  unfolding expand
  expand-suc i m h =
      ground
        (arith, load8-byte m i (omega arith), length-set m (2 * i) (first_byte big (f (byte m i))))

  put16-length : (m : Buffer) (i v : ℕ) → length (put16 m i v) ≡ length m
  put16-length m i v =
      length-set (set m (2 * i) (first_byte big v)) (2 * i + 1) (second_byte big v)
      ∙ length-set m (2 * i) (first_byte big v)

  put16-first :
      (m : Buffer) (i v : ℕ) → 2 * i + 1 < length m → byte (put16 m i v) (2 * i) ≡ first_byte big v
  put16-first m i v h =
      byte-put16 m i v (2 * i) h
      ∙ rw (==-ne {a = 2 * i + 1} {b = 2 * i} (λ e. omega (arith, e)), ==-eq {a = 2 * i} refl) refl

  put16-second :
      (m : Buffer) (i v : ℕ)
      → 2 * i + 1 < length m
      → byte (put16 m i v) (2 * i + 1) ≡ second_byte big v
  put16-second m i v h = byte-put16 m i v (2 * i + 1) h ∙ rw (==-eq {a = 2 * i + 1} refl) refl

  put16-other :
      (m : Buffer) (i v j : ℕ)
      → 2 * i + 1 < length m
      → j ≢ 2 * i
      → j ≢ 2 * i + 1
      → byte (put16 m i v) j ≡ byte m j
  put16-other m i v j h ne ne' =
      byte-put16 m i v j h
      ∙ rw
          (
            ==-ne {a = 2 * i + 1} {b = j} (λ e. ne' (omega (arith, e))),
            ==-ne {a = 2 * i} {b = j} (λ e. ne (omega (arith, e))),
          )
          refl

  -- The sample at `k` below `i` is untouched by the write of sample `i`.
  expand-below :
      (i k : ℕ) (m : Buffer) (v : ℕ)
      → 2 * suc i ≤ length m
      → k < i
      → byte (put16 m i v) k ≡ byte m k
  expand-below i k m v h lt =
      put16-other m i v k (omega arith) (λ e. omega (arith, e)) (λ e. omega (arith, e))

  pub expand-Expanded :
      (count : ℕ) (m : Buffer)
      → 2 * count ≤ length m
      → (out : Buffer) × (expand big f count m ≡ some out) × Expanded big f count m out
  expand-Expanded zero m h = (
    m,
    unfold expand in refl,
    record {
      size = refl;
      firsts = λ i lt. omega arith;
      seconds = λ i lt. omega arith;
      rest = λ j le. refl;
    },
  )
  expand-Expanded (suc i) m h =
      let m' : Buffer = put16 m i (f (byte m i)) in
      let (out, runs, p) = expand-Expanded i m' (omega (arith, put16-length m i (f (byte m i)))) in
      (
        out,
        expand-suc i m (omega arith) ∙ runs,
        record {
          size = p.size ∙ put16-length m i (f (byte m i));
          firsts = λ k lt. elim (ℕ_discrete k i) [
            | yes e ↦
                rw e (p.rest (2 * i) (omega arith) ∙ put16-first m i (f (byte m i)) (omega arith))
            | no ne ↦
                p.firsts k (omega arith)
                ∙ ap (λ b. first_byte big (f b)) (expand-below i k m (f (byte m i)) h (omega arith))
          ];
          seconds = λ k lt. elim (ℕ_discrete k i) [
            | yes e ↦
                rw e
                  (p.rest (2 * i + 1) (omega arith) ∙ put16-second m i (f (byte m i)) (omega arith))
            | no ne ↦
                p.seconds k (omega arith)
                ∙ ap (λ b. second_byte big (f b))
                    (expand-below i k m (f (byte m i)) h (omega arith))
          ];
          rest = λ j le.
              p.rest j (omega arith)
              ∙ put16-other m i (f (byte m i)) j (omega arith) (λ e. omega (arith, e))
                  (λ e. omega (arith, e));
        },
      )

-- The `left` samples from index `i` on have become 8-bit ones.
pub record Compressed (big : Bool) (f : ℕ → ℕ) (i left : ℕ) (m out : Buffer) : Type 0 where
  pub size : length out ≡ length m
  pub samples : (k : ℕ) → i ≤ k → k < i + left → byte out k ≡ f (word big m k)
  pub below : (j : ℕ) → j < i → byte out j ≡ byte m j
  pub above : (j : ℕ) → i + left ≤ j → byte out j ≡ byte m j

pub byte-set_other : (m : Buffer) (i v j : ℕ) → i < length m → j ≢ i → byte (set m i v) j ≡ byte m j
byte-set_other m i v j h ne =
    byte-set m i v j h ∙ rw (==-ne {a = i} {b = j} (λ e. omega (arith, e))) refl

pub byte-set_self : (m : Buffer) (i v : ℕ) → i < length m → byte (set m i v) i ≡ v
byte-set_self m i v h = get_or-set_self m i v 0 h

module _ (big : Bool) (f : ℕ → ℕ) where
  word-set : (m : Buffer) (i v k : ℕ) → i < length m → i < k → word big (set m i v) k ≡ word big m k
  word-set m i v k h lt =
      rw
        (
          byte-set_other m i v (2 * k) h (λ e. omega (arith, e)),
          byte-set_other m i v (2 * k + 1) h (λ e. omega (arith, e)),
        )
        refl

  compress-suc :
      (left i : ℕ) (m : Buffer)
      → 2 * i + 1 < length m
      → compress big f (suc left) i m ≡ compress big f left (i + 1) (set m i (f (word big m i)))
  unfolding compress
  compress-suc left i m h = ground (
    arith,
    load8-byte m (2 * i) (omega arith),
    load8-byte m (2 * i + 1) (omega arith),
    store8-set m i (f (word big m i)) (omega arith),
  )

  pub compress-Compressed :
      (left i : ℕ) (m : Buffer)
      → 2 * (i + left) ≤ length m
      → (out : Buffer) × (compress big f left i m ≡ some out) × Compressed big f i left m out
  compress-Compressed zero i m h = (
    m,
    unfold compress in refl,
    record {
      size = refl;
      samples = λ k le lt. omega arith;
      below = λ j lt. refl;
      above = λ j le. refl;
    },
  )
  compress-Compressed (suc left) i m h =
      let v : ℕ = f (word big m i) in
      let (out, runs, p) =
        compress-Compressed left (i + 1) (set m i v) (omega (arith, length-set m i v)) in
      (
        out,
        compress-suc left i m (omega arith) ∙ runs,
        record {
          size = p.size ∙ length-set m i v;
          samples = λ k le lt. elim (ℕ_discrete k i) [
            | yes e ↦ rw e (p.below i (omega arith) ∙ byte-set_self m i v (omega arith))
            | no ne ↦
                p.samples k (omega (arith, ne)) (omega arith)
                ∙ ap f (word-set m i v k (omega arith) (omega (arith, ne)))
          ];
          below = λ j lt.
              p.below j (omega arith)
              ∙ byte-set_other m i v j (omega arith) (λ e. omega (arith, e));
          above = λ j le.
              p.above j (omega arith)
              ∙ byte-set_other m i v j (omega arith) (λ e. omega (arith, e));
        },
      )
