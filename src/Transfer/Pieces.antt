-- ===== src/Transfer/Pieces.antt =====
-- The pieces that ProcAuReadElement of server/dia/audispatch.c writes, and what WriteToClient makes
-- of them.
use nas.Prelude.{
  ℕ, zero, suc, ◌+◌, ◌-◌, ◌%◌, ◌≤◌, ◌≡◌, refl, sym, ap, ap₂, ◌∙◌, List, [], ◌∷◌, ◌++◌, append-nil,
  append_assoc, length, length-append, take, drop, replicate, arith,
}
use nas.Stream.Port.{window}
use nas.Stream.Laws.{length-drop}
use nas.Stream.Picks.{length-take, take-all, take-append, take-append_past}
use nas.Stream.Queue.{ring, drop-drop}
use nas.Transfer.{padded, wire}

pub take-add : (a b : ℕ) (xs : List ℕ) → take (a + b) xs ≡ take a xs ++ take b (drop a xs)
take-add zero b xs = ap (λ n. take n xs) (omega arith)
take-add (suc a) b [] = ap (λ n. take {A = ℕ} n []) (suc_add a b) ∙ sym (take_nil b)
  where
    suc_add : (a b : ℕ) → suc a + b ≡ suc (a + b)
    suc_add a b = omega arith

    take_nil : (n : ℕ) → take {A = ℕ} n [] ≡ []
    take_nil zero = refl
    take_nil (suc n) = refl
take-add (suc a) b (x ∷ xs) =
    ap (λ n. take n (x ∷ xs)) (suc_add a b) ∙ ap (λ ys. x ∷ ys) (take-add a b xs)
  where
    suc_add : (a b : ℕ) → suc a + b ≡ suc (a + b)
    suc_add a b = omega arith

-- A window in two parts.
pub window-add : (f : List ℕ) (p a b : ℕ) → window f p (a + b) ≡ window f p a ++ window f (p + a) b
window-add f p a b =
    take-add a b (drop p f) ∙ ap (λ xs. take a (drop p f) ++ take b xs) (drop-drop a p f)

pub length-window : (f : List ℕ) (p n : ℕ) → p + n ≤ length f → length (window f p n) ≡ n
length-window f p n le = omega (arith, length-take n (drop p f), length-drop p f)

-- The queue as windows, without and with the wrap.
pub ring-window : (f : List ℕ) (p n : ℕ) → p + n ≤ length f → ring f p n ≡ window f p n
ring-window f p n le = take-append n (drop p f) f (omega (arith, length-drop p f))

pub ring-windows :
    (f : List ℕ) (p n : ℕ)
    → p ≤ length f
    → length f ≤ p + n
    → ring f p n ≡ window f p (length f - p) ++ window f 0 (n - (length f - p))
ring-windows f p n inside le = ground (
  arith,
  length-drop p f,
  take-append_past n (drop p f) f (omega (arith, length-drop p f)),
  take-all (length f - p) (drop p f) (omega (arith, length-drop p f)),
)

-- A whole number of units of 4 bytes is not padded.
pub padded-whole : (xs : List ℕ) → length xs % 4 ≡ 0 → padded xs ≡ xs
padded-whole xs e = ap (λ r. xs ++ replicate ((4 - r) % 4) 0) e ∙ append-nil xs

pub padded-append : (xs ys : List ℕ) → length xs % 4 ≡ 0 → padded (xs ++ ys) ≡ xs ++ padded ys
padded-append xs ys e =
    ap (λ r. (xs ++ ys) ++ replicate ((4 - r) % 4) 0) (same (length xs) (length ys) e ∙ refl)
    ∙ append_assoc xs ys (replicate ((4 - length ys % 4) % 4) 0)
  where
    same : (m n : ℕ) → m % 4 ≡ 0 → length (xs ++ ys) % 4 ≡ length ys % 4
    same m n e' = omega (arith, length-append xs ys, e)

-- Pieces of whole units before the last one leave no trace on the wire.
pub wire-two : (xs ys : List ℕ) → length xs % 4 ≡ 0 → wire (xs ∷ ys ∷ []) ≡ padded (xs ++ ys)
wire-two xs ys e =
    ap₂ (λ us vs. us ++ vs) (padded-whole xs e) (append-nil (padded ys))
    ∙ sym (padded-append xs ys e)

pub wire-three :
    (xs ys zs : List ℕ)
    → length xs % 4 ≡ 0
    → length ys % 4 ≡ 0
    → wire (xs ∷ ys ∷ zs ∷ []) ≡ padded ((xs ++ ys) ++ zs)
wire-three xs ys zs e e' =
    ap₂ (λ us vs. us ++ vs) (padded-whole xs e) (wire-two ys zs e')
    ∙ sym (padded-append xs (ys ++ zs) e)
    ∙ ap padded (sym (append_assoc xs ys zs))

pub wire-one : (xs : List ℕ) → wire (xs ∷ []) ≡ padded xs
wire-one xs = append-nil (padded xs)
