-- ===== src/Compile/Renewal.antt =====
-- compileInputs of server/dia/auutil.c on a flow that is compiled already.
use nas.Prelude.{
  ℕ, ◌+◌, ◌≡◌, refl, ap, true, false, some, List, [], ◌∷◌, ◌++◌, map, length, get_elem?, set,
  append-nil, length-append, append_assoc, arith,
}
use nas.Compile.{Input, with_gains}
use nas.Compile.Places.{write_one, write}
use nas.Compile.Shape.{bare_input}

pub write_new :
    (ls xs : List Input) (n : ℕ) → write false ls (xs, n) ≡ some (xs ++ ls, n + length ls)
unfolding write write_one
write_new [] xs n = ground (arith, append-nil xs)
write_new (l ∷ ls) xs n =
    ground (arith, write_new ls (xs ++ l ∷ []) (n + 1), append_assoc xs (l ∷ []) ls)

pub elem_after :
    {A : Type 0} (xs : List A) (l : A) (ls : List A) → get_elem? (xs ++ l ∷ ls) (length xs) ≡ some l
elem_after [] l ls = refl
elem_after (x ∷ xs) l ls = elem_after xs l ls

pub set_after :
    {A : Type 0} (xs : List A) (l v : A) (ls : List A)
    → set (xs ++ l ∷ ls) (length xs) v ≡ (xs ++ v ∷ []) ++ ls
set_after [] l v ls = refl
set_after (x ∷ xs) l v ls = ap (λ t. x ∷ t) (set_after xs l v ls)

renewed : (l l' : Input) → bare_input l ≡ bare_input l' → with_gains l'.path l ≡ l'
renewed l l' h = ap (with_gains l'.path) h

pub write_again :
    (ls ls' xs : List Input)
    → map bare_input ls ≡ map bare_input ls'
    → write true ls' (xs ++ ls, length xs) ≡ some (xs ++ ls', length xs + length ls')
unfolding write write_one
write_again [] [] xs h = ground arith
write_again [] (l' ∷ ls') xs h = absurd (ground (arith, h))
write_again (l ∷ ls) [] xs h = absurd (ground (arith, h))
write_again (l ∷ ls) (l' ∷ ls') xs h =
    let again : write true ls' ((xs ++ l' ∷ []) ++ ls, length (xs ++ l' ∷ []))
        ≡ some ((xs ++ l' ∷ []) ++ ls', length (xs ++ l' ∷ []) + length ls') =
      write_again ls ls' (xs ++ l' ∷ []) (ground (arith, h)) in
    ground (
      arith,
      elem_after xs l ls,
      ap (set (xs ++ l ∷ ls) (length xs)) (renewed l l' (ground (arith, h))),
      set_after xs l l' ls,
      again,
      length-append xs (l' ∷ []),
      append_assoc xs (l' ∷ []) ls',
    )
