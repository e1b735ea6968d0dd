-- ===== src/Resource/Views.antt =====
-- What each loop over a chain of server/dia/resource.c does, told by the nodes of one id.
use nas.Prelude.{
  ℕ, ◌+◌, ◌-◌, ◌≤◌, ◌≡◌, refl, Bool, true, false, ◌||◌, Option, none, some, List, [], ◌∷◌, ◌++◌,
  append_assoc, append-nil, ◌==◌, if◌then◌else◌, length, length-append, arith,
}
use nas.Resource.{Resource, null}
use nas.Resource.Chain.{of_id, of_id-append}
use nas.Resource.Remove.{Sweep, drop_node, keep_node, sweep, unlink_type}
use nas.Resource.Find.{find_type, find_class, change_value}

-- The calls of delete functions for the nodes whose type is not `skip`, in order, put before
-- earlier ones.
abbrev pub deletions : ℕ → List Resource → List Resource → List Resource
deletions skip [] deleted = deleted
deletions skip (r ∷ rs) deleted =
    deletions skip rs (if r.type == skip then deleted else r ∷ deleted)

-- The list without its first node of a type.
abbrev pub erase_type : ℕ → List Resource → List Resource
erase_type type [] = []
erase_type type (r ∷ rs) = if r.type == type then rs else r ∷ erase_type type rs

-- The list with the value of its first node of a type replaced.
abbrev pub put_value : ℕ → ℕ → List Resource → List Resource
put_value type value [] = []
put_value type value (r ∷ rs) =
    if r.type == type then record r { value = value } ∷ rs else r ∷ put_value type value rs

-- The value of the first node of a type.
abbrev pub value_of : ℕ → List Resource → ℕ
value_of type [] = null
value_of type (r ∷ rs) = if r.type == type then r.value else value_of type rs

pub find_type-of_id :
    (id type : ℕ) (rs : List Resource) → find_type id type rs ≡ value_of type (of_id id rs)
unfolding find_type
find_type-of_id id type [] = refl
find_type-of_id id type (r ∷ rs) = ground (arith, find_type-of_id id type rs)

pub find_class-of_id :
    (id classes : ℕ) (rs : List Resource)
    → find_class id classes rs ≡ find_class id classes (of_id id rs)
unfolding find_class
find_class-of_id id classes [] = refl
find_class-of_id id classes (r ∷ rs) = ground (arith, find_class-of_id id classes rs)

-- The loop of FreeResource.
sweep-cons :
    (id skip : ℕ) (r : Resource) (rs : List Resource) (w : Sweep)
    → sweep id skip (r ∷ rs) w ≡ (
        if r.id == id
        then sweep id skip rs (drop_node skip r w)
        else sweep id skip rs (keep_node r w))
unfolding sweep
sweep-cons id skip r rs w = ground arith

sweep-nil : (id skip : ℕ) (w : Sweep) → sweep id skip [] w ≡ w
unfolding sweep
sweep-nil id skip w = refl

pub sweep-kept :
    (id skip j : ℕ) (rs : List Resource) (w : Sweep)
    → of_id j (sweep id skip rs w).kept ≡ of_id j w.kept ++ (if j == id then [] else of_id j rs)
sweep-kept id skip j [] w = ground (arith, sweep-nil id skip w, append-nil (of_id j w.kept))
sweep-kept id skip j (r ∷ rs) w = ground (
  arith,
  sweep-cons id skip r rs w,
  sweep-kept id skip j rs (drop_node skip r w),
  sweep-kept id skip j rs (keep_node r w),
  of_id-append j w.kept (r ∷ []),
  append-nil (of_id j w.kept),
  append_assoc (of_id j w.kept) (r ∷ []) (of_id j rs),
)

pub sweep-elements :
    (id skip : ℕ) (rs : List Resource) (w : Sweep)
    → (sweep id skip rs w).elements ≡ w.elements - length (of_id id rs)
sweep-elements id skip [] w = ground (arith, sweep-nil id skip w)
sweep-elements id skip (r ∷ rs) w = ground (
  arith,
  sweep-cons id skip r rs w,
  sweep-elements id skip rs (drop_node skip r w),
  sweep-elements id skip rs (keep_node r w),
)

pub sweep-deleted :
    (id skip : ℕ) (rs : List Resource) (w : Sweep)
    → (sweep id skip rs w).deleted ≡ deletions skip (of_id id rs) w.deleted
sweep-deleted id skip [] w = ground (arith, sweep-nil id skip w)
sweep-deleted id skip (r ∷ rs) w = ground (
  arith,
  sweep-cons id skip r rs w,
  sweep-deleted id skip rs (drop_node skip r w),
  sweep-deleted id skip rs (keep_node r w),
)

-- Whether the list has a node.
abbrev pub has_any : List Resource → Bool
has_any [] = false
has_any (r ∷ rs) = true

pub sweep-got_one :
    (id skip : ℕ) (rs : List Resource) (w : Sweep)
    → (sweep id skip rs w).got_one ≡ (w.got_one || has_any (of_id id rs))
sweep-got_one id skip [] w = ground (arith, sweep-nil id skip w)
sweep-got_one id skip (r ∷ rs) w = ground (
  arith,
  sweep-cons id skip r rs w,
  sweep-got_one id skip rs (drop_node skip r w),
  sweep-got_one id skip rs (keep_node r w),
)

-- The kept nodes and the dropped ones are all the nodes.
pub sweep-length :
    (id skip : ℕ) (rs : List Resource) (w : Sweep)
    → length (sweep id skip rs w).kept + length (of_id id rs) ≡ length w.kept + length rs
sweep-length id skip [] w = ground (arith, sweep-nil id skip w)
sweep-length id skip (r ∷ rs) w = ground (
  arith,
  sweep-cons id skip r rs w,
  sweep-length id skip rs (drop_node skip r w),
  sweep-length id skip rs (keep_node r w),
  length-append w.kept (r ∷ []),
)

-- The loop of FreeResourceByType: the chain that it leaves, and the node that it finds.
abbrev pub left_of : List Resource → Option (Resource × List Resource) → List Resource
left_of rs none = rs
left_of rs (some (found, rest)) = rest

abbrev pub found_of : Option (Resource × List Resource) → Option Resource
found_of none = none
found_of (some (found, rest)) = some found

-- The first node of a type.
abbrev pub first_type : ℕ → List Resource → Option Resource
first_type type [] = none
first_type type (r ∷ rs) = if r.type == type then some r else first_type type rs

pub unlink_type-left :
    (id type j : ℕ) (rs : List Resource)
    → of_id j (left_of rs (unlink_type id type rs))
      ≡ (if j == id then erase_type type (of_id id rs) else of_id j rs)
unfolding unlink_type
unlink_type-left id type j [] = ground arith
unlink_type-left id type j (r ∷ rs) = ground (arith, unlink_type-left id type j rs)

pub unlink_type-found :
    (id type : ℕ) (rs : List Resource)
    → found_of (unlink_type id type rs) ≡ first_type type (of_id id rs)
unfolding unlink_type
unlink_type-found id type [] = refl
unlink_type-found id type (r ∷ rs) = ground (arith, unlink_type-found id type rs)

pub unlink_type-length :
    (id type : ℕ) (rs : List Resource) → length (left_of rs (unlink_type id type rs)) ≤ length rs
unfolding unlink_type
unlink_type-length id type [] = omega arith
unlink_type-length id type (r ∷ rs) = ground (arith, unlink_type-length id type rs)

-- The loop of ChangeResourceValue.
abbrev pub changed_of : List Resource → Option (List Resource) → List Resource
changed_of rs none = rs
changed_of rs (some rest) = rest

pub change_value-changed :
    (id type value j : ℕ) (rs : List Resource)
    → of_id j (changed_of rs (change_value id type value rs))
      ≡ (if j == id then put_value type value (of_id id rs) else of_id j rs)
unfolding change_value
change_value-changed id type value j [] = ground arith
change_value-changed id type value j (r ∷ rs) =
    ground (arith, change_value-changed id type value j rs)

pub change_value-length :
    (id type value : ℕ) (rs : List Resource)
    → length (changed_of rs (change_value id type value rs)) ≡ length rs
unfolding change_value
change_value-length id type value [] = omega arith
change_value-length id type value (r ∷ rs) = ground (arith, change_value-length id type value rs)
