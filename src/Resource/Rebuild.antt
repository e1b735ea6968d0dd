-- ===== src/Resource/Rebuild.antt =====
-- RebuildTable of server/dia/resource.c moves every node to a table of twice the size.
use nas.Prelude.{
  ℕ, zero, suc, ◌+◌, ◌*◌, ◌^◌, ◌<◌, ◌≡◌, refl, sym, ap, ◌∙◌, ◌⊎◌, inl, inr, Bool, true, false, List,
  [], ◌∷◌, ◌++◌, get_or, take, replicate, length, length-append, length-set, length-replicate,
  get_or-set_self, get_or-set_ne, append-nil, append_assoc, arith,
}
use native.Mathlib.Decide.{ℕ_discrete}
use native.Mathlib.Nat.{pow-suc}
use native.Mathlib.Numerals.{add-one}
use nas.Resource.{Resource, ClientTable, hash}
use nas.Resource.Hash.{hash-lt}
use nas.Resource.Chain.{
  of_id, of_id-append, HashesTo, HashesTo-append, flatten, Placed, Placed-set, of_id-flatten,
}
use nas.Resource.Create.{append_node, move_chain, move_chains, rebuild_table, grown}
use nas.Resource.Inv.{IsTable, entries, length-flatten-set}

pub get_or-replicate_nil : (n j : ℕ) → get_or {A = List Resource} (replicate n []) j [] ≡ []
get_or-replicate_nil zero j = refl
get_or-replicate_nil (suc n) zero = refl
get_or-replicate_nil (suc n) (suc j) = get_or-replicate_nil n j

pub flatten-replicate_nil : (n : ℕ) → flatten (replicate n []) ≡ []
flatten-replicate_nil zero = refl
flatten-replicate_nil (suc n) = flatten-replicate_nil n

length-replicate_nil : (n : ℕ) → length {A = List Resource} (replicate n []) ≡ n
length-replicate_nil n = length-replicate n []

pub take_all {ℓ} : {A : Type ℓ} (xs : List A) → take (length xs) xs ≡ xs
take_all [] = refl
take_all (x ∷ xs) = ap (λ ys. x ∷ ys) (take_all xs)

-- What moving nodes keeps: the size, the places, the total, and what the table says of each id.
record Moved (hashsize : ℕ) (t : List (List Resource)) (rs : List Resource)
    (t' : List (List Resource)) : Type 0 where
  size : length t' ≡ length t
  placed : Placed hashsize t'
  total : length (flatten t') ≡ length (flatten t) + length rs
  nodes :
      (id : ℕ)
      → of_id id (get_or t' (hash hashsize id) [])
        ≡ of_id id (get_or t (hash hashsize id) []) ++ of_id id rs

module _ (hashsize : ℕ) where
  append_node-Moved :
      (t : List (List Resource)) (r : Resource)
      → Placed hashsize t
      → hash hashsize r.id < length t
      → Moved hashsize t (r ∷ []) (append_node hashsize t r)
  unfolding append_node
  append_node-Moved t r p h = record {
    size = length-set t i new;
    placed =
        Placed-set hashsize i t new p
          (HashesTo-append hashsize i (get_or t i []) (r ∷ []) (p i) single) h;
    total = omega (arith, length-flatten-set t i new h, length-append (get_or t i []) (r ∷ []));
    nodes = λ id. elim (ℕ_discrete i (hash hashsize id)) [
      | yes e ↦
          ground (arith, get_or-set_self t i new [] h, of_id-append id (get_or t i []) (r ∷ []))
      | no ne ↦ ground (
        arith,
        get_or-set_ne t i (hash hashsize id) new [] ne,
        single id,
        append-nil (of_id id (get_or t (hash hashsize id) [])),
      )
    ];
  }
    where
      i : ℕ
      i = hash hashsize r.id

      new : List Resource
      new = get_or t i [] ++ (r ∷ [])

      single : HashesTo hashsize i (r ∷ [])
      single j ne = elim (ℕ_discrete r.id j) [
        | yes e ↦ absurd (ne (ap (hash hashsize) (sym e)))
        | no differs ↦ ground arith
      ]

  Moved-nil : (t : List (List Resource)) → Placed hashsize t → Moved hashsize t [] t
  Moved-nil t p = record {
    size = refl;
    placed = p;
    total = omega arith;
    nodes = λ id. sym (append-nil (of_id id (get_or t (hash hashsize id) [])));
  }

  Moved-append :
      {t t' t'' : List (List Resource)} (xs ys : List Resource)
      → Moved hashsize t xs t'
      → Moved hashsize t' ys t''
      → Moved hashsize t (xs ++ ys) t''
  Moved-append {t} {t'} {t''} xs ys p q = record {
    size = q.size ∙ p.size;
    placed = q.placed;
    total = omega (arith, p.total, q.total, length-append xs ys);
    nodes = λ id.
        rw (q.nodes id, p.nodes id, of_id-append id xs ys)
          (append_assoc (of_id id (get_or t (hash hashsize id) [])) (of_id id xs) (of_id id ys));
  }

  move_chain-Moved :
      (t : List (List Resource)) (rs : List Resource)
      → Placed hashsize t
      → ((id : ℕ) → hash hashsize id < length t)
      → Moved hashsize t rs (move_chain hashsize t rs)
  unfolding move_chain
  move_chain-Moved t [] p h = Moved-nil t p
  move_chain-Moved t (r ∷ rs) p h =
      let first = append_node-Moved t r p (h r.id) in
      Moved-append (r ∷ []) rs first
        (move_chain-Moved (append_node hashsize t r) rs first.placed (λ id. rw first.size (h id)))

  move_chains-Moved :
      (t chains : List (List Resource))
      → Placed hashsize t
      → ((id : ℕ) → hash hashsize id < length t)
      → Moved hashsize t (flatten chains) (move_chains hashsize t chains)
  unfolding move_chains
  move_chains-Moved t [] p h = Moved-nil t p
  move_chains-Moved t (chain ∷ chains) p h =
      let first = move_chain-Moved t chain p h in
      Moved-append chain (flatten chains) first (
        move_chains-Moved (move_chain hashsize t chain) chains first.placed
          (λ id. rw first.size (h id)))

  Placed-replicate_nil : (n : ℕ) → Placed hashsize (replicate n [])
  Placed-replicate_nil n j id ne = rw (get_or-replicate_nil n j)

-- Below the largest size, RebuildTable doubles the table and leaves it well-formed.
module _ {c : ClientTable} (v : IsTable c) (room : c.hashsize < 11) where
  doubled : 2 ^ (c.hashsize + 1) ≡ 2 ^ c.hashsize * 2
  doubled = rw add-one (pow-suc 2 c.hashsize)

  moved :
      Moved
        (c.hashsize + 1)
        (replicate (2 * c.buckets) [])
        (flatten c.resources)
        (rebuild_table true c).resources
  unfolding rebuild_table
  moved =
      rw (← v.shape, take_all c.resources)
        (move_chains-Moved (c.hashsize + 1) (replicate (2 * length c.resources) []) c.resources
          (Placed-replicate_nil (c.hashsize + 1) (2 * length c.resources))
          (λ id. omega (
            arith,
            length-replicate_nil (2 * length c.resources),
            hash-lt (c.hashsize + 1) id,
            v.shape,
            v.power,
            v.small,
            doubled,
          )))

  pub rebuild_table-entries : (id : ℕ) → entries (rebuild_table true c) id ≡ entries c id
  unfolding rebuild_table
  rebuild_table-entries id =
      moved.nodes id
      ∙ rw (get_or-replicate_nil (2 * c.buckets)) (of_id-flatten c.hashsize id c.resources v.placed)

  pub rebuild_table-IsTable : IsTable (rebuild_table true c)
  unfolding rebuild_table
  rebuild_table-IsTable = record {
    shape = omega (arith, moved.size, length-replicate_nil (2 * c.buckets));
    power = omega (arith, doubled, v.power);
    small = omega (arith, v.small);
    large = omega arith;
    placed = moved.placed;
    counted =
        omega (arith, moved.total, v.counted, ap length (flatten-replicate_nil (2 * c.buckets)));
    fresh = λ id lt clear le. rebuild_table-entries id ∙ v.fresh id lt clear le;
  }

grown-cases :
    (rebuild : Bool) (c : ClientTable)
    → (grown rebuild c ≡ c) ⊎ (c.hashsize < 11) × (grown rebuild c ≡ rebuild_table true c)
unfolding grown rebuild_table
grown-cases true c = ground arith
grown-cases false c = inl (ground arith)

-- AddResource grows the table, or leaves it, and either way every id keeps its nodes.
module _ {c : ClientTable} (rebuild : Bool) (v : IsTable c) where
  pub grown-IsTable : IsTable (grown rebuild c)
  grown-IsTable = elim (grown-cases rebuild c) [
    | inl e ↦ rw e v
    | inr p ↦ rw p.1 (rebuild_table-IsTable v p.0)
  ]

  pub grown-entries : (id : ℕ) → entries (grown rebuild c) id ≡ entries c id
  grown-entries id = elim (grown-cases rebuild c) [
    | inl e ↦ rw e refl
    | inr p ↦ rw p.1 (rebuild_table-entries v p.0 id)
  ]
