-- ===== src/Resource/Fake/Fresh.antt =====
-- The ids that FakeClientID of server/dia/resource.c gives are not in use.
use native.Mathlib.Decide.{ℕ_discrete}
use nas.Prelude.{
  sym, subst, ℕ, zero, suc, ◌+◌, ◌-◌, ◌≤◌, ◌<◌, ◌≡◌, ◌≢◌, refl, ◌⊎◌, ◌∙◌, inl, inr, true, false,
  none, some, List, [], ◌∷◌, ◌++◌, nonzero, if◌then◌else◌, Bool-cases, arith,
}
use nas.Resource.{Resource, ClientTable, Server, bucket}
use nas.Resource.Chain.{of_id, of_id-append, flatten, of_id-flatten}
use nas.Resource.Inv.{IsTable, entries}
use nas.Resource.Fake.{
  has_id, first_free, available_id, Range, narrow, narrow_chain, narrow_chains, server_range,
  new_range, last_range, give, fake_client_id,
}

has_id-false : (id : ℕ) (rs : List Resource) → has_id id rs ≡ false → of_id id rs ≡ []
has_id-false id [] e = refl
has_id-false id (r ∷ rs) e = ground (arith, has_id-false id rs)

has_id-true : (id : ℕ) (rs : List Resource) → has_id id rs ≡ true → of_id id rs ≢ []
has_id-true id [] e = absurd (ground arith)
has_id-true id (r ∷ rs) e = ground (arith, has_id-true id rs)

append-nil_parts : (xs ys : List Resource) → xs ++ ys ≡ [] → (xs ≡ []) × (ys ≡ [])
append-nil_parts [] ys e = (refl, e)
append-nil_parts (x ∷ xs) ys e = absurd (cc)

module _ (c : ClientTable) where
  -- What `AvailableID` gives: a free id of the range, or 0 where there is none.
  first_free-found :
      (left id : ℕ)
      → first_free left c id ≢ 0
      → (id ≤ first_free left c id)
        × (first_free left c id < id + left)
        × (entries c (first_free left c id) ≡ [])
  unfolding first_free
  first_free-found zero id ne = absurd (ne refl)
  first_free-found (suc left) id ne =
      ground (arith, first_free-found left (id + 1), has_id-false id (bucket c id))

  first_free-none :
      (left id j : ℕ)
      → 0 < id
      → first_free left c id ≡ 0
      → id ≤ j
      → j < id + left
      → entries c j ≢ []
  unfolding first_free
  first_free-none zero id j pos e lo hi = absurd (omega arith)
  first_free-none (suc left) id j pos e lo hi = elim (Bool-cases (has_id id (bucket c id))) [
    | inl taken ↦ elim (ℕ_discrete id j) [
      | yes same ↦ subst (λ k. entries c k ≢ []) same (has_id-true id (bucket c id) taken)
      | no ne ↦
          first_free-none left (id + 1) j (omega arith) (ground arith) (omega arith) (omega arith)
    ]
    | inr free ↦ absurd (ground arith)
  ]

  available_id-found :
      (id maxid goodid : ℕ)
      → 0 < id
      → (goodid ≢ 0 → entries c goodid ≡ [])
      → available_id c id maxid goodid ≢ 0
      → (id ≤ available_id c id maxid goodid)
        × (available_id c id maxid goodid ≤ maxid)
        × (entries c (available_id c id maxid goodid) ≡ [])
  unfolding available_id
  available_id-found id maxid goodid pos good ne =
      ground (arith, good, first_free-found (maxid + 1 - id) id)

  available_id-none :
      (id maxid goodid j : ℕ)
      → 0 < id
      → available_id c id maxid goodid ≡ 0
      → id ≤ j
      → j ≤ maxid
      → entries c j ≢ []
  unfolding available_id
  available_id-none id maxid goodid j pos e lo hi =
      first_free-none (maxid + 1 - id) id j pos (ground arith) lo (omega arith)

  -- One node: the range shrinks to one without that node, and keeps a free id where it had one.
  record Narrowed (r : Resource) (w w' : Range) : Type 0 where
    lower : w.id ≤ w'.id
    upper : w'.maxid ≤ w.maxid
    out : (r.id < w'.id) ⊎ (w'.maxid < r.id)

  narrow-Narrowed : (r : Resource) (w : Range) → 0 < w.id → Narrowed r w (narrow c r w)
  unfolding narrow
  narrow-Narrowed r w pos = record {
    lower = ground arith;
    upper = ground arith;
    out = ground arith;
  }

  -- The known free id is one.
  abbrev IsGood : Range → Type 0
  IsGood w = w.goodid ≢ 0 → (w.id ≤ w.goodid) × (w.goodid ≤ w.maxid) × (entries c w.goodid ≡ [])

  abbrev pub HasFree : Range → Type 0
  HasFree w = (j : ℕ) × (w.id ≤ j) × (j ≤ w.maxid) × (entries c j ≡ [])

  narrow-IsGood : (r : Resource) (w : Range) → 0 < w.id → IsGood w → IsGood (narrow c r w)
  unfolding narrow
  narrow-IsGood r w pos good ne =
      let known : w.goodid ≢ 0 → entries c w.goodid ≡ [] = λ (e : w.goodid ≢ 0). (good e).2 in
      ground (
        arith,
        good,
        available_id-found w.id (r.id - 1) w.goodid pos known,
        available_id-found (r.id + 1) w.maxid w.goodid (omega arith) known,
      )

  narrow-side :
      (r : Resource) (w : Range) (j : ℕ)
      → 0 < w.id
      → j ≢ r.id
      → (narrow c r w).goodid ≡ 0
      → w.id ≤ j
      → j ≤ w.maxid
      → entries c j ≡ []
      → ((narrow c r w).id ≤ j) × (j ≤ (narrow c r w).maxid)
  unfolding narrow
  narrow-side r w j pos ne e lo hi free = ground (
    arith,
    available_id-none w.id (r.id - 1) w.goodid j pos,
    available_id-none (r.id + 1) w.maxid w.goodid j,
  )

  narrow-HasFree :
      (r : Resource) (w : Range)
      → 0 < w.id
      → IsGood w
      → entries c r.id ≢ []
      → HasFree w
      → HasFree (narrow c r w)
  narrow-HasFree r w pos good taken (j, lo, hi, free) = elim (ℕ_discrete (narrow c r w).goodid 0) [
    | yes e ↦
        let differs : j ≢ r.id =
          λ (same : j ≡ r.id). taken (subst (λ k. entries c k ≡ []) same free) in
        let (low, high) = narrow-side r w j pos differs e lo hi free in (j, low, high, free)
    | no ne ↦
        let (low, high, found) = narrow-IsGood r w pos good ne in
        ((narrow c r w).goodid, low, high, found)
  ]

  -- The loops over all nodes.
  record Swept (rs : List Resource) (w w' : Range) : Type 0 where
    lower : w.id ≤ w'.id
    upper : w'.maxid ≤ w.maxid
    out : (j : ℕ) → w'.id ≤ j → j ≤ w'.maxid → of_id j rs ≡ []
    good : IsGood w → IsGood w'
    free : IsGood w → ((id : ℕ) → of_id id rs ≢ [] → entries c id ≢ []) → HasFree w → HasFree w'

  Swept-nil : (w : Range) → Swept [] w w
  Swept-nil w = record {
    lower = omega arith;
    upper = omega arith;
    out = λ j lo hi. refl;
    good = λ g. g;
    free = λ g t f. f;
  }

  Swept-one : (r : Resource) (w : Range) → 0 < w.id → Swept (r ∷ []) w (narrow c r w)
  Swept-one r w pos =
      let n = narrow-Narrowed r w pos in
      record {
        lower = n.lower;
        upper = n.upper;
        out = λ j lo hi. ground (arith, n.out);
        good = narrow-IsGood r w pos;
        free = λ g taken. narrow-HasFree r w pos g (taken r.id (ground arith));
      }

  Swept-append :
      {w w' w'' : Range} (xs ys : List Resource)
      → Swept xs w w'
      → Swept ys w' w''
      → Swept (xs ++ ys) w w''
  Swept-append {w} {w'} {w''} xs ys p q = record {
    lower = omega (arith, p.lower, q.lower);
    upper = omega (arith, p.upper, q.upper);
    out = λ j lo hi.
        ground
          (arith, of_id-append j xs ys, p.out j, q.out j lo hi, p.lower, q.lower, p.upper, q.upper);
    good = λ g. q.good (p.good g);
    free = λ g taken f.
        q.free (p.good g)
          (λ id ne. taken id (λ e. ne (append-nil_parts _ _ (sym (of_id-append id xs ys) ∙ e)).1))
          (p.free g
            (λ id ne. taken id (λ e. ne (append-nil_parts _ _ (sym (of_id-append id xs ys) ∙ e)).0))
            f);
  }

  narrow_chain-Swept :
      (rs : List Resource) (w : Range) → 0 < w.id → Swept rs w (narrow_chain c rs w)
  unfolding narrow_chain
  narrow_chain-Swept [] w pos = Swept-nil w
  narrow_chain-Swept (r ∷ rs) w pos =
      let first = Swept-one r w pos in
      Swept-append (r ∷ []) rs first
        (narrow_chain-Swept rs (narrow c r w) (omega (arith, first.lower)))

  narrow_chains-Swept :
      (chains : List (List Resource)) (w : Range)
      → 0 < w.id
      → Swept (flatten chains) w (narrow_chains c chains w)
  unfolding narrow_chains
  narrow_chains-Swept [] w pos = Swept-nil w
  narrow_chains-Swept (chain ∷ chains) w pos =
      let first = narrow_chain-Swept chain w pos in
      Swept-append chain (flatten chains) first
        (narrow_chains-Swept chains (narrow_chain c chain w) (omega (arith, first.lower)))

  new_range-Swept :
      (client : ℕ) → Swept (flatten c.resources) (server_range client) (new_range c client)
  unfolding new_range
  new_range-Swept client = narrow_chains-Swept c.resources (server_range client) (ground arith)

  -- An id of the new range is not in use.
  pub new_range_free :
      (client : ℕ)
      → IsTable c
      → (j : ℕ) → (new_range c client).id ≤ j
      → j ≤ (new_range c client).maxid
      → entries c j ≡ []
  new_range_free client v j lo hi =
      sym (of_id-flatten c.hashsize j c.resources v.placed) ∙ (new_range-Swept client).out j lo hi

  -- The new range lies inside the ids that the server may make for the client.
  pub new_range_inside :
      (client : ℕ)
      → ((server_range client).id ≤ (new_range c client).id)
        × ((new_range c client).maxid ≤ (server_range client).maxid)
  new_range_inside client = ((new_range-Swept client).lower, (new_range-Swept client).upper)

  -- A free id in the whole range leaves one in the new range.
  pub new_range-HasFree :
      (client : ℕ) → IsTable c → HasFree (server_range client) → HasFree (new_range c client)
  new_range-HasFree client v f =
      (new_range-Swept client).free (λ ne. absurd (ne refl))
        (λ id ne e. ne (of_id-flatten c.hashsize id c.resources v.placed ∙ e)) f

module _ (s : Server) (client : ℕ) (v : IsTable (s.clients client))
    (at_end : (s.clients client).fake_id ≡ (s.clients client).end_fake_id) where
  abbrev w : Range
  w = new_range (s.clients client) client

  -- FakeClientID at the end of its range, where the client still has a free id among those that the
  -- server may make: it gives the first id of a new range, and every id of that range is one that
  -- the server may make and that no resource of the client has.
  pub fake_client_id_refills :
      HasFree (s.clients client) (server_range client)
      → (fake_client_id s client ≡ some (give s client w, (w).id))
        × ((w).id ≤ (w).maxid)
        × ((j : ℕ)
            → (w).id ≤ j
            → j ≤ (w).maxid
            → ((server_range client).id ≤ j)
              × (j ≤ (server_range client).maxid)
              × (entries (s.clients client) j ≡ []))
  unfolding fake_client_id
  fake_client_id_refills f =
      let (j, lo, hi, free) = new_range-HasFree (s.clients client) client v f in
      (
        ground arith,
        omega arith,
        λ k low high. (
          omega (arith, new_range_inside (s.clients client) client),
          omega (arith, new_range_inside (s.clients client) client),
          new_range_free (s.clients client) client v k low high,
        ),
      )

  -- Where no such id is free, the server's own client ends the server, and any other is marked for
  -- an exception and served from the last range.
  pub fake_client_id_exhausted :
      ¬ HasFree (s.clients client) (server_range client)
      → fake_client_id s client ≡ (
          if nonzero client
          then some (
            give (record s { exceptions = client ∷ s.exceptions }) client (last_range client),
            (last_range client).id,
          )
          else none)
  unfolding fake_client_id
  fake_client_id_exhausted none_free =
      let empty : ¬ ((w).id ≤ (w).maxid) = λ le. none_free (
        (w).id,
        omega (arith, new_range_inside (s.clients client) client),
        omega (arith, new_range_inside (s.clients client) client),
        new_range_free (s.clients client) client v (w).id (omega arith) le,
      ) in
      ground arith
