-- ===== src/Events/Order.antt =====
-- The queue of events of server/dia/auevents.c is first in, first out, and where the pointer to its
-- tail is left behind.
use nas.Prelude.{
  ℕ, ◌≡◌, refl, sym, ap, ◌∙◌, Bool, true, false, not, ◌&&◌, Option, none, some, List, [], ◌∷◌, ◌++◌,
  append-nil, append_assoc, ◌==◌, if◌then◌else◌, arith,
}
use nas.Events.{
  Node, Work, Tail, nothing, last, freed, Queue, add_to_event_queue, done, unlinked, dequeue_from,
  dequeue_events,
}

abbrev pub is_empty : List Node → Bool
is_empty [] = true
is_empty (p ∷ ps) = false

-- The tail that belongs to the nodes.
abbrev pub tail_of : List Node → Tail
tail_of [] = nothing
tail_of (p ∷ ps) = last

abbrev pub queue_of : List Node → Queue
queue_of ps = record { nodes = ps; tail = tail_of ps }

-- Nodes are added one after the other.
unfoldable pub add_all : List Node → Queue → Option Queue
add_all [] q = some q
add_all (p ∷ ps) q = elim (add_to_event_queue p q) [ none ↦ none | some r ↦ add_all ps r ]

abbrev pub works : (ℕ → Bool) → List Node → List Work
works gone [] = []
works gone (p ∷ ps) = done gone p ++ works gone ps

-- The nodes of the other flows, and whether the last node is of the flow.
abbrev pub others : ℕ → List Node → List Node
others flow [] = []
others flow (p ∷ ps) = if p.flow == flow then others flow ps else p ∷ others flow ps

abbrev pub last_is : ℕ → List Node → Bool
last_is flow [] = false
last_is flow (p ∷ []) = p.flow == flow
last_is flow (p ∷ r ∷ ps) = last_is flow (r ∷ ps)

dequeue-nodes :
    (flow : ℕ) (kept rest : List Node) (tail : Tail)
    → (dequeue_from flow kept rest tail).nodes ≡ kept ++ others flow rest
unfolding dequeue_from
dequeue-nodes flow kept [] tail = sym (append-nil kept)
dequeue-nodes flow kept (p ∷ rest) tail =
    go (p.flow == flow) (dequeue-nodes flow kept rest (unlinked rest kept tail)) (
      dequeue-nodes flow (kept ++ p ∷ []) rest tail ∙ append_assoc kept (p ∷ []) (others flow rest))
  where
    go :
        (b : Bool)
        → (dequeue_from flow kept rest (unlinked rest kept tail)).nodes ≡ kept ++ others flow rest
        → (dequeue_from flow (kept ++ p ∷ []) rest tail).nodes ≡ kept ++ p ∷ others flow rest
        → (dequeue_from flow
            (if b then kept else kept ++ p ∷ [])
            rest
            (if b then unlinked rest kept tail else tail)).nodes
          ≡ kept ++ (if b then others flow rest else p ∷ others flow rest)
    go true e f = e
    go false e f = f

-- The tail that is left, from the nodes behind: NULL, a freed node, or the last one.
abbrev ending : ℕ → List Node → List Node → Tail
ending flow rest left = if is_empty left then nothing else if last_is flow rest then freed else last

abbrev tail_after : ℕ → List Node → List Node → Tail
tail_after flow kept rest = ending flow rest (kept ++ others flow rest)

not_empty : (kept : List Node) (p : Node) (rest : List Node) → is_empty (kept ++ p ∷ rest) ≡ false
not_empty [] p rest = refl
not_empty (k ∷ kept) p rest = refl

dequeue-tail :
    (flow : ℕ) (kept : List Node) (p : Node) (rest : List Node)
    → (dequeue_from flow kept (p ∷ rest) last).tail ≡ tail_after flow kept (p ∷ rest)
unfolding dequeue_from
dequeue-tail flow [] p [] = ground arith
dequeue-tail flow (k ∷ kept) p [] = ground arith
dequeue-tail flow kept p (r ∷ rest) = go (p.flow == flow) (dequeue-tail flow kept r rest) (
    dequeue-tail flow (kept ++ p ∷ []) r rest
    ∙ ap (ending flow (r ∷ rest)) (append_assoc kept (p ∷ []) (others flow (r ∷ rest))))
  where
    go :
        (b : Bool)
        → (dequeue_from flow kept (r ∷ rest) last).tail
          ≡ ending flow (r ∷ rest) (kept ++ others flow (r ∷ rest))
        → (dequeue_from flow (kept ++ p ∷ []) (r ∷ rest) last).tail
          ≡ ending flow (r ∷ rest) (kept ++ p ∷ others flow (r ∷ rest))
        → (dequeue_from flow
            (if b then kept else kept ++ p ∷ [])
            (r ∷ rest)
            (if b then last else last)).tail
          ≡ ending flow
              (r ∷ rest)
              (kept ++ (if b then others flow (r ∷ rest) else p ∷ others flow (r ∷ rest)))
    go true e f = e
    go false e f = f

-- After AuDequeueEvents of a flow on a queue whose tail points to its last node, what is added comes
-- behind the nodes of the other flows, in their order; but where the last node was of the flow and a
-- node of another flow is left, the tail points to a node that has been freed, and adding writes to it.
pub add_to_event_queue-dequeue_events :
    (flow : ℕ) (ps : List Node) (p : Node)
    → add_to_event_queue p (dequeue_events flow (queue_of ps)) ≡ (
        if last_is flow ps && not (is_empty (others flow ps))
        then none
        else some (queue_of (others flow ps ++ p ∷ [])))
unfolding dequeue_from add_to_event_queue
add_to_event_queue-dequeue_events flow [] p = refl
add_to_event_queue-dequeue_events flow (r ∷ ps) p =
    by_tail (dequeue_from flow [] (r ∷ ps) last) (dequeue-nodes flow [] (r ∷ ps) last)
      (dequeue-tail flow [] r ps)
  where
    by_tail :
        (q : Queue)
        → q.nodes ≡ others flow (r ∷ ps)
        → q.tail ≡ tail_after flow [] (r ∷ ps)
        → add_to_event_queue p q ≡ (
            if last_is flow (r ∷ ps) && not (is_empty (others flow (r ∷ ps)))
            then none
            else some (queue_of (others flow (r ∷ ps) ++ p ∷ [])))
    by_tail q e f = go (others flow (r ∷ ps)) e f
      where
        go :
            (os : List Node)
            → q.nodes ≡ os
            → q.tail
              ≡ (if is_empty os then nothing else if last_is flow (r ∷ ps) then freed else last)
            → add_to_event_queue p q ≡ (
                if last_is flow (r ∷ ps) && not (is_empty os)
                then none
                else some (queue_of (os ++ p ∷ [])))
        go [] e f = ground (arith, e, f)
        go (o ∷ os) e f = ground (arith, e, f)
