-- ===== src/Pipeline/Again.antt =====
-- AttachToThread of src/pipeline.cpp: a chain of elements with one successor each.
use mathlib.Core.List.{append-nil, append_assoc}
use aistream.Base.{
  ℕ, zero, suc, ◌<◌, ◌≡◌, refl, sym, ap, ◌∙◌, some, List, [], ◌∷◌, ◌++◌, map, length, arith,
}
use aistream.Pipeline.{Element}
use aistream.Pipeline.Threads.{Pointer, Attach, attach_next, walk_next, walk, get_next_ele}
use aistream.Pipeline.Cover.{concat}
use aistream.Pipeline.Places.{attach_next-threads}

-- Each element from p on has the next of the list as its only successor, and the last one has none.
abbrev pub Chain : List Pointer → Pointer → List Pointer → Type 0
Chain eles p [] = get_next_ele eles p ≡ []
Chain eles p (q ∷ qs) = (get_next_ele eles p ≡ q ∷ []) × Chain eles q qs

abbrev pub elements : List Pointer → List Element
elements = map (λ (p : Pointer). p.1)

-- Along a chain of any length the loop of AttachToThread ends, with fuel for each connection, and
-- adds all its elements to the end of the threads, each once and in order, whichever flags they
-- have: one that stands on a thread already stands there twice then.
pub walk-Chain :
    (eles : List Pointer) (qs : List Pointer) (fuel : ℕ) (p : Pointer) (s : Attach)
    → Chain eles p qs
    → length qs < fuel
    → (s' : Attach) × (walk fuel eles p s ≡ some s')
      × (concat s'.thread_vec ≡ concat s.thread_vec ++ elements qs)
unfolding walk walk_next
walk-Chain eles qs zero p s c h = absurd (omega arith)
walk-Chain eles [] (suc fuel) p s c h =
    (s, rw (c, walk_next) refl, sym (append-nil (concat s.thread_vec)))
walk-Chain eles (q ∷ qs) (suc fuel) p s c h =
    let (s', e, threads) = walk-Chain eles qs fuel q (attach_next q s) c.1 (omega arith) in
    (
      s',
      rw (c.0, walk_next) e,
      threads
          ∙ ap (λ t. t ++ elements qs) (attach_next-threads eles q s)
          ∙ append_assoc (concat s.thread_vec) (q.1 ∷ []) (elements qs),
    )
