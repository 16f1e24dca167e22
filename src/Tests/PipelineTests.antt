-- ===== src/Tests/PipelineTests.antt =====
-- src/pipeline.cpp at concrete inputs.
use aistream.Base.{
  ℕ, ◌-◌, true, false, ◌≡◌, refl, ap, subst, none, some, List, [], ◌∷◌, Text, text, copy, arith,
  ◌<◌, text_eq, All, Has, inl, inr,
}
use aistream.Platform.{Platform}
use aistream.Sample.{toy, doc}
use aistream.Pipeline.{KeyValue, Element, AlgTask, parse_element, update_task_by_config, map_has}
use aistream.Pipeline.Again.{walk-Chain}
use aistream.Pipeline.Threads.{
  Attach, Pointer, numbered, search_entry, has_input, get_next_ele, get_output_map, readers, walk,
  assign_to_threads,
}
use aistream.Pipeline.Cover.{concat}
use aistream.Pipeline.Fuel.{Acyclic, walk_ring}
use aistream.Pipeline.Assign.{Reach, assign_to_threads_covers}
use aistream.Pipeline.Registry.{Supports, update_task_by_config-Supports}

abbrev wire : Text → KeyValue
wire val = record { key = val; val = val }

abbrev element : Text → List KeyValue → List KeyValue → Element
element name input_map output_map = record {
  name = name;
  path = name;
  framework = [];
  async = true;
  params = none;
  input_map = input_map;
  output_map = output_map;
}

-- A detector and a tracker behind a source; the tracker reads the detector too.
abbrev source : Element
source = element (text "object") (wire (text "entry") ∷ []) (wire (text "rgb") ∷ [])

abbrev detector : Element
detector = element (text "detection") (wire (text "rgb") ∷ []) (wire (text "boxes") ∷ [])

abbrev tracker : Element
tracker =
    element (text "tracker") (wire (text "rgb") ∷ wire (text "boxes") ∷ [])
      (wire (text "tracks") ∷ [])

abbrev tracking : AlgTask
tracking = record {
  name = text "tracking";
  config = [];
  ele_vec = source ∷ detector ∷ tracker ∷ [];
}

abbrev rank : ℕ → ℕ
rank i = 2 - i

abbrev eles : List Pointer
eles = numbered 0 tracking.ele_vec

abbrev Down : Pointer → Type 0
Down p = (q : Pointer) → Has q (get_next_ele eles p) → rank q.0 < rank p.0

abbrev place : Pointer → ℕ
place p = p.0

source-Down : Down (0, source)
unfolding numbered get_next_ele get_output_map readers has_input text_eq
source-Down q (inl e) = rw (← ap place e) (omega arith)
source-Down q (inr (inl e)) = rw (← ap place e) (omega arith)
source-Down q (inr (inr h)) = absurd h

detector-Down : Down (1, detector)
unfolding numbered get_next_ele get_output_map readers has_input text_eq
detector-Down q (inl e) = rw (← ap place e) (omega arith)
detector-Down q (inr h) = absurd h

tracker-Down : Down (2, tracker)
unfolding numbered get_next_ele get_output_map readers has_input text_eq
tracker-Down q h = absurd h

tracking-Acyclic : Acyclic eles rank
unfolding numbered
tracking-Acyclic p q (inl e) n = subst Down e source-Down q n
tracking-Acyclic p q (inr (inl e)) n = subst Down e detector-Down q n
tracking-Acyclic p q (inr (inr (inl e))) n = subst Down e tracker-Down q n
tracking-Acyclic p q (inr (inr (inr h))) n = absurd h

assign_to_threads_covers_example :
    (threads : List (List Element)) × (assign_to_threads 3 tracking [] ≡ some (true, threads))
    × ((q : Pointer) → Reach (numbered 0 tracking.ele_vec) (0, source) q → Has q.1 (concat threads))
unfolding numbered search_entry has_input text_eq
assign_to_threads_covers_example =
    assign_to_threads_covers tracking [] rank 3 (0, source) tracking-Acyclic refl (omega arith)

-- An element that reads what it writes.
abbrev loop : Element
loop =
    element (text "loop") (wire (text "entry") ∷ wire (text "self") ∷ []) (wire (text "self") ∷ [])

abbrev loop_pointer : Pointer
loop_pointer = (0, loop)

loop-next : get_next_ele (loop_pointer ∷ []) loop_pointer ≡ loop_pointer ∷ []
unfolding get_next_ele get_output_map readers has_input text_eq
loop-next = refl

walk_ring_example :
    walk 1000
      (loop_pointer ∷ [])
      loop_pointer
      (record { attach_to_thread = λ i. false; thread_vec = (loop ∷ []) ∷ [] })
    ≡ none
walk_ring_example =
    walk_ring (loop_pointer ∷ []) (λ p. p ≡ loop_pointer) (λ p. loop_pointer)
      (λ p e. (rw e loop-next, refl)) 1000 loop_pointer
      (record { attach_to_thread = λ i. false; thread_vec = (loop ∷ []) ∷ [] }) refl

-- One file, with an empty pipeline.
abbrev one_file : Platform
one_file = toy (λ sent r. none) (λ name. some (doc ((text "pipeline", doc []) ∷ [])))

abbrev config_map : List (Text × Text)
config_map = (text "yolov3", text "cfg/yolov3.json") ∷ []

update_task_by_config-Supports_example :
    let algs' = update_task_by_config one_file config_map (tracking ∷ []) in
    All (λ (alg : AlgTask). map_has alg.name config_map ≡ true) algs'
    × ((name config ptr : Text) (eles : List Element)
        → Has (name, config) config_map
        → copy 128 name ≡ name
        → one_file.read_file2_buf config ≡ some ptr
        → parse_element one_file ptr ≡ some eles
        → Supports name algs')
update_task_by_config-Supports_example =
    update_task_by_config-Supports one_file config_map (tracking ∷ []) (refl, tt)

-- The detector's loop, after the tracker has got its thread.
abbrev tracked : Attach
tracked = record {
  attach_to_thread = λ i. true;
  thread_vec = (source ∷ []) ∷ (tracker ∷ []) ∷ (detector ∷ []) ∷ [];
}

detector-next : get_next_ele eles (1, detector) ≡ (2, tracker) ∷ []
unfolding numbered get_next_ele get_output_map readers has_input text_eq
detector-next = refl

tracker-next : get_next_ele eles (2, tracker) ≡ []
unfolding numbered get_next_ele get_output_map readers has_input text_eq
tracker-next = refl

-- The tracker, which has its flag and its thread, gets a second place.
walk-Chain_example :
    (s' : Attach) × (walk 2 eles (1, detector) tracked ≡ some s')
    × (concat s'.thread_vec ≡ source ∷ tracker ∷ detector ∷ tracker ∷ [])
walk-Chain_example =
    walk-Chain eles ((2, tracker) ∷ []) 2 (1, detector) tracked (detector-next, tracker-next)
      (omega arith)
