-- ===== src/Pipeline/Registry.antt =====
-- UpdateTaskByConfig of src/pipeline.cpp: which algorithms are supported after an update.
use aistream.Base.{
  ◌≡◌, refl, ◌∙◌, ap, inl, inr, true, false, is_none, some, List, [], ◌∷◌, ◌++◌, Text, copy,
  text_eq, text_eq→eq, text_eq_refl, arith, All, Has, Bool-cases, Option-cases,
}
use aistream.Platform.{Platform}
use aistream.Pipeline.{
  Element, AlgTask, map_has, get_alg_task, check_if_del_alg, add_alg, update_loop,
  update_task_by_config, parse_element,
}

abbrev pub Supports : Text → List AlgTask → Type 0
Supports name algs = is_none (get_alg_task name algs) ≡ false

Supports-append :
    (name : Text) (algs more : List AlgTask) → Supports name algs → Supports name (algs ++ more)
unfolding get_alg_task
Supports-append name [] more h = absurd cc
Supports-append name (alg ∷ algs) more h = elim (Bool-cases (text_eq alg.name name)) [
  | inl t ↦ rw t refl
  | inr f ↦ rw f (Supports-append name algs more (rw f at h))
]

Supports-snoc : (algs : List AlgTask) (alg : AlgTask) → Supports alg.name (algs ++ alg ∷ [])
unfolding get_alg_task
Supports-snoc [] alg = rw (text_eq_refl alg.name) refl
Supports-snoc (x ∷ algs) alg = elim (Bool-cases (text_eq x.name alg.name)) [
  | inl t ↦ rw t refl
  | inr f ↦ rw f (Supports-snoc algs alg)
]

Supports-check_if_del_alg :
    (config_map : List (Text × Text)) (name : Text) (algs : List AlgTask)
    → map_has name config_map ≡ true
    → Supports name algs
    → Supports name (check_if_del_alg config_map algs)
unfolding get_alg_task check_if_del_alg
Supports-check_if_del_alg config_map name [] m h = h
Supports-check_if_del_alg config_map name (alg ∷ algs) m h =
    elim (Bool-cases (text_eq alg.name name)) [
      | inl t ↦
          let kept : map_has alg.name config_map ≡ true = rw (text_eq→eq alg.name name t) m in
          rw (kept, check_if_del_alg) (rw t refl)
      | inr f ↦
          let ih = Supports-check_if_del_alg config_map name algs m (rw f at h) in
          elim (Bool-cases (map_has alg.name config_map)) [
            | inl t ↦ rw (t, check_if_del_alg) (rw f ih)
            | inr g ↦ rw (g, check_if_del_alg) ih
          ]
    ]

check_if_del_alg-All :
    (config_map : List (Text × Text)) (algs : List AlgTask)
    → All (λ alg. map_has alg.name config_map ≡ true) (check_if_del_alg config_map algs)
unfolding check_if_del_alg
check_if_del_alg-All config_map [] = tt
check_if_del_alg-All config_map (alg ∷ algs) = elim (Bool-cases (map_has alg.name config_map)) [
  | inl t ↦ rw (t, check_if_del_alg) (t, check_if_del_alg-All config_map algs)
  | inr f ↦ rw (f, check_if_del_alg) (check_if_del_alg-All config_map algs)
]

map_has-Has :
    (name config : Text) (config_map : List (Text × Text))
    → Has (name, config) config_map
    → map_has name config_map ≡ true
unfolding map_has
map_has-Has name config [] h = absurd h
map_has-Has name config ((n, c) ∷ rest) (inl e) =
    rw (ap (λ (x : Text × Text). x.0) e) (rw (text_eq_refl name) refl)
map_has-Has name config ((n, c) ∷ rest) (inr h) = ground (arith, map_has-Has name config rest h)

module _ (P : Platform) where
  add_alg-keeps :
      (other name config ptr : Text) (algs : List AlgTask)
      → Supports other algs
      → Supports other (add_alg P name config ptr algs)
  unfolding add_alg
  add_alg-keeps other name config ptr algs h = elim (Option-cases (get_alg_task name algs)) [
    | inl n ↦ elim (Option-cases (parse_element P ptr)) [
      | inl m ↦ rw (n, m, add_alg) h
      | inr (eles, e) ↦ rw (n, e, add_alg) (Supports-append other algs _ h)
    ]
    | inr (alg, e) ↦ rw (e, add_alg) h
  ]

  add_alg-adds :
      (name config ptr : Text) (algs : List AlgTask) (eles : List Element)
      → copy 128 name ≡ name
      → parse_element P ptr ≡ some eles
      → Supports name (add_alg P name config ptr algs)
  unfolding add_alg
  add_alg-adds name config ptr algs eles short e = elim (Option-cases (get_alg_task name algs)) [
    | inl n ↦
        let alg : AlgTask = record { name = name; config = copy 256 config; ele_vec = eles } in
        rw (n, e, add_alg) (rw short (Supports-snoc algs alg))
    | inr (alg, f) ↦ rw (f, add_alg) (rw f refl)
  ]

  -- The files of all entries can be read.
  abbrev pub Readable : List (Text × Text) → Type 0
  Readable = All (λ (entry : Text × Text). is_none (P.read_file2_buf entry.1) ≡ false)

  update_loop-All :
      (config_map todo : List (Text × Text)) (algs : List AlgTask)
      → Readable todo
      → All (λ alg. map_has alg.name config_map ≡ true) (update_loop P config_map todo algs)
  unfolding update_loop
  update_loop-All config_map [] algs r = check_if_del_alg-All config_map algs
  update_loop-All config_map ((name, config) ∷ todo) algs r =
      elim (Option-cases (P.read_file2_buf config)) [
        | inl n ↦ absurd (ground (arith, n, r.0))
        | inr (ptr, e) ↦
            rw (e, update_loop)
              (update_loop-All config_map todo (add_alg P name config ptr algs) r.1)
      ]

  update_loop-keeps :
      (config_map todo : List (Text × Text)) (name : Text) (algs : List AlgTask)
      → Readable todo
      → map_has name config_map ≡ true
      → Supports name algs
      → Supports name (update_loop P config_map todo algs)
  unfolding update_loop
  update_loop-keeps config_map [] name algs r m h =
      Supports-check_if_del_alg config_map name algs m h
  update_loop-keeps config_map ((n, c) ∷ todo) name algs r m h =
      elim (Option-cases (P.read_file2_buf c)) [
        | inl none_read ↦ absurd (ground (arith, none_read, r.0))
        | inr (ptr, e) ↦
            rw (e, update_loop)
              (update_loop-keeps config_map todo name (add_alg P n c ptr algs) r.1 m
                (add_alg-keeps name n c ptr algs h))
      ]

  update_loop-adds :
      (config_map todo : List (Text × Text)) (name config ptr : Text) (eles : List Element)
      (algs : List AlgTask)
      → Readable todo
      → map_has name config_map ≡ true
      → copy 128 name ≡ name
      → P.read_file2_buf config ≡ some ptr
      → parse_element P ptr ≡ some eles
      → Has (name, config) todo
      → Supports name (update_loop P config_map todo algs)
  unfolding update_loop
  update_loop-adds config_map [] name config ptr eles algs r m short read parsed h = absurd h
  update_loop-adds config_map ((n, c) ∷ todo) name config ptr eles algs r m short read parsed
        (inl e) =
      let same_name = ap (λ (x : Text × Text). x.0) e in
      let same_config = ap (λ (x : Text × Text). x.1) e in
      let added : Supports name (add_alg P n c ptr algs) =
        rw (same_name, same_config) (add_alg-adds name config ptr algs eles short parsed) in
      rw (ap P.read_file2_buf same_config ∙ read, update_loop)
        (update_loop-keeps config_map todo name (add_alg P n c ptr algs) r.1 m added)
  update_loop-adds config_map ((n, c) ∷ todo) name config ptr eles algs r m short read parsed
        (inr h) =
      elim (Option-cases (P.read_file2_buf c)) [
        | inl none_read ↦ absurd (ground (arith, none_read, r.0))
        | inr (ptr', e) ↦
            rw (e, update_loop)
              (update_loop-adds config_map todo name config ptr eles (add_alg P n c ptr' algs) r.1 m
                short read parsed h)
      ]

  -- Where the files of all entries of a configuration can be read: after the update each supported
  -- algorithm has an entry, and each entry whose name fits an array of 128 bytes, and whose
  -- file describes a pipeline, is supported.
  pub update_task_by_config-Supports :
      (config_map : List (Text × Text)) (algs : List AlgTask)
      → Readable config_map
      → let algs' = update_task_by_config P config_map algs in
        All (λ alg. map_has alg.name config_map ≡ true) algs'
        × ((name config ptr : Text) (eles : List Element)
            → Has (name, config) config_map
            → copy 128 name ≡ name
            → P.read_file2_buf config ≡ some ptr
            → parse_element P ptr ≡ some eles
            → Supports name algs')
  unfolding update_task_by_config
  update_task_by_config-Supports config_map algs r = (
    update_loop-All config_map config_map algs r,
    λ name config ptr eles h short read parsed.
        update_loop-adds config_map config_map name config ptr eles algs r
          (map_has-Has name config config_map h) short read parsed h,
  )
