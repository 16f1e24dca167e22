-- ===== src/Share/Paths.antt =====
-- The accessors of src/share.cpp against an independent description: a walk along a list of keys.
use aistream.Base.{
  ℕ, zero, suc, ◌+◌, ◌≡◌, refl, List, [], ◌∷◌, Text, text, text_eq, arith, ℤ, minus_one, copy,
  option, Option, none, some, Option-cases, inl, inr, ap, if◌then◌else◌, is_negative,
}
use aistream.Platform.{Platform}
use aistream.Share.{
  sub_item, find_item, get_int_val_from_json, get_str_val_from_json, get_double_val_from_json,
  get_array_buf_from_json, get_obj_buf_from_json, get_buf_from_array, http_file_port_loop,
}

-- The names in front of the first that is missing.
abbrev key_path : Option Text → Option Text → Option Text → List Text
key_path none _ _ = []
key_path (some a) none _ = a ∷ []
key_path (some a) (some b) none = a ∷ b ∷ []
key_path (some a) (some b) (some c) = a ∷ b ∷ c ∷ []

module _ (P : Platform) where
  open P use {Node, get_object_item, parse, print, valueint, valuestring, valuedouble}

  -- The item that a list of keys leads to.
  abbrev follow : Node → List Text → Option Node
  follow n [] = some n
  follow n (k ∷ ks) = option none (λ m. follow m ks) (get_object_item n (copy 256 k))

  -- The item of a text at a path; a path has one key at least.
  abbrev item_at : Text → List Text → Option Node
  item_at buf [] = none
  item_at buf (k ∷ ks) = option none (λ root. follow root (k ∷ ks)) (parse buf)

  sub_item-follow :
      (root : Node) (n1 : Text) (name2 name3 : Option Text)
      → sub_item P root (some n1) name2 name3 ≡ follow root (key_path (some n1) name2 name3)
  unfolding sub_item
  sub_item-follow root n1 none name3 = ground arith
  sub_item-follow root n1 (some n2) none = ground arith
  sub_item-follow root n1 (some n2) (some n3) = ground arith

  find_item-item_at :
      (buf : Text) (name1 name2 name3 : Option Text)
      → find_item P buf name1 name2 name3 ≡ item_at buf (key_path name1 name2 name3)
  unfolding find_item
  find_item-item_at buf none name2 name3 = ground arith
  find_item-item_at buf (some n1) none name3 =
      ap (λ f. option none f (parse buf)) (λ i root. sub_item-follow root n1 none name3 i)
  find_item-item_at buf (some n1) (some n2) none =
      ap (λ f. option none f (parse buf)) (λ i root. sub_item-follow root n1 (some n2) none i)
  find_item-item_at buf (some n1) (some n2) (some n3) =
      ap (λ f. option none f (parse buf)) (λ i root. sub_item-follow root n1 (some n2) (some n3) i)

  -- All five readers of a text read the same item, the one that the names up to the first missing
  -- one lead to, and give their failure value exactly where the text does not parse, the first name
  -- is missing or a lookup on the way fails.
  readers-item_at :
      (buf : Text) (name1 name2 name3 : Option Text)
      → let item = item_at buf (key_path name1 name2 name3) in
        (get_int_val_from_json P buf name1 name2 name3 ≡ option minus_one valueint item)
        × (get_str_val_from_json P buf name1 name2 name3 ≡ option none valuestring item)
        × (get_double_val_from_json P buf name1 name2 name3
            ≡ option P.double_minus_one valuedouble item)
        × (get_array_buf_from_json P buf name1 name2 name3
            ≡ option none (λ n. some (print n, P.get_array_size n)) item)
        × (get_obj_buf_from_json P buf name1 name2 name3 ≡ option none (λ n. some (print n)) item)
  unfolding get_int_val_from_json get_str_val_from_json get_double_val_from_json
      get_array_buf_from_json get_obj_buf_from_json
  readers-item_at buf name1 name2 name3 =
      let e = find_item-item_at buf name1 name2 name3 in
      (
        ap (option _ _) e,
        ap (option _ _) e,
        ap (option _ _) e,
        ap (option _ _) e,
        ap (option _ _) e,
      )

-- GetHttpFilePort: the entries as they are read, up to the first that is not complete.
module _ (P : Platform) where
  abbrev pub entry : Text → ℕ → Option (Text × ℤ)
  entry array i =
      option none
        (λ arrbuf.
          option none
            (λ task.
              let port = get_int_val_from_json P arrbuf (some (text "port")) none none in
              if is_negative port then none else some (task, port))
            (get_str_val_from_json P arrbuf (some (text "task")) none none))
        (get_buf_from_array P array i)

  abbrev pub entries : Text → ℕ → ℕ → List (Text × ℤ)
  entries array i zero = []
  entries array i (suc left) =
      let rest = entries array (i + 1) left in option [] (λ e. e ∷ rest) (entry array i)

  -- The port of the last entry with the name, or else the default.
  abbrev last_port : Text → ℤ → List (Text × ℤ) → ℤ
  last_port name port [] = port
  last_port name port ((task, next) ∷ rest) =
      last_port name (if text_eq name task then next else port) rest

  -- The loop finds the port of the last complete entry with the task's name, not of the first; the
  -- entries behind an incomplete one are not looked at.
  http_file_port_loop-last_port :
      (name array : Text) (left i : ℕ) (port : ℤ)
      → http_file_port_loop P name array left i port ≡ last_port name port (entries array i left)
  unfolding http_file_port_loop
  http_file_port_loop-last_port name array zero i port = refl
  http_file_port_loop-last_port name array (suc left) i port =
      elim (Option-cases (get_buf_from_array P array i)) [
        | inl e ↦ ground (arith, e)
        | inr (arrbuf, e) ↦
            elim (Option-cases (get_str_val_from_json P arrbuf (some (text "task")) none none)) [
              | inl g ↦ ground (arith, e, g)
              | inr (task, g) ↦
                  let next = get_int_val_from_json P arrbuf (some (text "port")) none none in
                  ground (
                    arith,
                    e,
                    g,
                    http_file_port_loop-last_port name array left (i + 1)
                        (if text_eq name task then next else port),
                  )
            ]
      ]
