-- ===== src/Share.antt =====
-- src/share.cpp: the accessors that read and change JSON texts and files. A null pointer is `none`.
pub mod Paths
use aistream.Base.{
  ℕ, zero, suc, ◌+◌, true, false, Option, none, some, List, [], ◌∷◌, Text, text, text_eq, copy, ℤ,
  minus_one, is_negative, ltb, if◌then◌else◌, option,
}
use aistream.Platform.{Platform}

module _ (P : Platform) where
  open P use {
    Node, Double, parse, print, get_object_item, get_array_size, get_array_item, valueint,
    valuestring, valuedouble, add_string_to_object, delete_item_from_object, double_minus_one,
    read_file2_buf,
  }

  -- The ladder of lookups of all accessors: up to three names, the last of them optional. A name is
  -- first copied to a local array of 256 bytes.
  unfoldable pub sub_item : Node → Option Text → Option Text → Option Text → Option Node
  sub_item root name1 name2 name3 = elim name1 [
    | none ↦ none
    | some n1 ↦ elim (get_object_item root (copy 256 n1)) [
      | none ↦ none
      | some sub1 ↦ elim name2 [
        | none ↦ some sub1
        | some n2 ↦ elim (get_object_item sub1 (copy 256 n2)) [
          | none ↦ none
          | some sub2 ↦ elim name3 [
            | none ↦ some sub2
            | some n3 ↦ get_object_item sub2 (copy 256 n3)
          ]
        ]
      ]
    ]
  ]

  -- cJSON_Parse, then the ladder.
  unfoldable pub find_item : Text → Option Text → Option Text → Option Text → Option Node
  unfolding sub_item
  find_item buf name1 name2 name3 =
      option none (λ root. sub_item root name1 name2 name3) (parse buf)

  unfoldable pub get_int_val_from_json : Text → Option Text → Option Text → Option Text → ℤ
  unfolding find_item
  get_int_val_from_json buf name1 name2 name3 =
      option minus_one valueint (find_item buf name1 name2 name3)

  unfoldable pub get_str_val_from_json :
      Text → Option Text → Option Text → Option Text → Option Text
  unfolding find_item
  get_str_val_from_json buf name1 name2 name3 =
      option none valuestring (find_item buf name1 name2 name3)

  unfoldable pub get_double_val_from_json : Text → Option Text → Option Text → Option Text → Double
  unfolding find_item
  get_double_val_from_json buf name1 name2 name3 =
      option double_minus_one valuedouble (find_item buf name1 name2 name3)

  -- The printed array and its size; the caller's size stays as it was where this is `none`.
  unfoldable pub get_array_buf_from_json :
      Text → Option Text → Option Text → Option Text → Option (Text × ℕ)
  unfolding find_item
  get_array_buf_from_json buf name1 name2 name3 =
      option none (λ array. some (print array, get_array_size array))
        (find_item buf name1 name2 name3)

  unfoldable pub get_obj_buf_from_json :
      Text → Option Text → Option Text → Option Text → Option Text
  unfolding find_item
  get_obj_buf_from_json buf name1 name2 name3 =
      option none (λ item. some (print item)) (find_item buf name1 name2 name3)

  -- The callers count the index up from 0, so it is not negative.
  unfoldable pub get_buf_from_array : Text → ℕ → Option Text
  get_buf_from_array buf index =
      option none
        (λ root.
          if ltb index (get_array_size root)
          then some (print (get_array_item root index))
          else none)
        (parse buf)

  unfoldable pub get_int_val_from_file : Text → Option Text → Option Text → Option Text → ℤ
  unfolding get_int_val_from_json
  get_int_val_from_file filename name1 name2 name3 =
      option minus_one (λ buf. get_int_val_from_json buf name1 name2 name3)
        (read_file2_buf filename)

  unfoldable pub get_str_val_from_file :
      Text → Option Text → Option Text → Option Text → Option Text
  unfolding get_str_val_from_json
  get_str_val_from_file filename name1 name2 name3 =
      option none (λ buf. get_str_val_from_json buf name1 name2 name3) (read_file2_buf filename)

  unfoldable pub get_double_val_from_file : Text → Option Text → Option Text → Option Text → Double
  unfolding get_double_val_from_json
  get_double_val_from_file filename name1 name2 name3 =
      option double_minus_one (λ buf. get_double_val_from_json buf name1 name2 name3)
        (read_file2_buf filename)

  unfoldable pub get_array_buf_from_file :
      Text → Option Text → Option Text → Option Text → Option (Text × ℕ)
  unfolding get_array_buf_from_json
  get_array_buf_from_file filename name1 name2 name3 =
      option none (λ buf. get_array_buf_from_json buf name1 name2 name3) (read_file2_buf filename)

  -- Where AddStrJson and DelJsonObj work: the path to the object, and the key in it.
  unfoldable pub edit_place :
      Node → Option Text → Option Text → Option Text → Option (List Text × Text)
  edit_place root name1 name2 name3 = elim name1 [
    | none ↦ none
    | some n1 ↦ elim name2 [
      | none ↦ some ([], n1)
      | some n2 ↦ elim (get_object_item root n1) [
        | none ↦ none
        | some sub1 ↦ elim name3 [
          | none ↦ some (n1 ∷ [], n2)
          | some n3 ↦ elim (get_object_item sub1 n2) [
            | none ↦ none
            | some sub2 ↦ some (n1 ∷ n2 ∷ [], n3)
          ]
        ]
      ]
    ]
  ]

  unfoldable pub add_str_json : Text → Text → Option Text → Option Text → Option Text → Option Text
  unfolding edit_place
  add_str_json buf val name1 name2 name3 = elim (parse buf) [
    | none ↦ none
    | some root ↦ elim (edit_place root name1 name2 name3) [
      | none ↦ none
      | some (path, name) ↦ some (print (add_string_to_object root path name val))
    ]
  ]

  unfoldable pub del_json_obj : Text → Option Text → Option Text → Option Text → Option Text
  unfolding edit_place
  del_json_obj buf name1 name2 name3 = elim (parse buf) [
    | none ↦ none
    | some root ↦ elim (edit_place root name1 name2 name3) [
      | none ↦ none
      | some (path, name) ↦ some (print (delete_item_from_object root path name))
    ]
  ]

  -- The rounds of GetHttpFilePort from index `i` on, with the port found so far.
  unfoldable pub http_file_port_loop : Text → Text → ℕ → ℕ → ℤ → ℤ
  unfolding get_buf_from_array get_str_val_from_json get_int_val_from_json
  http_file_port_loop name array zero i port = port
  http_file_port_loop name array (suc left) i port = elim (get_buf_from_array array i) [
    | none ↦ port
    | some arrbuf ↦ elim (get_str_val_from_json arrbuf (some (text "task")) none none) [
      | none ↦ port
      | some task ↦
          let next = get_int_val_from_json arrbuf (some (text "port")) none none in
          elim (is_negative next) [
            | true ↦ port
            | false ↦
                http_file_port_loop name array left (i + 1)
                  (if text_eq name task then next else port)
          ]
    ]
  ]

  unfoldable pub get_http_file_port : Text → Text → ℤ
  unfolding get_array_buf_from_file http_file_port_loop
  get_http_file_port name config_file =
      elim (get_array_buf_from_file config_file (some (text "system")) (some (text "httpfile"))
        none) [
          | none ↦ minus_one
          | some (array, size) ↦ http_file_port_loop name array size 0 minus_one
        ]
