-- ===== src/Platform.antt =====
-- What src/share.cpp and its callers take from outside the repository's own code: the cJSON
-- library (work/cjson), C floating point, the file system, and the HTTP peers of a node.
use aistream.Base.{ℕ, Bool, Option, none, some, ◌≡◌, List, [], Text, ℤ}

-- One HTTP request that a node sends: GET carries no body.
pub data Method : Type 0 where
  http_get http_post : Method

pub record Request : Type 0 where
  pub method : Method
  pub url : Text
  pub body : Text
  pub timeout_sec : ℕ

pub record Platform : Type 1 where
  -- cJSON trees, as the program reads them. `add_string_to_object root path key val` is the root
  -- after cJSON_AddStringToObject on the object that `path` leads to; deletion likewise.
  pub Node : Type 0
  pub Double : Type 0
  pub Float : Type 0
  pub parse : Text → Option Node
  pub print : Node → Text
  pub get_object_item : Node → Text → Option Node
  pub get_array_size : Node → ℕ
  pub get_array_item : Node → ℕ → Node
  pub valueint : Node → ℤ
  pub valuestring : Node → Option Text
  pub valuedouble : Node → Double
  pub add_string_to_object : Node → List Text → Text → Text → Node
  pub delete_item_from_object : Node → List Text → Text → Node
  -- The constant -1 and the test `>= 0` on doubles; conversion to float, 0, 99 and `<` on floats.
  pub double_minus_one : Double
  pub double_ge_zero : Double → Bool
  pub to_float : Double → Float
  pub float_zero : Float
  pub slave_load_max : Float
  pub float_lt : Float → Float → Bool
  -- A whole file as text, and whether a path exists.
  pub read_file2_buf : Text → Option Text
  pub access : Text → Bool
  -- The body of the answer to a request, after the requests that were sent before it.
  pub respond : List Request → Request → Option Text

-- What the program relies on in cJSON: a string that is added to a tree is appended, so a lookup of
-- its key finds an older item of that key first.
pub record CjsonLaws (P : Platform) : Type 0 where
  pub get-add_old :
      (n m : P.Node) (key val : Text)
      → P.get_object_item n key ≡ some m
      → P.get_object_item (P.add_string_to_object n [] key val) key ≡ some m
  pub get-add_new :
      (n : P.Node) (key val : Text)
      → P.get_object_item n key ≡ none
      → (m : P.Node) × (P.get_object_item (P.add_string_to_object n [] key val) key ≡ some m)
        × (P.valuestring m ≡ some val)
