-- ===== src/Sample.antt =====
-- A small platform to run the model on: documents are lists of length-prefixed texts, numbers stand
-- for floats, and the answers of the network are a parameter.
use aistream.Base.{
  ℕ, zero, suc, ◌≤◌, ◌≡◌, refl, true, Option, none, some, Option-cases, inl, inr, List, [], ◌∷◌,
  ◌++◌, Text, text_eq, text_eq_refl, arith, ℤ, pos, minus_one, is_negative, ltb, length,
  length-append, get_elem?, option, if◌then◌else◌, not, ap,
}
use aistream.Platform.{Platform, CjsonLaws, Request}

-- The value of an item as a string, and its fields as an object.
pub record Doc : Type 0 where
  pub raw : Text
  pub fields : List (Text × Text)

-- A text behind its length.
abbrev pub prefixed : Text → Text → Text
prefixed v rest = length v ∷ (v ++ rest)

unfoldable pub split_text : ℕ → Text → Option (Text × Text)
split_text zero t = some ([], t)
split_text (suc n) [] = none
split_text (suc n) (x ∷ t) = option none (λ (r : Text × Text). some (x ∷ r.0, r.1)) (split_text n t)

unfoldable pub read_text : Text → Option (Text × Text)
unfolding split_text
read_text [] = none
read_text (n ∷ t) = split_text n t

abbrev pub encode : List (Text × Text) → Text
encode [] = []
encode ((k, v) ∷ fs) = prefixed k (prefixed v (encode fs))

unfoldable pub decode : ℕ → Text → List (Text × Text)
decode zero t = []
decode (suc fuel) t = elim (read_text t) [
  | none ↦ []
  | some (k, t1) ↦ elim (read_text t1) [ none ↦ [] | some (v, t2) ↦ (k, v) ∷ decode fuel t2 ]
]

-- Each field takes two numbers at least, so the length of the text is fuel enough.
unfoldable pub parse_doc : Text → Option Doc
unfolding decode read_text
parse_doc t =
    option none (λ (r : Text × Text). some (record { raw = r.0; fields = decode (length r.1) r.1 }))
      (read_text t)

abbrev pub print_doc : Doc → Text
print_doc d = prefixed d.raw (encode d.fields)

abbrev pub doc : List (Text × Text) → Text
doc fields = print_doc (record { raw = []; fields = fields })

unfoldable pub item : Text → Doc
unfolding parse_doc
item v = record { raw = v; fields = option [] (λ (d : Doc). d.fields) (parse_doc v) }

unfoldable pub find_field : Text → List (Text × Text) → Option Text
unfolding text_eq
find_field k [] = none
find_field k ((j, v) ∷ fs) = if text_eq j k then some v else find_field k fs

abbrev doc_item : Doc → Text → Option Doc
doc_item d k = option none (λ v. some (item v)) (find_field k d.fields)

abbrev number : Text → ℤ
number [] = minus_one
number (n ∷ t) = pos n

abbrev with_field : Doc → Text → Text → Doc
with_field d k v = record d { fields = d.fields ++ (k, v) ∷ [] }

-- Deletion is not exercised: it leaves the document as it is.
abbrev pub toy : (List Request → Request → Option Text) → (Text → Option Text) → Platform
toy respond files = record {
  Node = Doc;
  Double = ℤ;
  Float = ℕ;
  parse = parse_doc;
  print = print_doc;
  get_object_item = doc_item;
  get_array_size = λ d. length d.fields;
  get_array_item = λ d i. option d (λ (f : Text × Text). item f.1) (get_elem? d.fields i);
  valueint = λ d. number d.raw;
  valuestring = λ d. some d.raw;
  valuedouble = λ d. number d.raw;
  add_string_to_object = λ d path k v. with_field d k v;
  delete_item_from_object = λ d path k. d;
  double_minus_one = minus_one;
  double_ge_zero = λ x. not (is_negative x);
  to_float = λ x. elim x [ pos n ↦ n | _ ↦ 0 ];
  float_zero = 0;
  slave_load_max = 99;
  float_lt = ltb;
  read_file2_buf = files;
  access = λ path. true;
  respond = respond;
}

split_text-prefixed : (v rest : Text) → split_text (length v) (v ++ rest) ≡ some (v, rest)
unfolding split_text
split_text-prefixed [] rest = refl
split_text-prefixed (x ∷ v) rest = rw (split_text-prefixed v rest)

read_text-prefixed : (v rest : Text) → read_text (prefixed v rest) ≡ some (v, rest)
unfolding read_text
read_text-prefixed v rest = split_text-prefixed v rest

decode-nil : (fuel : ℕ) → decode (suc fuel) [] ≡ []
unfolding decode read_text
decode-nil fuel = refl

decode-encode :
    (fs : List (Text × Text)) (fuel : ℕ) → length (encode fs) ≤ fuel → decode fuel (encode fs) ≡ fs
unfolding decode
decode-encode [] zero h = refl
decode-encode [] (suc fuel) h = decode-nil fuel
decode-encode ((k, v) ∷ fs) zero h = absurd (omega arith)
decode-encode ((k, v) ∷ fs) (suc fuel) h =
    rw (read_text-prefixed k (prefixed v (encode fs)), read_text-prefixed v (encode fs), decode)
      (ap (◌∷◌ (k, v)) (
        decode-encode fs fuel (
          omega (
            arith,
            length-append {0} k (prefixed v (encode fs)),
            length-append {0} v (encode fs),
          ))))

parse-print_doc : (d : Doc) → parse_doc (print_doc d) ≡ some d
unfolding parse_doc
parse-print_doc d =
    rw (read_text-prefixed d.raw (encode d.fields))
      (rw (decode-encode d.fields (length (encode d.fields)) (omega arith)))

find_field-append :
    (k v w : Text) (fs : List (Text × Text))
    → find_field k fs ≡ some w
    → find_field k (fs ++ (k, v) ∷ []) ≡ some w
unfolding find_field
find_field-append k v w [] e = cc
find_field-append k v w ((j, x) ∷ fs) e = ground (arith, find_field-append k v w fs)

find_field-new :
    (k v : Text) (fs : List (Text × Text))
    → find_field k fs ≡ none
    → find_field k (fs ++ (k, v) ∷ []) ≡ some v
unfolding find_field
find_field-new k v [] e = rw (text_eq_refl k)
find_field-new k v ((j, x) ∷ fs) e = ground (arith, find_field-new k v fs)

get-add_old_lem :
    (d m : Doc) (k v : Text) → doc_item d k ≡ some m → doc_item (with_field d k v) k ≡ some m
get-add_old_lem d m k v e = elim (Option-cases (find_field k d.fields)) [
  | inl n ↦ ground (arith, n)
  | inr (w, f) ↦ rw (find_field-append k v w d.fields f) (rw f at e)
]

get-add_new_lem :
    (d : Doc) (k v : Text)
    → doc_item d k ≡ none
    → (m : Doc) × (doc_item (with_field d k v) k ≡ some m) × (some m.raw ≡ some v)
unfolding item
get-add_new_lem d k v e = elim (Option-cases (find_field k d.fields)) [
  | inl n ↦ (item v, rw (find_field-new k v d.fields n), refl)
  | inr (w, f) ↦ absurd (ground (arith, f))
]

pub toy-CjsonLaws :
    (respond : List Request → Request → Option Text) (files : Text → Option Text)
    → CjsonLaws (toy respond files)
toy-CjsonLaws respond files = record {
  get-add_old = get-add_old_lem;
  get-add_new = get-add_new_lem;
}
