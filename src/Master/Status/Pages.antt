-- ===== src/Master/Status/Pages.antt =====
-- src/master.cpp: the pages of request_obj_status put together.
use mathlib.Core.List.{append_assoc}
use aistream.Base.{
  ℕ, zero, suc, ◌+◌, ◌*◌, ◌≤◌, ◌≡◌, refl, sym, ap, ◌∙◌, Option, none, some, option, List, [], ◌∷◌,
  ◌++◌, Text, text, text_eq, arith, length, ℤ, pos, map, Bool, false, ◌||◌, if◌then◌else◌, inl, inr,
  Bool-cases, Option-cases,
}
use aistream.Platform.{Platform}
use aistream.Share.{get_str_val_from_json}
use aistream.Master.State.{MObjParam, MasterParams}
use aistream.Master.Status.{ObjStatus, skip, obj_row, obj_rows, request_obj_status}

skip-nil : {A : Type 0} (n : ℕ) → skip {A = A} n [] ≡ []
skip-nil zero = refl
skip-nil (suc n) = refl

skip-skip : {A : Type 0} (a b c : ℕ) (xs : List A) → b + a ≡ c → skip a (skip b xs) ≡ skip c xs
skip-skip a zero c xs e = let f : a ≡ c = omega arith in ap (λ n. skip n xs) f
skip-skip a (suc b) c [] e = skip-nil a ∙ sym (skip-nil c)
skip-skip a (suc b) zero (x ∷ xs) e = absurd (omega arith)
skip-skip a (suc b) (suc c) (x ∷ xs) e = skip-skip a b c xs (omega arith)

module _ (P : Platform) (http_port : ℤ) (wanted : Text) (m : MasterParams P) where
  abbrev row : MObjParam → List ObjStatus
  row obj = option [] (λ r. r ∷ []) (obj_row P http_port wanted m obj)

  -- The rows of all objects of a list.
  unfoldable listing : List MObjParam → List ObjStatus
  listing [] = []
  listing (obj ∷ objs) = row obj ++ listing objs

  abbrev url_of : MObjParam → Option Text
  url_of obj = get_str_val_from_json P obj.params (some (text "data")) (some (text "url")) none

  -- The query asks for the object: for all types, or for the object's.
  abbrev asked_for : MObjParam → Bool
  asked_for obj =
      option false (λ kind. text_eq wanted (text "all") || text_eq kind wanted)
        (get_str_val_from_json P obj.params (some (text "type")) none none)

  -- The ids, statuses and URLs of the objects that the query asks for and that have a URL.
  unfoldable pub matches : List MObjParam → List (ℤ × ℕ × Text)
  matches [] = []
  matches (obj ∷ objs) =
      (if asked_for obj then option [] (λ url. (obj.id, obj.status, url) ∷ []) (url_of obj) else [])
      ++ matches objs

  -- The ids, statuses and URLs of rows.
  abbrev pub entries_of : List ObjStatus → List (ℤ × ℕ × Text)
  entries_of = map (λ (r : ObjStatus). (r.id, r.status, r.url))

  entries_of-append :
      (xs ys : List ObjStatus) → entries_of (xs ++ ys) ≡ entries_of xs ++ entries_of ys
  entries_of-append [] ys = refl
  entries_of-append (x ∷ xs) ys = ap (◌∷◌ (x.id, x.status, x.url)) (entries_of-append xs ys)

  entries_of-row :
      (obj : MObjParam)
      → entries_of (row obj) ≡ (
          if asked_for obj
          then option [] (λ url. (obj.id, obj.status, url) ∷ []) (url_of obj)
          else [])
  unfolding obj_row
  entries_of-row obj =
      elim (Option-cases (get_str_val_from_json P obj.params (some (text "type")) none none)) [
        | inl n ↦ rw (n, obj_row) refl
        | inr (kind, k) ↦ elim (Bool-cases (text_eq wanted (text "all") || text_eq kind wanted)) [
          | inr f ↦ rw (k, f, obj_row) refl
          | inl t ↦ elim (Option-cases (url_of obj)) [
            | inl n ↦ rw (k, t, n, obj_row) refl
            | inr (url, u) ↦ rw (k, t, u, obj_row) refl
          ]
        ]
      ]

  entries_of-listing : (objs : List MObjParam) → entries_of (listing objs) ≡ matches objs
  unfolding listing matches
  entries_of-listing [] = refl
  entries_of-listing (obj ∷ objs) =
      entries_of-append (row obj) (listing objs)
      ∙ ap (λ t. t ++ entries_of (listing objs)) (entries_of-row obj)
      ∙ ap (◌++◌ _) (entries_of-listing objs)

  obj_rows-nil : (n : ℕ) → obj_rows P http_port wanted m n [] ≡ []
  unfolding obj_rows
  obj_rows-nil zero = refl
  obj_rows-nil (suc n) = refl

  obj_rows-append :
      (a b c : ℕ) (objs : List MObjParam)
      → a + b ≡ c
      → obj_rows P http_port wanted m a objs ++ obj_rows P http_port wanted m b (skip a objs)
        ≡ obj_rows P http_port wanted m c objs
  unfolding obj_rows
  obj_rows-append zero b c objs e =
      let f : b ≡ c = omega arith in ap (λ n. obj_rows P http_port wanted m n objs) f
  obj_rows-append (suc a) b c [] e = obj_rows-nil b ∙ sym (obj_rows-nil c)
  obj_rows-append (suc a) b zero (obj ∷ objs) e = absurd (omega arith)
  obj_rows-append (suc a) b (suc c) (obj ∷ objs) e =
      append_assoc (row obj) (obj_rows P http_port wanted m a objs) _
      ∙ ap (λ t. row obj ++ t) (obj_rows-append a b c objs (omega arith))

  obj_rows-listing :
      (n : ℕ) (objs : List MObjParam)
      → length objs ≤ n
      → obj_rows P http_port wanted m n objs ≡ listing objs
  unfolding obj_rows listing
  obj_rows-listing zero [] h = refl
  obj_rows-listing zero (obj ∷ objs) h = absurd (omega arith)
  obj_rows-listing (suc n) [] h = refl
  obj_rows-listing (suc n) (obj ∷ objs) h =
      ap (λ t. row obj ++ t) (obj_rows-listing n objs (omega arith))

  -- The objects of n replies, each to a query that starts where the one before it ended.
  unfoldable pub pages : ℕ → ℕ → ℕ → List ObjStatus
  pages limit zero offset = []
  pages limit (suc n) offset =
      option [] (λ reply. reply.obj)
        (request_obj_status P http_port (some (wanted, (pos offset, pos limit))) m)
      ++ pages limit n (offset + limit)

  pages-obj_rows :
      (limit n offset c : ℕ)
      → n * limit ≡ c
      → pages limit n offset ≡ obj_rows P http_port wanted m c (skip offset m.m_obj_vec)
  unfolding pages request_obj_status
  pages-obj_rows limit zero offset c e =
      let f : 0 ≡ c = omega arith in
      ap (λ k. obj_rows P http_port wanted m k (skip offset m.m_obj_vec)) f
  pages-obj_rows limit (suc n) offset c e =
      let objs = m.m_obj_vec in
      let rest =
        pages-obj_rows limit n (offset + limit) (n * limit) refl
        ∙ ap (obj_rows P http_port wanted m (n * limit))
            (sym (skip-skip limit offset (offset + limit) objs refl)) in
      ap (λ t. obj_rows P http_port wanted m limit (skip offset objs) ++ t) rest
      ∙ obj_rows-append limit (n * limit) c (skip offset objs) (omega arith)

  -- Pages of any size that follow one another, and of which there are enough, give the ids, the
  -- statuses and the URLs of just those objects that have the type that is asked for and a URL, each
  -- object once and in the order of the table.
  pub entries_of-pages :
      (limit n : ℕ)
      → length m.m_obj_vec ≤ n * limit
      → entries_of (pages limit n 0) ≡ matches m.m_obj_vec
  entries_of-pages limit n h =
      ap entries_of
        (pages-obj_rows limit n 0 (n * limit) refl ∙ obj_rows-listing (n * limit) m.m_obj_vec h)
      ∙ entries_of-listing m.m_obj_vec
