-- ===== src/Tests/ShareTests.antt =====
-- The accessors of src/share.cpp at concrete inputs.
use aistream.Base.{none, [], ◌∷◌, Text, text}
use aistream.Platform.{Platform}
use aistream.Sample.{toy, Doc, doc}

abbrev silent : Platform
silent = toy (λ sent r. none) (λ name. none)

abbrev request : Text
request = doc ((text "id", 7 ∷ []) ∷ (text "type", text "mine") ∷ [])

-- The tree of the request.
abbrev request_tree : Doc
request_tree = record { raw = []; fields = (text "id", 7 ∷ []) ∷ (text "type", text "mine") ∷ [] }
