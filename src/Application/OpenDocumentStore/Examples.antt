-- ===== src/Application/OpenDocumentStore/Examples.antt =====
-- Tests of the open documents, and their theorem at concrete inputs.
use ferritex.Prelude.{◌≡◌, refl, pos, some, List, [], ◌∷◌, codes, list_eq, list_beq, nat_eq}
use ferritex.Prelude.HashMap.{get, insert, remove}
use ferritex.Application.OpenDocumentStore.{
  OpenDocumentBuffer, open_document, update, close, get_document,
}
use ferritex.Application.OpenDocumentStore.Sessions.{
  Notification, opened, changed, closed, run, current, get_document-current,
}

abbrev hello : OpenDocumentBuffer
hello = record {
  uri = codes "file:///main.tex";
  language_id = codes "latex";
  version = pos 1;
  text = codes "hello";
}

abbrev session : List Notification
session =
    changed (codes "file:///other.tex") (pos 3) []
    ∷ changed (codes "file:///main.tex") (pos 2) (codes "updated")
    ∷ opened hello
    ∷ []

updated :
    get_document (run session) (codes "file:///main.tex")
    ≡ some (record hello { version = pos 2; text = codes "updated" })
unfolding run open_document update close get_document get insert remove list_beq
updated = refl

get_document-current_example :
    get_document (run (closed (codes "file:///main.tex") ∷ session)) (codes "file:///main.tex")
    ≡ current (closed (codes "file:///main.tex") ∷ session) (codes "file:///main.tex")
get_document-current_example =
    get_document-current (closed (codes "file:///main.tex") ∷ session) (codes "file:///main.tex")
