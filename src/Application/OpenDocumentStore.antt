-- ===== src/Application/OpenDocumentStore.antt =====
-- crates/ferritex-application/src/open_document_store.rs: the texts that the editor has open.
pub mod Sessions
mod Examples
use ferritex.Prelude.{ℕ, ℤ, List, [], Option, none, some, Str, list_eq, nat_eq}
use ferritex.Prelude.HashMap
use ferritex.Prelude.HashMap.{HashMap}

pub record OpenDocumentBuffer : Type 0 where
  pub uri : Str
  pub language_id : Str
  pub version : ℤ
  pub text : Str

pub record OpenDocumentStore : Type 0 where
  pub documents : HashMap Str OpenDocumentBuffer

abbrev pub new_store : OpenDocumentStore
new_store = record { documents = [] }

unfoldable pub open_document : OpenDocumentStore → OpenDocumentBuffer → OpenDocumentStore
open_document s document = record { documents = HashMap.insert s.documents document.uri document }

-- `update` through `get_mut`: none when no document is there.
abbrev pub edited : OpenDocumentBuffer → ℤ → Str → OpenDocumentBuffer
edited d version text = record d { version = version; text = text }

unfoldable pub update : OpenDocumentStore → Str → ℤ → Str → Option OpenDocumentStore
update s uri version text = elim (HashMap.get s.documents uri) [
  | none ↦ none
  | some d ↦ some (record { documents = HashMap.insert s.documents uri (edited d version text) })
]

unfoldable pub close : OpenDocumentStore → Str → Option OpenDocumentBuffer × OpenDocumentStore
close s uri = (HashMap.get s.documents uri, record { documents = HashMap.remove s.documents uri })

unfoldable pub get_document : OpenDocumentStore → Str → Option OpenDocumentBuffer
get_document s uri = HashMap.get s.documents uri
