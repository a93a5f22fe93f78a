-- ===== src/Application/OpenDocumentStore/Sessions.antt =====
-- What an editor reads after any notifications that it sent.
use ferritex.Prelude.{
  ℤ, ◌≡◌, refl, ap, ◌∙◌, Bool, true, false, Option, none, some, List, [], ◌∷◌, Str, ◌=?◌, eq_of_=?,
  list_eq, nat_eq, if◌then◌else◌, unwrap_or, sym,
}
use ferritex.Prelude.HashMap
use ferritex.Application.OpenDocumentStore.{
  OpenDocumentBuffer, OpenDocumentStore, new_store, open_document, edited, update, close,
  get_document,
}

pub data Notification : Type 0 where
  opened : OpenDocumentBuffer → Notification
  changed : Str → ℤ → Str → Notification
  closed : Str → Notification

-- A change of a document that is not open is refused, and the store stays.
abbrev pub step : OpenDocumentStore → Notification → OpenDocumentStore
step s (opened d) = open_document s d
step s (changed uri version text) = unwrap_or (update s uri version text) s
step s (closed uri) = (close s uri).1

-- The notifications with the latest first.
unfoldable pub run : List Notification → OpenDocumentStore
run [] = new_store
run (n ∷ earlier) = step (run earlier) n

abbrev edited_option : Option OpenDocumentBuffer → ℤ → Str → Option OpenDocumentBuffer
edited_option none version text = none
edited_option (some d) version text = some (edited d version text)

-- The document at `uri`, from what the notifications say of it.
unfoldable pub current : List Notification → Str → Option OpenDocumentBuffer
current [] uri = none
current (opened d ∷ earlier) uri =
    let before = current earlier uri in if d.uri =? uri then some d else before
current (changed u version text ∷ earlier) uri =
    let before = current earlier uri in
    if u =? uri then edited_option before version text else before
current (closed u ∷ earlier) uri =
    let before = current earlier uri in if u =? uri then none else before

if_agree :
    {A : Type 0} (b : Bool) (x y z : A)
    → (b ≡ true → x ≡ y)
    → (if b then x else z) ≡ (if b then y else z)
if_agree true x y z h = h refl
if_agree false x y z h = refl

if_same : {A : Type 0} (b : Bool) (x : A) → x ≡ (if b then x else x)
if_same true x = refl
if_same false x = refl

-- The store after a change, given what it holds at the document changed.
abbrev after_change :
    OpenDocumentStore → Str → ℤ → Str → Option OpenDocumentBuffer → OpenDocumentStore
after_change s u version text o =
    unwrap_or
      (elim o [
        | none ↦ none
        | some d ↦
            some (record { documents = HashMap.insert s.documents u (edited d version text) })
      ])
      s

get-after_change :
    (s : OpenDocumentStore) (u uri : Str) (version : ℤ) (text : Str) (o : Option OpenDocumentBuffer)
    → HashMap.get s.documents u ≡ o
    → HashMap.get (after_change s u version text o).documents uri ≡ (
        if u =? uri
        then edited_option (HashMap.get s.documents uri) version text
        else HashMap.get s.documents uri)
get-after_change s u uri version text none p =
    if_same (u =? uri) (HashMap.get s.documents uri)
    ∙ if_agree (u =? uri) _ _ _ (λ t.
      let q = ap (λ k. HashMap.get s.documents k) (sym (eq_of_=? t)) ∙ p in
      q ∙ ap (λ o. edited_option o version text) (sym q))
get-after_change s u uri version text (some d) p =
    HashMap.get-insert s.documents u (edited d version text) uri
    ∙ if_agree (u =? uri) _ _ _ (λ t.
      ap (λ o. edited_option o version text)
        (sym (ap (λ k. HashMap.get s.documents k) (sym (eq_of_=? t)) ∙ p)))

get-changed :
    (s : OpenDocumentStore) (u uri : Str) (version : ℤ) (text : Str)
    → get_document (unwrap_or (update s u version text) s) uri
      ≡ (if u =? uri then edited_option (get_document s uri) version text else get_document s uri)
unfolding update get_document
get-changed s u uri version text =
    get-after_change s u uri version text (HashMap.get s.documents u) refl

-- Whatever notifications an editor sends, the text that is read for a document is that of the latest
-- opening since it was last closed with the latest change after that.
pub get_document-current :
    (ns : List Notification) (uri : Str) → get_document (run ns) uri ≡ current ns uri
unfolding run current get_document open_document close HashMap.get
get_document-current [] uri = refl
get_document-current (opened d ∷ ns) uri =
    HashMap.get-insert (run ns).documents d.uri d uri
    ∙ ap (λ o. if d.uri =? uri then some d else o) (get_document-current ns uri)
get_document-current (changed u version text ∷ ns) uri =
    get-changed (run ns) u uri version text
    ∙ ap (λ o. if u =? uri then edited_option o version text else o) (get_document-current ns uri)
get_document-current (closed u ∷ ns) uri =
    HashMap.get-remove (run ns).documents u uri
    ∙ ap (λ o. if u =? uri then none else o) (get_document-current ns uri)
