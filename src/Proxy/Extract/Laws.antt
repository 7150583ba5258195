-- ===== src/Proxy/Extract/Laws.antt =====
-- Laws of the text extraction of proxy/relay.py.
use nf_safety_hub.Prelude.Dict.{lookup}
use nf_safety_hub.Prelude.{
  map_option, ◌∙◌, ◌↔◌, true, false, Option, none, some, List, [], ◌∷◌, ◌++◌, reverse, ◌≡◌, ◌≢◌,
  refl, sym, ap, arith, All, All-map_impl, Bool-cases, ◌⊎◌, inl, inr,
}
use nf_safety_hub.Prelude.Text.{Text, str, ◌==◌, eq_iff, is_one_of}
use nf_safety_hub.Json.{
  Value, null, bool, int, float, string, array, object, Items, items, Fields, end, field, get,
  get_value,
}
use nf_safety_hub.Proxy.Extract.{
  message_text, latest, extract_latest_text_from_messages, content_parts, parts_of_content,
  has_role, block_scan_roles, join_parts,
}

-- The scan of a dict's fields finds what `get` finds.
pub parts_of_content_lem :
    (fs : Fields) → parts_of_content fs ≡ map_option content_parts (get (str "content") fs)
unfolding parts_of_content lookup
parts_of_content_lem end = refl
parts_of_content_lem (field k v fs) = ground (arith, parts_of_content_lem fs)

-- the roles of the messages whose text is scanned
abbrev pub IsScannedRole : Text → Type 0
IsScannedRole r = (r ≡ str "user") ⊎ ((r ≡ str "tool") ⊎ (r ≡ str "function"))

-- The message is a dict of a scanned role, and `text` is the non-empty parts of its content, joined.
pub record HasText (message : Value) (text : Text) : Type 0 where
  pub fields : Fields
  pub role : Text
  pub shape : message ≡ object fields
  pub named : get_value (str "role") fields ≡ string role
  pub scanned : IsScannedRole role
  pub joined : join_parts (content_parts (get_value (str "content") fields)) ≡ text

-- The message has no text to scan: it is no dict, or its role is another one (no list or dict, which
-- Python cannot look up in a set), or its text is empty.
pub data Silent (message : Value) : Type 0 where
  no_dict : ((fs : Fields) → message ≢ object fs) → Silent message
  other_role :
      (fs : Fields)
      → message ≡ object fs
      → ((r : Text) → get_value (str "role") fs ≡ string r → ¬ (IsScannedRole r))
      → ((xs : Items) → get_value (str "role") fs ≢ array xs)
      → ((xs : Fields) → get_value (str "role") fs ≢ object xs)
      → Silent message
  empty : HasText message [] → Silent message

-- `text` is that of the newest of the messages, which are given newest first, that has one.
pub record IsLatest (messages : List Value) (text : Text) : Type 0 where
  pub older : List Value
  pub message : Value
  pub newer : List Value
  pub split : messages ≡ newer ++ (message ∷ older)
  pub found : HasText message text
  pub silent : All Silent newer

is_one_of-IsScannedRole : (r : Text) → is_one_of r block_scan_roles ≡ true → IsScannedRole r
unfolding is_one_of block_scan_roles
is_one_of-IsScannedRole r h = elim (Bool-cases (r == str "user")) [
  | inl e ↦ inl ((eq_iff r (str "user")).0 e)
  | inr e ↦ elim (Bool-cases (r == str "tool")) [
    | inl f ↦ inr (inl ((eq_iff r (str "tool")).0 f))
    | inr f ↦ inr (inr ((eq_iff r (str "function")).0 (ground (arith, h, e, f))))
  ]
]

IsScannedRole-is_one_of : (r : Text) → IsScannedRole r → is_one_of r block_scan_roles ≡ true
unfolding is_one_of block_scan_roles
IsScannedRole-is_one_of r (inl e) = ground (arith, (eq_iff r (str "user")).1 e)
IsScannedRole-is_one_of r (inr (inl e)) = ground (arith, (eq_iff r (str "tool")).1 e)
IsScannedRole-is_one_of r (inr (inr e)) = ground (arith, (eq_iff r (str "function")).1 e)

-- the cases of the role of a dict
module _ (fs : Fields) where
  abbrev joined_content : Text
  joined_content = join_parts (content_parts (get_value (str "content") fs))

  scanned-message_text :
      (r : Text)
      → get_value (str "role") fs ≡ string r
      → is_one_of r block_scan_roles ≡ true
      → message_text (object fs) ≡ some joined_content
  unfolding message_text has_role
  scanned-message_text r e h = ground (arith, e, h)

  unscanned-message_text :
      (r : Text)
      → get_value (str "role") fs ≡ string r
      → is_one_of r block_scan_roles ≡ false
      → message_text (object fs) ≡ some []
  unfolding message_text has_role
  unscanned-message_text r e h = ground (arith, e, h)

  abbrev Case : Type 0
  Case =
      ((r : Text) × ((get_value (str "role") fs ≡ string r)
          × ((is_one_of r block_scan_roles ≡ true)
              × (message_text (object fs) ≡ some joined_content))))
      ⊎ ((Silent (object fs) × (message_text (object fs) ≡ some []))
          ⊎ (message_text (object fs) ≡ none))

  other-Silent :
      (v : Value)
      → get_value (str "role") fs ≡ v
      → ((r : Text) → v ≡ string r → ¬ (IsScannedRole r))
      → ((xs : Items) → v ≢ array xs)
      → ((xs : Fields) → v ≢ object xs)
      → Silent (object fs)
  other-Silent v e a b c =
      other_role fs refl (λ r q. a r (sym e ∙ q)) (λ xs q. b xs (sym e ∙ q))
        (λ xs q. c xs (sym e ∙ q))

  message_text-cases : (v : Value) → get_value (str "role") fs ≡ v → Case
  unfolding message_text has_role
  message_text-cases (string r) e = elim (Bool-cases (is_one_of r block_scan_roles)) [
    | inl h ↦ inl (r, (e, (h, scanned-message_text r e h)))
    | inr h ↦ inr (
        inl (
          other-Silent (string r) e
              (λ q same scanned. absurd (cc (IsScannedRole-is_one_of q scanned, same, h)))
              (λ xs q. cc q) (λ xs q. cc q),
          unscanned-message_text r e h,
        ))
  ]
  message_text-cases (array xs) e = inr (inr (ground (arith, e)))
  message_text-cases (object xs) e = inr (inr (ground (arith, e)))
  message_text-cases null e = inr (
      inl (
        other-Silent null e (λ r q. absurd (cc q)) (λ xs q. cc q) (λ xs q. cc q),
        ground (arith, e),
      ))
  message_text-cases (bool b) e = inr (
      inl (
        other-Silent (bool b) e (λ r q. absurd (cc q)) (λ xs q. cc q) (λ xs q. cc q),
        ground (arith, e),
      ))
  message_text-cases (int sign n) e = inr (
      inl (
        other-Silent (int sign n) e (λ r q. absurd (cc q)) (λ xs q. cc q) (λ xs q. cc q),
        ground (arith, e),
      ))
  message_text-cases (float n) e = inr (
      inl (
        other-Silent (float n) e (λ r q. absurd (cc q)) (λ xs q. cc q) (λ xs q. cc q),
        ground (arith, e),
      ))

HasText-message_text : (m : Value) (text : Text) → HasText m text → message_text m ≡ some text
HasText-message_text m text h =
    ap message_text h.shape
    ∙ (scanned-message_text h.fields h.role h.named (IsScannedRole-is_one_of h.role h.scanned)
        ∙ ap some h.joined)

Silent-other :
    (fs : Fields) (v : Value)
    → get_value (str "role") fs ≡ v
    → ((r : Text) → v ≡ string r → ¬ (IsScannedRole r))
    → ((xs : Items) → v ≢ array xs)
    → ((xs : Fields) → v ≢ object xs)
    → message_text (object fs) ≡ some []
unfolding message_text has_role
Silent-other fs (string r) e a b c = elim (Bool-cases (is_one_of r block_scan_roles)) [
  | inl h ↦ absurd (a r refl (is_one_of-IsScannedRole r h))
  | inr h ↦ unscanned-message_text fs r e h
]
Silent-other fs (array xs) e a b c = absurd (b xs refl)
Silent-other fs (object xs) e a b c = absurd (c xs refl)
Silent-other fs null e a b c = ground (arith, e)
Silent-other fs (bool b) e a _ _ = ground (arith, e)
Silent-other fs (int sign n) e a b c = ground (arith, e)
Silent-other fs (float n) e a b c = ground (arith, e)

no_dict-message_text : (m : Value) → ((fs : Fields) → m ≢ object fs) → message_text m ≡ some []
unfolding message_text
no_dict-message_text (object fs) h = absurd (h fs refl)
no_dict-message_text _ h = refl

Silent-message_text : (m : Value) → Silent m → message_text m ≡ some []
Silent-message_text m (no_dict h) = no_dict-message_text m h
Silent-message_text m (other_role fs shape a b c) =
    ap message_text shape ∙ Silent-other fs _ refl a b c
Silent-message_text m (empty h) = HasText-message_text m [] h

message_text-found :
    (m : Value) (text : Text)
    → message_text m ≡ some text
    → HasText m text ⊎ (Silent m × (text ≡ []))
unfolding message_text
message_text-found (object fs) text e = elim (message_text-cases fs _ refl) [
  | inl (r, (named, (h, q))) ↦ inl (record {
    fields = fs;
    role = r;
    shape = refl;
    named = named;
    scanned = is_one_of-IsScannedRole r h;
    joined = cc (q, e);
  })
  | inr (inl (silent, q)) ↦ inr (silent, cc (q, e))
  | inr (inr q) ↦ absurd (cc (q, e))
]
message_text-found _ text e = inr (no_dict (λ fs q. cc q), ground (arith, e))

message_text-HasText :
    (m : Value) (text : Text) → message_text m ≡ some text → text ≢ [] → HasText m text
message_text-HasText m text e ne = elim (message_text-found m text e) [
  | inl h ↦ h
  | inr h ↦ absurd (ne h.1)
]

message_text-Silent : (m : Value) → message_text m ≡ some [] → Silent m
message_text-Silent m e = elim (message_text-found m [] e) [ inl h ↦ empty h | inr h ↦ h.0 ]

module _ {m : Value} {ms : List Value} {text : Text} where
  IsLatest-skip : Silent m → IsLatest ms text → IsLatest (m ∷ ms) text
  IsLatest-skip q r = record {
    older = r.older;
    message = r.message;
    newer = m ∷ r.newer;
    split = ap (λ t. m ∷ t) r.split;
    found = r.found;
    silent = (q, r.silent);
  }

  IsLatest-here : HasText m text → IsLatest (m ∷ ms) text
  IsLatest-here q = record {
    older = ms;
    message = m;
    newer = [];
    split = refl;
    found = q;
    silent = tt;
  }

latest-skip : (m : Value) (ms : List Value) → message_text m ≡ some [] → latest (m ∷ ms) ≡ latest ms
unfolding latest
latest-skip m ms q = rw (q, latest) refl

latest-found :
    (m : Value) (ms : List Value) (text : Text)
    → message_text m ≡ some text
    → text ≢ []
    → latest (m ∷ ms) ≡ some text
unfolding latest
latest-found m ms [] q ne = absurd (ne refl)
latest-found m ms (c ∷ cs) q ne = rw (q, latest) refl

latest-cases :
    (messages : List Value) (text : Text)
    → latest messages ≡ some text
    → text ≢ []
    → IsLatest messages text
latest-cases [] text e ne = absurd (ne (unfold latest in ground arith))
latest-cases (m ∷ ms) text e ne = go (message_text m) refl (latest-cases ms text)
  where
    go :
        (o : Option Text)
        → message_text m ≡ o
        → (latest ms ≡ some text → text ≢ [] → IsLatest ms text)
        → IsLatest (m ∷ ms) text
    go none q ih = absurd (unfold latest in ground arith)
    go (some []) q ih =
        IsLatest-skip (message_text-Silent m q) (ih (rw (latest-skip m ms q) at e) ne)
    go (some (c ∷ cs)) q ih =
        IsLatest-here
          (message_text-HasText m text (q ∙ (sym (latest-found m ms (c ∷ cs) q (λ h. cc)) ∙ e)) ne)

latest-silent :
    (newer rest : List Value)
    → All (λ m. message_text m ≡ some []) newer
    → latest (newer ++ rest) ≡ latest rest
latest-silent [] rest h = refl
latest-silent (m ∷ newer) rest h = latest-skip m (newer ++ rest) h.0 ∙ latest-silent newer rest h.1

-- The scanned text of a chat request is that of the newest message of role user, tool or function
-- that has one: a text that is not empty is returned exactly if some dict of such a role has this
-- text, the non-empty parts of its content joined by newlines, and each newer message is no dict, has
-- another role that is no list or dict, or has an empty text.
pub extract-IsLatest :
    (messages : Items) (text : Text)
    → text ≢ []
    → (extract_latest_text_from_messages (array messages) ≡ some text)
      ↔ IsLatest (reverse (items messages)) text
unfolding extract_latest_text_from_messages
extract-IsLatest messages text ne = (
  λ e. latest-cases (reverse (items messages)) text e ne,
  λ r.
      unfold extract_latest_text_from_messages in
      rw r.split (
        latest-silent r.newer (r.message ∷ r.older)
          (All-map_impl _ _ r.newer Silent-message_text r.silent)
        ∙ latest-found r.message r.older text (HasText-message_text r.message text r.found) ne),
)
